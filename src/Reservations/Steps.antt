-- ===== src/Reservations/Steps.antt =====
-- The steps of the storage services keep the vault safe.
use prj_app.Base.{
  Bool, ℕ, ◌≡◌, refl, sym, true, false, none, some, Text, Table, lookup, insert, ◌==◌, arith,
  lookup-insert, lookup-erase, any_row_none, Bool-cases, inl, inr, ◌⊎◌, ok, Result-cases,
}
use prj_app.Vault.{Vault, Reservation, valid_reservation, save_reservation}
use prj_app.Vault.Safe.{by_others, by_artifact, by_reservation, Safe, Safe-update}
use prj_app.Reservations.{
  fresh_reservation, has_artifact, has_reservation, update_reservation, require_cleanup, attempt,
  drop_reservation,
}

-- What a save writes, and that it is valid.
pub save_reservation-ok :
    (o r s : Reservation)
    → save_reservation o r ≡ ok s
    → (s ≡ r) × (r.storage_key ≡ o.storage_key) × (valid_reservation r ≡ true)
unfolding save_reservation
save_reservation-ok o r s h = (ground arith, ground arith, ground arith)

module _ (digest : Text → Text) (foreign : Table Text) (lost : ℕ → Bool) where
  -- A reservation is dropped whose file, if there is one, has somebody else to answer for it.
  pub Safe-drop :
      (id : ℕ) (r : Reservation) (v : Vault)
      → Safe digest foreign lost v
      → lookup id v.reservations ≡ some r
      → ((bytes : Text)
          → lookup r.storage_key v.disk.files ≡ some bytes
          → (lookup r.storage_key foreign ≡ some bytes) ⊎ (has_artifact r.storage_key v ≡ true))
      → Safe digest foreign lost (drop_reservation id v)
  unfolding has_artifact
  Safe-drop id r v s e other =
      let at = λ (j : ℕ). lookup-erase id j v.reservations in
      record {
        backed = s.backed;
        honest = λ i x f. s.honest i x (ground (arith, at i));
        unique = λ i j x y f g k. ground (arith, at i, at j, s.unique i j x y);
        apart = λ i x f. s.apart i x (ground (arith, at i));
        kept = s.kept;
        tracked = λ k bytes f. elim (s.tracked k bytes f) [
          | by_others x ↦ by_others x
          | by_artifact x ↦ by_artifact x
          | by_reservation i x g q ↦ elim (Bool-cases (id == i)) [
            | inl hit ↦
                let same : r.storage_key ≡ k = ground arith in
                elim (other bytes (rw same f)) [
                  | inl y ↦ by_others (rw (sym same) y)
                  | inr y ↦ by_artifact (rw (sym same) y)
                ]
            | inr miss ↦ by_reservation i x (ground (arith, at i)) q
          ]
        ];
      }

  -- Cleanup that is due later.
  pub Safe-require_cleanup :
      (id : ℕ) (r : Reservation) (v : Vault)
      → Safe digest foreign lost v
      → lookup id v.reservations ≡ some r
      → Safe digest foreign lost (attempt v (require_cleanup id r v))
  unfolding require_cleanup update_reservation
  Safe-require_cleanup id r v s e =
      elim (Result-cases (save_reservation r (record r { cleanup_required = true }))) [
        | inr (x, p) ↦ rw p s
        | inl (w, p) ↦
            let (same, key, valid) =
              save_reservation-ok r (record r { cleanup_required = true }) w p in
            let h = s.honest id r e in
            rw (p, same)
              (Safe-update digest foreign lost id r (record r { cleanup_required = true }) v s e
                refl
                (record {
                  valid = valid;
                  own = h.own;
                  verified = λ g o c. absurd (ground arith);
                  strange = h.strange;
                }))
      ]

  -- A new reservation of a key that is free.
  pub Safe-reserve :
      (id key expires_at : ℕ) (v : Vault)
      → Safe digest foreign lost v
      → has_artifact key v ≡ false
      → has_reservation key v ≡ false
      → lookup id v.reservations ≡ none
      → Safe digest foreign lost
          (record v { reservations = insert id (fresh_reservation key expires_at) v.reservations })
  unfolding has_artifact has_reservation valid_reservation
  Safe-reserve id key expires_at v s free alone fresh =
      let n = fresh_reservation key expires_at in
      let at = λ (j : ℕ). lookup-insert id j n v.reservations in
      let other = λ (j : ℕ) (x : Reservation).
        any_row_none (λ r. r.storage_key == key) v.reservations j {v = x} alone in
      record {
        backed = s.backed;
        honest = λ i x f. elim (Bool-cases (id == i)) [
          | inl hit ↦
              let same : x ≡ n = ground (arith, at i) in
              rw same (record {
                valid = refl;
                own = λ o. absurd (ground arith);
                verified = λ g o c. absurd (ground arith);
                strange = λ bytes c. absurd (ground arith);
              })
          | inr miss ↦ s.honest i x (ground (arith, at i))
        ];
        unique =
            λ i j x y f g k. ground (arith, at i, at j, s.unique i j x y, other i x, other j y);
        apart = λ i x f. elim (Bool-cases (id == i)) [
          | inl hit ↦ let same : x ≡ n = ground (arith, at i) in rw same free
          | inr miss ↦ s.apart i x (ground (arith, at i))
        ];
        kept = s.kept;
        tracked = λ k bytes f. elim (s.tracked k bytes f) [
          | by_others x ↦ by_others x
          | by_artifact x ↦ by_artifact x
          | by_reservation i x g q ↦ elim (Bool-cases (id == i)) [
            | inl hit ↦ absurd (ground arith)
            | inr miss ↦ by_reservation i x (ground (arith, at i)) q
          ]
        ];
      }

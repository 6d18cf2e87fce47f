-- ===== src/Revisions/Rounds/Reserved.antt =====
-- A key that is reserved, and the write under it.
use prj_app.Base.{
  Bool, ℕ, zero, suc, ◌≡◌, refl, false, none, some, Text, Table, lookup, insert, ◌==◌, arith,
  lookup-insert, any_row_none, Bool-cases, Option-cases, inl, inr, ok,
}
use prj_app.Vault.{Vault}
use prj_app.Vault.Safe.{by_others, by_artifact, by_reservation, Safe}
use prj_app.Reservations.{fresh_reservation, has_artifact, has_reservation, reserve_round}
use prj_app.Reservations.Steps.{Safe-reserve}

module _ (digest : Text → Text) (foreign : Table Text) (lost : ℕ → Bool) where
  -- A vault with a new reservation, and what lies under its key.
  pub record Reserved (id key expires_at : ℕ) (v w : Vault) : Type 0 where
    pub safe : Safe digest foreign lost w
    pub row : lookup id w.reservations ≡ some (fresh_reservation key expires_at)
    pub strange :
        (bytes : Text) → lookup key w.disk.files ≡ some bytes → lookup key foreign ≡ some bytes
    pub alone : has_reservation key v ≡ false
    pub unused : lookup id v.reservations ≡ none
    pub rows : w.reservations ≡ insert id (fresh_reservation key expires_at) v.reservations
    pub same_disk : w.disk ≡ v.disk
    pub same_db : w.db ≡ v.db
    pub same_artifacts : w.artifacts ≡ v.artifacts

  -- A file under a key that neither an artifact nor a reservation has is somebody else's.
  stranger :
      (key : ℕ) (v : Vault) (bytes : Text)
      → Safe digest foreign lost v
      → has_artifact key v ≡ false
      → has_reservation key v ≡ false
      → lookup key v.disk.files ≡ some bytes
      → lookup key foreign ≡ some bytes
  unfolding has_artifact has_reservation
  stranger key v bytes s free alone f = elim (s.tracked key bytes f) [
    | by_others x ↦ x
    | by_artifact x ↦ absurd (ground arith)
    | by_reservation i x g q ↦
        let other = any_row_none (λ r. r.storage_key == key) v.reservations i {v = x} alone in
        absurd (ground (arith, other))
  ]

  pub reserve_round-Reserved :
      (n : ℕ) (draw_id draw_key : ℕ → ℕ) (expires_at : ℕ) (v w : Vault) (id key : ℕ)
      → Safe digest foreign lost v
      → reserve_round n draw_id draw_key expires_at v ≡ ok (id, key, w)
      → Reserved id key expires_at v w
  unfolding reserve_round
  reserve_round-Reserved zero draw_id draw_key expires_at v w id key s e = absurd (ground arith)
  reserve_round-Reserved (suc n) draw_id draw_key expires_at v w id key s e =
      let rest = reserve_round-Reserved n draw_id draw_key expires_at v w id key s in
      elim (Bool-cases (has_artifact (draw_key n) v)) [
        | inl held ↦ rest (ground arith)
        | inr free ↦ elim (Bool-cases (has_reservation (draw_key n) v)) [
          | inl held ↦ rest (ground arith)
          | inr alone ↦ elim (Option-cases (lookup (draw_id n) v.reservations)) [
            | inr (r, held) ↦ rest (ground arith)
            | inl fresh ↦
                let row = fresh_reservation key expires_at in
                let same_id : draw_id n ≡ id = ground arith in
                let same_key : draw_key n ≡ key = ground arith in
                let x : Vault = record v { reservations = insert id row v.reservations } in
                let same : w ≡ x = ground arith in
                let free' : has_artifact key v ≡ false = ground arith in
                let alone' : has_reservation key v ≡ false = ground arith in
                let made : Reserved id key expires_at v x = record {
                  safe =
                      Safe-reserve digest foreign lost id key expires_at v s free' alone'
                        (ground arith);
                  row = ground (arith, lookup-insert id id row v.reservations);
                  strange = λ bytes f. stranger key v bytes s free' alone' f;
                  alone = alone';
                  unused = ground arith;
                  rows = refl;
                  same_disk = refl;
                  same_db = refl;
                  same_artifacts = refl;
                } in
                rw same made
          ]
        ]
      ]

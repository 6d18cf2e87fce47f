-- ===== src/Reservations/Cleanup.antt =====
-- The cleanup of expired reservations keeps the vault safe.
use prj_app.Base.{
  Bool, ℕ, ◌≡◌, refl, true, false, some, List, [], ◌∷◌, Text, Table, lookup, arith, if◌then◌else◌,
  Bool-cases, Option-cases, inl, inr, leb, ok, ◌+◌,
}
use prj_app.Disk.{DeleteFault}
use prj_app.Vault.{Vault, Reservation, StorageState, is_reserved, is_owned, is_collided}
use prj_app.Vault.Safe.{Safe}
use prj_app.Reservations.{
  has_artifact, require_cleanup, attempt, drop_reservation, delete_bytes, first_ids, expired,
  clean_expired_stored, clean_expired, cleanup_expired_reservations, CleanupResult,
}
use prj_app.Reservations.Steps.{Safe-drop, Safe-require_cleanup}
use prj_app.Reservations.Bytes.{Safe-delete_bytes}

third_state : (s : StorageState) → is_collided s ≡ false → is_reserved s ≡ false → is_owned s ≡ true
third_state StorageState.reserved c r = absurd (ground arith)
third_state StorageState.owned c r = refl
third_state StorageState.collided c r = absurd (ground arith)

module _ (digest : Text → Text) (foreign : Table Text) (lost : ℕ → Bool) where
  clean_expired_stored-Safe :
      (fault : DeleteFault) (id : ℕ) (r : Reservation) (v : Vault)
      → Safe digest foreign lost v
      → lookup id v.reservations ≡ some r
      → Safe digest foreign lost (clean_expired_stored fault id r v).1
  unfolding clean_expired_stored
  clean_expired_stored-Safe fault id r v s e =
      let now = (clean_expired_stored fault id r v).1 in
      elim (Bool-cases (has_artifact r.storage_key v)) [
        | inl kept ↦
            let step : now ≡ drop_reservation id v = ground arith in
            rw step (Safe-drop digest foreign lost id r v s e (λ bytes f. inr kept))
        | inr free ↦ elim (Bool-cases (is_collided r.storage_state)) [
          | inl strange ↦
              let step : now ≡ drop_reservation id v = ground arith in
              rw step (
                Safe-drop digest foreign lost id r v s e
                  (λ bytes f. inl ((s.honest id r e).strange bytes strange f)))
          | inr fair ↦ elim (Bool-cases (is_reserved r.storage_state)) [
            | inl unsure ↦
                let step : now ≡ attempt v (require_cleanup id r v) = ground arith in
                rw step (Safe-require_cleanup digest foreign lost id r v s e)
            | inr sure ↦
                let step : now ≡ delete_bytes fault id r v = ground arith in
                rw step (
                  Safe-delete_bytes digest foreign lost fault id r v s e
                    ((s.honest id r e).own (third_state r.storage_state fair sure)))
          ]
        ]
      ]

  pub clean_expired-Safe :
      (fault : ℕ → DeleteFault) (cutoff : ℕ) (ids : List ℕ) (result : CleanupResult) (v : Vault)
      → Safe digest foreign lost v
      → Safe digest foreign lost (clean_expired fault cutoff ids result v).1
  unfolding clean_expired
  clean_expired-Safe fault cutoff [] result v s = s
  clean_expired-Safe fault cutoff (id ∷ ids) result v s =
      elim (Option-cases (lookup id v.reservations)) [
        | inl gone ↦ rw (clean_expired, gone) (clean_expired-Safe fault cutoff ids result v s)
        | inr (r, e) ↦ elim (Bool-cases (leb r.expires_at cutoff)) [
          | inr soon ↦ rw (clean_expired, e, soon) (clean_expired-Safe fault cutoff ids result v s)
          | inl late ↦
              let w = clean_expired_stored (fault id) id r v in
              let after =
                if w.0
                then record result { removed = result.removed + 1 }
                else record result { retained = result.retained + 1 } in
              rw (clean_expired, e, late)
                (clean_expired-Safe fault cutoff ids after w.1
                  (clean_expired_stored-Safe (fault id) id r v s e))
        ]
      ]

  -- Whatever deletions fail, the cleanup of expired reservations keeps a vault safe: it deletes no
  -- file of somebody else and no artifact's, and every file that is left is still answered for.
  pub cleanup_expired_reservations-Safe :
      (fault : ℕ → DeleteFault) (cutoff limit : ℕ) (v : Vault) (out : CleanupResult × Vault)
      → Safe digest foreign lost v
      → cleanup_expired_reservations fault cutoff limit v ≡ ok out
      → Safe digest foreign lost out.1
  unfolding cleanup_expired_reservations
  cleanup_expired_reservations-Safe fault cutoff limit v out s e =
      let start : CleanupResult = record { removed = 0; retained = 0 } in
      let ids = first_ids limit (expired cutoff v.reservations) in
      let same : out ≡ clean_expired fault cutoff ids start v = ground arith in
      rw same (clean_expired-Safe fault cutoff ids start v s)

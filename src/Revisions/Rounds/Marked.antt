-- ===== src/Revisions/Rounds/Marked.antt =====
-- What a write did is recorded in its reservation.
use mathlib.Core.Path.{◌∙◌}
use prj_app.Base.{
  Bool, ℕ, ◌≡◌, refl, true, false, none, some, Text, Table, lookup, insert, arith, Bool-cases, inl,
  inr, ok, Result-cases,
}
use prj_app.Disk.{Receipt}
use prj_app.Disk.Contents.{Holds}
use prj_app.Vault.{Vault, Reservation, StorageState, is_collided, save_reservation}
use prj_app.Vault.Safe.{Safe, Safe-update}
use prj_app.Reservations.{
  mark_verified, mark_collision, mark_cleanup_required, attempt, transaction, update_reservation,
  require_cleanup,
}
use prj_app.Reservations.Steps.{save_reservation-ok, Safe-require_cleanup}

-- The tables that reservations and files do not touch.
pub record SameTables (v w : Vault) : Type 0 where
  pub same_db : w.db ≡ v.db
  pub same_artifacts : w.artifacts ≡ v.artifacts

pub SameTables-trans : (v w x : Vault) → SameTables v w → SameTables w x → SameTables v x
SameTables-trans v w x a b = record {
  same_db = b.same_db ∙ a.same_db;
  same_artifacts = b.same_artifacts ∙ a.same_artifacts;
}

require_cleanup-SameTables :
    (id : ℕ) (r : Reservation) (v : Vault) → SameTables v (attempt v (require_cleanup id r v))
unfolding require_cleanup update_reservation
require_cleanup-SameTables id r v = record { same_db = ground arith; same_artifacts = ground arith }

module _ (digest : Text → Text) (foreign : Table Text) (lost : ℕ → Bool) where
  pub mark_verified-Safe :
      (id key : ℕ) (r : Reservation) (receipt : Receipt) (v w : Vault)
      → Safe digest foreign lost v
      → lookup id v.reservations ≡ some r
      → r.storage_key ≡ key
      → lookup key foreign ≡ none
      → Holds digest v.disk key receipt.byte_size receipt.sha256
      → mark_verified id key receipt v ≡ ok w
      → Safe digest foreign lost w × SameTables v w
  unfolding mark_verified update_reservation
  mark_verified-Safe id key r receipt v w s e at_key mine held h =
      let n : Reservation = record r {
        verified_size = some receipt.byte_size;
        verified_sha256 = receipt.sha256;
        storage_state = StorageState.owned;
        cleanup_required = false;
      } in
      elim (Result-cases (save_reservation r n)) [
        | inr (x, p) ↦ absurd (ground arith)
        | inl (saved, p) ↦
            let (same, k, valid) = save_reservation-ok r n saved p in
            let after : w ≡ record v { reservations = insert id n v.reservations } = ground arith in
            rw after (
              Safe-update digest foreign lost id r n v s e refl (record {
                valid = valid;
                own = λ o. rw at_key mine;
                verified = λ g o c. (receipt.byte_size, refl, rw at_key held);
                strange = λ bytes c. absurd (ground arith);
              }),
              record { same_db = refl; same_artifacts = refl },
            )
      ]

  pub mark_collision-Safe :
      (id : ℕ) (r : Reservation) (v w : Vault)
      → Safe digest foreign lost v
      → lookup id v.reservations ≡ some r
      → ((bytes : Text)
          → lookup r.storage_key v.disk.files ≡ some bytes
          → lookup r.storage_key foreign ≡ some bytes)
      → mark_collision id v ≡ ok w
      → Safe digest foreign lost w × SameTables v w × (w.disk ≡ v.disk)
  unfolding mark_collision update_reservation
  mark_collision-Safe id r v w s e strange h =
      let n : Reservation = record r { storage_state = StorageState.collided } in
      elim (Bool-cases (is_collided r.storage_state)) [
        | inl already ↦
            let after : w ≡ v = ground arith in
            rw after (s, record { same_db = refl; same_artifacts = refl }, refl)
        | inr fair ↦ elim (Result-cases (save_reservation r n)) [
          | inr (x, p) ↦ absurd (ground arith)
          | inl (saved, p) ↦
              let (same, k, valid) = save_reservation-ok r n saved p in
              let after : w ≡ record v { reservations = insert id n v.reservations } =
                ground arith in
              rw after (
                Safe-update digest foreign lost id r n v s e refl (record {
                  valid = valid;
                  own = λ o. absurd (ground arith);
                  verified = λ g o c. absurd (ground arith);
                  strange = λ bytes c f. strange bytes f;
                }),
                record { same_db = refl; same_artifacts = refl },
                refl,
              )
        ]
      ]

  pub mark_cleanup_required-Safe :
      (fails : Bool) (id : ℕ) (r : Reservation) (v : Vault)
      → Safe digest foreign lost v
      → lookup id v.reservations ≡ some r
      → Safe digest foreign lost (attempt v (transaction fails (mark_cleanup_required id v)))
        × SameTables v (attempt v (transaction fails (mark_cleanup_required id v)))
  unfolding mark_cleanup_required transaction
  mark_cleanup_required-Safe true id r v s e = (s, record { same_db = refl; same_artifacts = refl })
  mark_cleanup_required-Safe false id r v s e =
      let step : mark_cleanup_required id v ≡ require_cleanup id r v = ground arith in
      rw step
        (Safe-require_cleanup digest foreign lost id r v s e, require_cleanup-SameTables id r v)

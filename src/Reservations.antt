-- ===== src/Reservations.antt =====
-- The storage reservations of core/services.py: reserving a key, recording what a write did, and
-- the cleanup of what no artifact owns.
pub mod Steps
pub mod Bytes
pub mod Unowned
pub mod Cleanup
use prj_app.Base.{
  ℕ, zero, suc, ◌+◌, Bool, true, false, not, ◌&&◌, ◌||◌, Option, none, some, List, [], ◌∷◌, Text,
  Table, ◌≡◌, arith, leb, ltb, ◌==◌, if◌then◌else◌, is_some, lookup, insert, erase, any_row, Result,
  ok, err, Error, ◌>>=◌, ◌>>◌, raise_if, or_raise,
}
use prj_app.Disk.{Disk, Receipt, DeleteFault, delete}
use prj_app.Vault.{
  Vault, Reservation, StorageState, is_reserved, is_owned, is_collided, save_reservation,
}

-- `_KEY_ATTEMPTS`
abbrev pub key_attempts : ℕ
key_attempts = 8

abbrev pub fresh_reservation : ℕ → ℕ → Reservation
fresh_reservation key expires_at = record {
  storage_key = key;
  storage_state = StorageState.reserved;
  expires_at = expires_at;
  verified_size = none;
  verified_sha256 = [];
  cleanup_required = false;
}

-- `Artifact.objects.filter(storage_key=key).exists()`
unfoldable pub has_artifact : ℕ → Vault → Bool
has_artifact key v = any_row (λ a. a.storage_key == key) v.artifacts

unfoldable pub has_reservation : ℕ → Vault → Bool
has_reservation key v = any_row (λ r. r.storage_key == key) v.reservations

-- The rounds of `_reserve_storage_key`: the identifier and the key that each round draws, the n-th
-- first. A used identifier or key breaks a unique index, and the next round begins.
unfoldable pub reserve_round : ℕ → (ℕ → ℕ) → (ℕ → ℕ) → ℕ → Vault → Result (ℕ × ℕ × Vault)
reserve_round zero draw_id draw_key expires_at v = err Error.revision_rejected
reserve_round (suc n) draw_id draw_key expires_at v =
    let rest = reserve_round n draw_id draw_key expires_at v in
    if has_artifact (draw_key n) v
    then rest
    else if has_reservation (draw_key n) v || is_some (lookup (draw_id n) v.reservations)
    then rest
    else ok (
      draw_id n,
      draw_key n,
      record v {
        reservations =
            insert (draw_id n) (fresh_reservation (draw_key n) expires_at) v.reservations;
      },
    )

-- A stored reservation is saved with other values.
unfoldable pub update_reservation : ℕ → Reservation → Reservation → Vault → Result Vault
update_reservation id original r v = do
  saved ← save_reservation original r
  ok (record v { reservations = insert id saved v.reservations })

-- `_mark_reservation_verified`
unfoldable pub mark_verified : ℕ → ℕ → Receipt → Vault → Result Vault
mark_verified id key receipt v = do
  r ← or_raise (lookup id v.reservations) Error.revision_rejected
  raise_if (not (r.storage_key == key)) Error.revision_rejected
  update_reservation id r
      (record r {
        verified_size = some receipt.byte_size;
        verified_sha256 = receipt.sha256;
        storage_state = StorageState.owned;
        cleanup_required = false;
      })
      v

-- `_mark_reservation_collision`
unfoldable pub mark_collision : ℕ → Vault → Result Vault
mark_collision id v = do
  r ← or_raise (lookup id v.reservations) Error.revision_rejected
  if is_collided r.storage_state then ok v else do
    raise_if (not (is_reserved r.storage_state)) Error.revision_rejected
    update_reservation id r (record r { storage_state = StorageState.collided }) v

-- `reservation.cleanup_required = True`, and the save
unfoldable pub require_cleanup : ℕ → Reservation → Vault → Result Vault
require_cleanup id r v = update_reservation id r (record r { cleanup_required = true }) v

-- `_mark_reservation_cleanup_required`
unfoldable pub mark_cleanup_required : ℕ → Vault → Result Vault
mark_cleanup_required id v = do
  r ← or_raise (lookup id v.reservations) Error.revision_rejected
  require_cleanup id r v

-- `try: … except BaseException: pass`, around one transaction
abbrev pub attempt : Vault → Result Vault → Vault
attempt v (ok w) = w
attempt v (err e) = v

-- A transaction, and whether the database fails in it: nothing is written then.
unfoldable pub transaction {ℓ} : {A : Type ℓ} → Bool → Result A → Result A
transaction true r = err Error.database_failed
transaction false r = r

pub transaction-ok {ℓ} :
    {A : Type ℓ} (fails : Bool) (r : Result A) (a : A) → transaction fails r ≡ ok a → r ≡ ok a
unfolding transaction
transaction-ok true r a h = absurd (ground arith)
transaction-ok false r a h = h

abbrev pub drop_reservation : ℕ → Vault → Vault
drop_reservation id v = record v { reservations = erase id v.reservations }

-- The bytes under the key of a reservation are deleted, and the reservation with them; a failure
-- leaves it to a later cleanup. The disk does not roll back.
unfoldable pub delete_bytes : DeleteFault → ℕ → Reservation → Vault → Vault
delete_bytes fault id r v =
    let (done, disk) = delete fault r.storage_key v.disk in
    let after : Vault = record v { disk = disk } in
    if done then drop_reservation id after else attempt after (require_cleanup id r after)

-- `_CleanupCandidate`
pub record Candidate : Type 0 where
  pub reservation_id : ℕ
  pub key : ℕ
  pub owns_bytes : Bool
  pub uncertain_outcome : Bool

-- The transaction of `_cleanup_unowned`, for a stored reservation.
unfoldable pub clean_stored : DeleteFault → Candidate → Reservation → Vault → Vault
clean_stored fault c r v =
    if not (r.storage_key == c.key)
    then attempt v (require_cleanup c.reservation_id r v)
    else if has_artifact c.key v
    then drop_reservation c.reservation_id v
    else if is_collided r.storage_state
    then drop_reservation c.reservation_id v
    else if c.uncertain_outcome
    then if r.cleanup_required then v else attempt v (require_cleanup c.reservation_id r v)
    else if r.cleanup_required
    then v
    else if not c.owns_bytes
    then drop_reservation c.reservation_id v
    else delete_bytes fault c.reservation_id r v

-- What fails in the cleanup of a reservation: the deletion of its file, and the transaction.
pub record CleanupFault : Type 0 where
  pub deletion : DeleteFault
  pub rolls_back : Bool

-- The end of a transaction: the tables are restored where it fails, but not the disk.
unfoldable pub end_of : Bool → Vault → Vault → Vault
end_of false v after = after
end_of true v after = record v { disk = after.disk }

-- One round of `_cleanup_unowned`, with `except BaseException: continue` around its transaction.
unfoldable pub clean_candidate : CleanupFault → Candidate → Vault → Vault
clean_candidate fault c v = elim (lookup c.reservation_id v.reservations) [
  | none ↦ v
  | some r ↦ end_of fault.rolls_back v (clean_stored fault.deletion c r v)
]

-- `_cleanup_unowned`; `fault` tells what fails for each reservation.
unfoldable pub cleanup_unowned : (ℕ → CleanupFault) → List Candidate → Vault → Vault
cleanup_unowned fault [] v = v
cleanup_unowned fault (c ∷ cs) v =
    cleanup_unowned fault cs (clean_candidate (fault c.reservation_id) c v)

-- The branches of `cleanup_expired_reservations` for one expired reservation: whether it is removed.
unfoldable pub clean_expired_stored : DeleteFault → ℕ → Reservation → Vault → Bool × Vault
clean_expired_stored fault id r v =
    if has_artifact r.storage_key v
    then (true, drop_reservation id v)
    else if is_collided r.storage_state
    then (true, drop_reservation id v)
    else if is_reserved r.storage_state
    then (false, attempt v (require_cleanup id r v))
    else let after = delete_bytes fault id r v in ((delete fault r.storage_key v.disk).0, after)

-- A row in the order by expiry, then identifier.
unfoldable pub insert_by_expiry : ℕ → ℕ → List (ℕ × ℕ) → List (ℕ × ℕ)
insert_by_expiry expires_at id [] = (expires_at, id) ∷ []
insert_by_expiry expires_at id ((t, i) ∷ rows) =
    if ltb expires_at t || (expires_at == t && ltb id i)
    then (expires_at, id) ∷ (t, i) ∷ rows
    else (t, i) ∷ insert_by_expiry expires_at id rows

-- The rows that the query selects, in its order.
unfoldable pub expired : ℕ → Table Reservation → List (ℕ × ℕ)
expired cutoff [] = []
expired cutoff ((id, r) ∷ t) =
    let rest = expired cutoff t in
    if leb r.expires_at cutoff && not (is_reserved r.storage_state && r.cleanup_required)
    then insert_by_expiry r.expires_at id rest
    else rest

-- The identifiers of the first rows.
abbrev pub first_ids : ℕ → List (ℕ × ℕ) → List ℕ
first_ids zero rows = []
first_ids (suc n) [] = []
first_ids (suc n) ((t, i) ∷ rows) = i ∷ first_ids n rows

-- `CleanupResult`
pub record CleanupResult : Type 0 where
  pub removed : ℕ
  pub retained : ℕ

-- The loop over the selected identifiers, each of which is looked up again.
unfoldable pub clean_expired :
    (ℕ → DeleteFault) → ℕ → List ℕ → CleanupResult → Vault → CleanupResult × Vault
clean_expired fault cutoff [] result v = (result, v)
clean_expired fault cutoff (id ∷ ids) result v = elim (lookup id v.reservations) [
  | none ↦ clean_expired fault cutoff ids result v
  | some r ↦ elim (leb r.expires_at cutoff) [
    | false ↦ clean_expired fault cutoff ids result v
    | true ↦
        let (gone, w) = clean_expired_stored (fault id) id r v in
        clean_expired fault cutoff ids
          (if gone
            then record result { removed = result.removed + 1 }
            else record result { retained = result.retained + 1 })
          w
  ]
]

-- `cleanup_expired_reservations`
unfoldable pub cleanup_expired_reservations :
    (ℕ → DeleteFault) → ℕ → ℕ → Vault → Result (CleanupResult × Vault)
cleanup_expired_reservations fault cutoff limit v = do
  raise_if (limit == 0) Error.invalid_input
  ok (
      clean_expired fault cutoff (first_ids limit (expired cutoff v.reservations))
        (record { removed = 0; retained = 0 }) v)

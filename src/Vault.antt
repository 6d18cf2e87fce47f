-- ===== src/Vault.antt =====
-- The rows that own stored bytes: `Artifact` and `StorageReservation` of core/models.py, with the
-- checks of their saves. An artifact's key and a reservation's are keys of the disk.
pub mod Safe
use prj_app.Base.{
  ℕ, Bool, true, false, not, ◌&&◌, ◌||◌, Option, none, some, [], Text, Table, ◌==◌, if◌then◌else◌,
  is_none, is_some, opt_eq, text_eq, lookup, insert, any_row, Result, ok, Error, ◌>>◌, ◌>>=◌,
  raise_if, length, one_of,
}
use prj_app.Model.{Db, Revision}
use prj_app.Unicode.{Unicode}
use prj_app.Names.Logical.{LogicalName, normalize_logical_name}
use prj_app.MediaType.{Kind, media_types}
use prj_app.Disk.{Disk, is_digest}

-- `Artifact`
pub record Artifact : Type 0 where
  pub revision : ℕ
  pub kind : Kind
  pub logical_name : Text
  pub name_key : Text
  pub storage_key : ℕ
  pub byte_size : ℕ
  pub media_type : Text
  pub sha256 : Text

-- `StorageReservation.StorageState`
pub data StorageState : Type 0 where
  reserved owned collided : StorageState

-- `StorageReservation`. An empty digest stands for none.
pub record Reservation : Type 0 where
  pub storage_key : ℕ
  pub storage_state : StorageState
  pub expires_at : ℕ
  pub verified_size : Option ℕ
  pub verified_sha256 : Text
  pub cleanup_required : Bool

-- The tables and the disk that the storage services share.
pub record Vault : Type 0 where
  pub db : Db
  pub artifacts : Table Artifact
  pub reservations : Table Reservation
  pub disk : Disk

abbrev pub is_reserved : StorageState → Bool
is_reserved StorageState.reserved = true
is_reserved _ = false

abbrev pub is_owned : StorageState → Bool
is_owned StorageState.owned = true
is_owned _ = false

abbrev pub is_collided : StorageState → Bool
is_collided StorageState.collided = true
is_collided _ = false

abbrev pub same_state : StorageState → StorageState → Bool
same_state StorageState.reserved t = is_reserved t
same_state StorageState.owned t = is_owned t
same_state StorageState.collided t = is_collided t

abbrev pub is_empty : Text → Bool
is_empty s = length s == 0

-- The constraints of a reservation: its digest has the form of one, and stands with a size exactly
-- where the bytes are owned.
unfoldable pub valid_reservation : Reservation → Bool
valid_reservation r =
    (is_empty r.verified_sha256 || is_digest r.verified_sha256)
    && (if is_owned r.storage_state
        then is_some r.verified_size && not (is_empty r.verified_sha256)
        else is_none r.verified_size && is_empty r.verified_sha256)

-- `StorageReservation.save` over a stored row.
unfoldable pub save_reservation : Reservation → Reservation → Result Reservation
save_reservation original r = do
  raise_if
      (not (original.storage_key == r.storage_key) || not (original.expires_at == r.expires_at))
      Error.immutable_record
  raise_if
      (is_some original.verified_size
        && (not (opt_eq r.verified_size original.verified_size)
            || not (text_eq r.verified_sha256 original.verified_sha256)))
      Error.immutable_record
  raise_if
      (not (same_state r.storage_state original.storage_state)
        && not (is_reserved original.storage_state && not (is_reserved r.storage_state)))
      Error.immutable_record
  raise_if (original.cleanup_required && not r.cleanup_required) Error.immutable_record
  raise_if (not (valid_reservation r)) Error.validation_failed
  ok r

-- The normal form of the name that a save sets, and `full_clean`: `clean` and the constraints.
-- `stored` are the artifacts, for the unique indexes.
unfoldable pub save_new_artifact : Unicode → Revision → Table Artifact → Artifact → Result Artifact
save_new_artifact u revision stored a = do
  name ← normalize_logical_name u a.logical_name
  raise_if (not (one_of a.media_type (media_types a.kind))) Error.validation_failed
  raise_if revision.artifacts_locked Error.validation_failed
  raise_if (not (is_digest a.sha256)) Error.validation_failed
  raise_if (is_empty name.display || is_empty name.comparison_key) Error.validation_failed
  raise_if (any_row (λ b. b.storage_key == a.storage_key) stored) Error.validation_failed
  raise_if
      (any_row (λ b. b.revision == a.revision && text_eq b.name_key name.comparison_key) stored)
      Error.validation_failed
  ok (record a { logical_name = name.display; name_key = name.comparison_key })

-- ===== src/Revisions/Commit.antt =====
-- `_commit_revision_metadata` of core/services.py. `Revision.clean` repeats checks that the commit
-- has just made; its constraints are modelled.
pub mod Checked
pub mod Adopted
use prj_app.Base.{
  ℕ, ◌+◌, Bool, true, false, not, ◌&&◌, ◌||◌, Option, none, some, List, [], ◌∷◌, ◌++◌, map, Text,
  Table, ◌==◌, if◌then◌else◌, is_none, is_some, opt_eq, text_eq, lookup, insert, erase, any_row,
  Result, ok, err, Error, ◌>>=◌, ◌>>◌, raise_if, or_raise, length, one_of,
}
use prj_app.Model.{Db, User, Dashboard, Revision, Event}
use prj_app.Unicode.{Unicode}
use prj_app.Lifecycle.{save}
use prj_app.Store.{active_user, record_event}
use prj_app.Publication.{is_working}
use prj_app.Names.Logical.{LogicalName, normalize_logical_name}
use prj_app.MediaType.{Kind, authoritative_media_type}
use prj_app.Disk.{
  Receipt, WriteFaults, DeleteFault, Written, stored, committed, collision, failed, write,
  is_digest,
}
use prj_app.Disk.{cleanup_required as residue}
use prj_app.Vault.{Vault, Artifact, Reservation, save_new_artifact}
use prj_app.Reservations.{
  key_attempts, reserve_round, has_artifact, mark_verified, mark_collision, mark_cleanup_required,
  attempt, Candidate, cleanup_unowned,
}
use prj_app.Revisions.Rounds.{Prepared}

-- The checks of a prepared artifact against its reservation.
unfoldable pub check_prepared : Vault → Prepared → Result (Unit {0})
check_prepared v p = do
  r ← or_raise (lookup p.reservation_id v.reservations) Error.revision_rejected
  raise_if
      (not (r.storage_key == p.key)
        || (not (opt_eq r.verified_size (some p.receipt.byte_size))
            || (not (text_eq r.verified_sha256 p.receipt.sha256) || r.cleanup_required)))
      Error.revision_rejected
  raise_if (has_artifact p.key v) Error.revision_rejected

-- No reservation stands for two artifacts.
unfoldable pub is_repeated : ℕ → List Prepared → Bool
is_repeated id [] = false
is_repeated id (p ∷ ps) = p.reservation_id == id || is_repeated id ps

unfoldable pub check_all : Vault → List Prepared → Result (Unit {0})
check_all v [] = ok tt
check_all v (p ∷ ps) = do
  check_prepared v p
  raise_if (is_repeated p.reservation_id ps) Error.revision_rejected
  check_all v ps

abbrev pub artifact_row : ℕ → Prepared → Artifact
artifact_row revision_id p = record {
  revision = revision_id;
  kind = p.kind;
  logical_name = p.name.display;
  name_key = p.name.comparison_key;
  storage_key = p.key;
  byte_size = p.receipt.byte_size;
  media_type = p.media_type;
  sha256 = p.receipt.sha256;
}

-- The artifacts of an unlocked revision are saved in turn, each by a forced insert.
unfoldable pub save_artifacts :
    Unicode → ℕ → Revision → List Prepared → Table Artifact → Result (Table Artifact)
save_artifacts u revision_id revision [] artifacts = ok artifacts
save_artifacts u revision_id revision (p ∷ ps) artifacts = do
  a ← save_new_artifact u revision artifacts (artifact_row revision_id p)
  raise_if (is_some (lookup p.artifact_id artifacts)) Error.validation_failed
  save_artifacts u revision_id revision ps (insert p.artifact_id a artifacts)

-- `StorageReservation.objects.filter(id__in=…).delete()`
unfoldable pub erase_reservations : List Prepared → Table Reservation → Table Reservation
erase_reservations [] t = t
erase_reservations (p ∷ ps) t = erase_reservations ps (erase p.reservation_id t)

-- The number that follows the latest revision's.
unfoldable pub next_number : Table Revision → Dashboard → ℕ
next_number revisions d = elim d.latest_revision [
  | none ↦ 1
  | some id ↦ elim (lookup id revisions) [ none ↦ 1 | some r ↦ r.number + 1 ]
]

abbrev pub new_revision : ℕ → ℕ → ℕ → Revision
new_revision dashboard_id number creator = record {
  dashboard = dashboard_id;
  number = number;
  created_by = creator;
  artifacts_locked = false;
}

-- The unique indexes of a revision: its number in the dashboard.
unfoldable pub save_new_revision : Table Revision → Revision → Result Revision
save_new_revision revisions r = do
  raise_if (r.number == 0) Error.validation_failed
  raise_if (any_row (λ o. o.dashboard == r.dashboard && o.number == r.number) revisions)
      Error.validation_failed
  ok r

-- The writes of a commit.
unfoldable pub write_revision :
    Unicode → ℕ → ℕ → ℕ → ℕ → Dashboard → List Prepared → Vault → Result Vault
write_revision u clock revision_id dashboard_id creator d prepared v = do
  let number = next_number v.db.revisions d
  raise_if (is_some (lookup revision_id v.db.revisions)) Error.validation_failed
  revision ← save_new_revision v.db.revisions (new_revision dashboard_id number creator)
  artifacts ← save_artifacts u revision_id revision prepared v.artifacts
  let revisions = insert revision_id (record revision { artifacts_locked = true }) v.db.revisions
  saved ← save clock revisions dashboard_id d (record d { latest_revision = some revision_id })
  ok (record v {
    db =
        record_event
          (record {
            event = Event.revision_created (length prepared) number;
            actor = some creator;
            dashboard = some dashboard_id;
            revision = some revision_id;
            target_user = none;
          })
          (record v.db {
            revisions = revisions;
            dashboards = insert dashboard_id saved v.db.dashboards;
          });
    artifacts = artifacts;
    reservations = erase_reservations prepared v.reservations;
  })

-- `_commit_revision_metadata`
unfoldable pub commit_revision_metadata :
    Unicode → ℕ → ℕ → ℕ → ℕ → List Prepared → Vault → Result Vault
commit_revision_metadata u clock revision_id dashboard_id creator prepared v = do
  d ← or_raise (lookup dashboard_id v.db.dashboards) Error.revision_rejected
  raise_if (not (d.owner == creator)) Error.revision_rejected
  actor ← or_raise (active_user creator v.db.users) Error.revision_rejected
  raise_if (not (is_working d.state)) Error.revision_rejected
  check_all v prepared
  write_revision u clock revision_id dashboard_id creator d prepared v

-- ===== src/Revisions/Create.antt =====
-- `create_complete_revision` of core/services.py.
pub mod Safety
pub mod Filed
pub mod Success
use prj_app.Base.{
  ℕ, ◌+◌, Bool, true, false, not, ◌&&◌, ◌||◌, Option, none, some, List, [], ◌∷◌, ◌++◌, map, Text,
  Table, ◌==◌, if◌then◌else◌, is_none, is_some, opt_eq, text_eq, lookup, insert, erase, any_row,
  Result, ok, err, Error, ◌>>=◌, ◌>>◌, raise_if, or_raise, length, one_of,
}
use prj_app.Model.{Db, User, Dashboard, Revision, Event}
use prj_app.Unicode.{Unicode}
use prj_app.Lifecycle.{save}
use prj_app.Store.{active_user, record_event}
use prj_app.Publication.{is_working}
use prj_app.Names.Logical.{LogicalName, normalize_logical_name}
use prj_app.MediaType.{Kind, authoritative_media_type}
use prj_app.Disk.{
  Receipt, WriteFaults, DeleteFault, Written, stored, committed, collision, failed, write,
  is_digest,
}
use prj_app.Disk.{cleanup_required as residue}
use prj_app.Vault.{Vault, Artifact, Reservation, save_new_artifact}
use prj_app.Reservations.{
  key_attempts, reserve_round, has_artifact, mark_verified, mark_collision, mark_cleanup_required,
  attempt, transaction, CleanupFault, Candidate, cleanup_unowned,
}
use prj_app.Revisions.Payloads.{Payload, Supply, validate_payload_set, zip_items}
use prj_app.Revisions.Rounds.{Prepared, store_payloads}
use prj_app.Revisions.Commit.{commit_revision_metadata}

-- The checks before anything is stored: the normalized names.
unfoldable pub check_creation : Unicode → ℕ → ℕ → List Payload → Vault → Result (List LogicalName)
check_creation u dashboard_id creator payloads v = do
  names ← validate_payload_set u payloads
  d ← or_raise (lookup dashboard_id v.db.dashboards) Error.revision_rejected
  raise_if (not (d.owner == creator)) Error.revision_rejected
  actor ← or_raise (active_user creator v.db.users) Error.revision_rejected
  raise_if (not (is_working d.state)) Error.revision_rejected
  ok names

module _ (u : Unicode) (digest : Text → Text) where
  -- The rest of a creation once the loop has ended: the commit, or the cleanup before the exception
  -- goes on.
  unfoldable pub finish :
      (ℕ → CleanupFault)
      → Bool
      → ℕ
      → ℕ
      → ℕ
      → ℕ
      → List Candidate × Result (List Prepared) × Vault
      → Result (Unit {0}) × Vault
  finish fault commit_fails clock revision_id dashboard_id creator (candidates, err e, v) =
      (err e, cleanup_unowned fault candidates v)
  finish fault commit_fails clock revision_id dashboard_id creator (candidates, ok prepared, v) =
      elim (transaction commit_fails
        (commit_revision_metadata u clock revision_id dashboard_id creator prepared v)) [
          | err e ↦ (err e, cleanup_unowned fault candidates v)
          | ok w ↦ (ok tt, w)
        ]

  -- `create_complete_revision`, given what fails in the cleanup and whether the commit does: the result, and the vault, which an exception does not roll back.
  unfoldable pub create_complete_revision :
      (ℕ → CleanupFault)
      → Bool
      → ℕ
      → ℕ
      → ℕ
      → ℕ
      → List Payload
      → (ℕ → Supply)
      → Vault
      → Result (Unit {0}) × Vault
  create_complete_revision fault commit_fails clock revision_id dashboard_id creator payloads
        supplies v =
      elim (check_creation u dashboard_id creator payloads v) [
        | err e ↦ (err e, v)
        | ok names ↦
            finish fault commit_fails clock revision_id dashboard_id creator
              (store_payloads u digest (zip_items payloads names supplies 0) [] [] v)
      ]

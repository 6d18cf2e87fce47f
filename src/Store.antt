-- ===== src/Store.antt =====
-- The queries that several services make, the audit log, and `ViewerGrant.save` of
-- core/models.py. A service is a function from the tables to a result with the new tables: it runs
-- in one durable transaction, which an exception rolls back. Transactions are serial, as the row
-- locks make them, so a lost race for a unique index is not modelled.
use prj_app.Base.{
  ℕ, Bool, not, ◌&&◌, ◌||◌, Option, none, some, ◌∷◌, Table, ◌==◌, if◌then◌else◌, is_none, is_some,
  opt_eq, lookup, insert, find_row, any_row, Result, ok, Error, ◌>>=◌, ◌>>◌, raise_if, or_raise,
}
use prj_app.Model.{Db, User, Dashboard, ViewerGrant, AuditEvent, Event, is_deleted}

-- `filter(id=…, is_active=True)`
unfoldable pub active_user : ℕ → Table User → Option User
active_user id users = elim (lookup id users) [
  | none ↦ none
  | some u ↦ if u.is_active then some u else none
]

-- An unrevoked grant of this dashboard to this viewer.
abbrev pub is_active_for : ℕ → ℕ → ViewerGrant → Bool
is_active_for dashboard viewer g =
    g.dashboard == dashboard && (g.viewer == viewer && is_none g.revoked_at)

-- `active_viewer_grant` of core/access.py and `_active_grant` of core/enhancements.py
unfoldable pub active_grant : ℕ → ℕ → Table ViewerGrant → Option (ℕ × ViewerGrant)
active_grant dashboard viewer grants = find_row (is_active_for dashboard viewer) grants

-- `has_active_viewer_grant`
unfoldable pub has_active_grant : ℕ → ℕ → Table ViewerGrant → Bool
has_active_grant dashboard viewer grants = any_row (is_active_for dashboard viewer) grants

-- `_lock_active_owner` of core/access.py
unfoldable pub lock_active_owner : ℕ → ℕ → Db → Result (Dashboard × User)
lock_active_owner dashboard_id actor_id db = do
  dashboard ← or_raise (lookup dashboard_id db.dashboards) Error.project_denied
  raise_if (is_deleted dashboard.state) Error.project_denied
  actor ← or_raise (active_user actor_id db.users) Error.project_denied
  raise_if (not (dashboard.owner == actor_id)) Error.project_denied
  ok (dashboard, actor)

-- `_lock_current_owner` of core/enhancements.py
unfoldable pub lock_current_owner : ℕ → ℕ → Db → Result (Dashboard × User)
lock_current_owner dashboard_id actor_id db = do
  dashboard ← or_raise (lookup dashboard_id db.dashboards) Error.access_denied
  actor ← or_raise (active_user actor_id db.users) Error.access_denied
  raise_if (not (dashboard.owner == actor_id)) Error.access_denied
  ok (dashboard, actor)

-- `AuditEvent.objects.create`
unfoldable pub record_event : AuditEvent → Db → Db
record_event e db = record db { audit = e ∷ db.audit }

-- `_record_grant_audit` and `_audit_grant`
unfoldable pub grant_event : Event → ℕ → ℕ → ViewerGrant → AuditEvent
grant_event event actor dashboard g = record {
  event = event;
  actor = some actor;
  dashboard = some dashboard;
  revision = none;
  target_user = some g.viewer;
}

-- `ViewerGrant.save` of a new row of a dashboard.
unfoldable pub save_new_grant : Dashboard → ViewerGrant → Result ViewerGrant
save_new_grant dashboard g = do
  raise_if (g.viewer == dashboard.owner) Error.validation_failed
  raise_if (not (g.created_by == dashboard.owner)) Error.validation_failed
  raise_if (is_none g.revoked_at && is_some g.revoked_by) Error.validation_failed
  raise_if (is_some g.revoked_at && is_none g.revoked_by) Error.validation_failed
  raise_if (is_some g.revoked_by && not (opt_eq g.revoked_by (some dashboard.owner)))
      Error.validation_failed
  raise_if (g.viewer == g.created_by) Error.validation_failed
  ok g

-- `ViewerGrant.save` over a stored row.
unfoldable pub save_grant : Dashboard → ViewerGrant → ViewerGrant → Result ViewerGrant
save_grant dashboard original g = do
  raise_if
      (not (original.dashboard == g.dashboard)
        || (not (original.viewer == g.viewer) || not (original.created_by == g.created_by)))
      Error.immutable_record
  raise_if
      (is_some original.revoked_at
        && (not (opt_eq original.revoked_at g.revoked_at)
            || not (opt_eq original.revoked_by g.revoked_by)))
      Error.immutable_record
  raise_if (is_none g.revoked_at && is_some g.revoked_by) Error.validation_failed
  raise_if (is_some g.revoked_at && is_none g.revoked_by) Error.validation_failed
  raise_if
      (is_some g.revoked_by
        && (is_none original.revoked_at && not (opt_eq g.revoked_by (some dashboard.owner))))
      Error.validation_failed
  raise_if (g.viewer == g.created_by) Error.validation_failed
  ok g

-- `ViewerGrant.objects.create` with its audit event, as both services that grant do it.
unfoldable pub open_grant : ℕ → ℕ → Dashboard → ℕ → ℕ → Db → Result Db
open_grant new_id dashboard_id dashboard viewer actor db = do
  g ← save_new_grant dashboard (record {
    dashboard = dashboard_id;
    viewer = viewer;
    created_by = actor;
    revoked_at = none;
    revoked_by = none;
  })
  ok (
      record_event (grant_event (Event.grant_created new_id) actor dashboard_id g)
        (record db { grants = insert new_id g db.grants }))

-- Revokes a stored grant at a time, with its audit event.
unfoldable pub close_grant : ℕ → ℕ → ℕ → Dashboard → ViewerGrant → ℕ → Db → Result Db
close_grant now grant_id dashboard_id dashboard grant actor db = do
  g ← save_grant dashboard grant (record grant { revoked_at = some now; revoked_by = some actor })
  ok (
      record_event (grant_event (Event.grant_revoked grant_id) actor dashboard_id g)
        (record db { grants = insert grant_id g db.grants }))

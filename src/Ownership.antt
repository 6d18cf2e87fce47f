-- ===== src/Ownership.antt =====
-- `transfer_dashboard_ownership` of core/enhancements.py, and `DashboardOwnershipTransfer.save` of
-- core/models.py.
pub mod Effect
pub mod Whole
pub mod Epochs
use prj_app.Base.{
  ℕ, Bool, true, false, not, ◌||◌, ◌&&◌, Option, none, some, Table, ◌==◌, if◌then◌else◌, opt_eq,
  lookup, insert, find_row, Result, ok, Error, ◌>>=◌, ◌>>◌, raise_if, or_raise,
}
use prj_app.Model.{
  Db, User, Dashboard, OwnershipTransfer, AccessRequest, ViewerGrant, Status, Event, is_pending,
}
use prj_app.Store.{active_user, active_grant, close_grant, record_event}
use prj_app.RequestRow.{is_active, save_request}
use prj_app.Requests.{after_request, request_event, resolved_request}
use prj_app.Publication.{is_working}

-- `DashboardOwnershipTransfer.save` of a new row of a dashboard.
unfoldable pub save_new_transfer :
    Table User → Dashboard → OwnershipTransfer → Result OwnershipTransfer
save_new_transfer users d t = do
  raise_if (not (t.from_owner == d.owner)) Error.validation_failed
  raise_if (t.to_owner == t.from_owner) Error.validation_failed
  raise_if (not (is_active t.to_owner users)) Error.validation_failed
  raise_if (not (opt_eq t.previous_transfer d.last_ownership_transfer)) Error.validation_failed
  ok t

-- `expected_transfer_id`: `UNSET`, or the ownership epoch that a confirmation was bound to.
pub data Expected : Type 0 where
  unset : Expected
  epoch : Option ℕ → Expected

unfoldable pub is_expected : Expected → Dashboard → Bool
is_expected Expected.unset d = true
is_expected (Expected.epoch e) d = opt_eq d.last_ownership_transfer e

-- The incoming owner's active grant is revoked.
unfoldable pub close_incoming : ℕ → ℕ → Dashboard → ℕ → ℕ → Db → Result Db
close_incoming now dashboard_id d incoming actor_id db =
    elim (active_grant dashboard_id incoming db.grants) [
      | none ↦ ok db
      | some (grant_id, grant) ↦ close_grant now grant_id dashboard_id d grant actor_id db
    ]

-- A pending request of this requester for this dashboard.
abbrev pub is_pending_of : ℕ → ℕ → AccessRequest → Bool
is_pending_of dashboard requester r =
    r.dashboard == dashboard && (r.requester == requester && is_pending r.status)

-- The incoming owner's pending request is approved.
unfoldable pub approve_incoming : ℕ → ℕ → Dashboard → ℕ → ℕ → Db → Result Db
approve_incoming now dashboard_id d incoming actor_id db =
    elim (find_row (is_pending_of dashboard_id incoming) db.requests) [
      | none ↦ ok db
      | some (request_id, r) ↦ do
        saved ← save_request db.users d r (resolved_request Status.approved now actor_id r)
        ok (
            after_request request_id saved
              (request_event (Event.access_resolved request_id Status.approved) actor_id
                dashboard_id incoming)
              db)
    ]

abbrev pub handed_over : ℕ → ℕ → Dashboard → Dashboard
handed_over new_id incoming d = record d { owner = incoming; last_ownership_transfer = some new_id }

-- The conditional `update` of the dashboard row, which runs no `save`.
unfoldable pub update_owner : ℕ → ℕ → Dashboard → ℕ → ℕ → Db → Result Db
update_owner new_id dashboard_id d incoming actor_id db = do
  row ← or_raise (lookup dashboard_id db.dashboards) Error.access_denied
  raise_if
      (not (row.owner == actor_id)
        || not (opt_eq row.last_ownership_transfer d.last_ownership_transfer))
      Error.access_denied
  ok (record db {
    dashboards = insert dashboard_id (handed_over new_id incoming row) db.dashboards;
  })

abbrev pub new_transfer : ℕ → ℕ → ℕ → Dashboard → OwnershipTransfer
new_transfer dashboard_id actor_id incoming d = record {
  dashboard = dashboard_id;
  from_owner = actor_id;
  to_owner = incoming;
  previous_transfer = d.last_ownership_transfer;
}

-- The writes of a transfer; `new_id` is the identifier that the new marker draws.
unfoldable pub hand_over : ℕ → ℕ → ℕ → Dashboard → ℕ → ℕ → Db → Result Db
hand_over new_id now dashboard_id d incoming actor_id db = do
  closed ← close_incoming now dashboard_id d incoming actor_id db
  approved ← approve_incoming now dashboard_id d incoming actor_id closed
  marker ← save_new_transfer db.users d (new_transfer dashboard_id actor_id incoming d)
  updated ←
      update_owner new_id dashboard_id d incoming actor_id
        (record approved { transfers = insert new_id marker approved.transfers })
  ok (
      record_event
        (request_event (Event.ownership_transferred new_id) actor_id dashboard_id incoming) updated)

-- `transfer_dashboard_ownership`
unfoldable pub transfer_dashboard_ownership : ℕ → ℕ → ℕ → ℕ → ℕ → Expected → Db → Result Db
transfer_dashboard_ownership new_id now dashboard_id actor_id incoming expected db = do
  d ← or_raise (lookup dashboard_id db.dashboards) Error.access_denied
  raise_if (not (is_working d.state)) Error.access_denied
  raise_if (not (is_expected expected d)) Error.access_denied
  raise_if
      (not (is_active actor_id db.users)
        || (not (is_active incoming db.users)
            || (not (actor_id == d.owner) || incoming == actor_id)))
      Error.access_denied
  hand_over new_id now dashboard_id d incoming actor_id db

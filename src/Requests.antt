-- ===== src/Requests.antt =====
-- The services of core/enhancements.py that ask for access and resolve a request.
pub mod Invariant
pub mod Asking
pub mod Resolving
use prj_app.Base.{
  ℕ, ◌+◌, Bool, true, false, not, ◌&&◌, ◌||◌, Option, none, some, Text, Table, ltb, leb, ◌==◌,
  if◌then◌else◌, is_none, is_some, opt_eq, text_eq, lookup, insert, find_row, Result, ok, Error,
  ◌>>=◌, ◌>>◌, raise_if, or_raise,
}
use prj_app.Model.{
  Db, User, Dashboard, AccessRequest, Status, Event, AuditEvent, State, is_published, is_pending,
  same_status,
}
use prj_app.RequestRow.{is_active, is_approvable, save_new_request, save_request}
use prj_app.Unicode.{Unicode}
use prj_app.ShortText.{normalize_access_request_message}
use prj_app.Store.{active_user, has_active_grant, open_grant, record_event}

-- `filter(dashboard_id=…, requester_id=…)`
abbrev pub is_request_of : ℕ → ℕ → AccessRequest → Bool
is_request_of dashboard requester r = r.dashboard == dashboard && r.requester == requester

abbrev pub request_event : Event → ℕ → ℕ → ℕ → AuditEvent
request_event event actor dashboard target = record {
  event = event;
  actor = some actor;
  dashboard = some dashboard;
  revision = none;
  target_user = some target;
}

-- Writes a request row, with its audit event.
unfoldable pub after_request : ℕ → AccessRequest → AuditEvent → Db → Db
after_request id r event db = record_event event (record db { requests = insert id r db.requests })

-- `max(requested_at, access_request.requested_at + timedelta(microseconds=1))`
unfoldable pub reopened_at : ℕ → ℕ → ℕ
reopened_at now previous = if ltb now (previous + 1) then previous + 1 else now

abbrev pub new_request : ℕ → ℕ → Text → ℕ → AccessRequest
new_request dashboard requester message now = record {
  dashboard = dashboard;
  requester = requester;
  status = Status.pending;
  message = message;
  requested_at = now;
  resolved_at = none;
  resolved_by = none;
}

abbrev pub reopened_request : Text → ℕ → AccessRequest → AccessRequest
reopened_request message now r = record r {
  status = Status.pending;
  message = message;
  requested_at = reopened_at now r.requested_at;
  resolved_at = none;
  resolved_by = none;
}

-- The part of `request_dashboard_access` behind the authorization checks.
unfoldable pub store_request : ℕ → ℕ → ℕ → ℕ → Text → Dashboard → Db → Result Db
store_request new_id now dashboard_id requester_id message d db =
    elim (find_row (is_request_of dashboard_id requester_id) db.requests) [
      | none ↦ do
        r ← save_new_request db.users d (new_request dashboard_id requester_id message now)
        ok (
            after_request new_id r
              (request_event (Event.access_requested new_id false) requester_id dashboard_id
                requester_id)
              db)
      | some (id, old) ↦ if is_pending old.status then ok db else do
        r ← save_request db.users d old (reopened_request message now old)
        ok (
            after_request id r
              (request_event (Event.access_requested id true) requester_id dashboard_id
                requester_id)
              db)
    ]

-- `request_dashboard_access`; `new_id` is the identifier that a new row draws.
unfoldable pub request_dashboard_access : Unicode → ℕ → ℕ → ℕ → ℕ → Text → Db → Result Db
request_dashboard_access u new_id now dashboard_id requester_id message db = do
  normalized ← normalize_access_request_message u message
  d ← or_raise (lookup dashboard_id db.dashboards) Error.access_denied
  raise_if (not (is_published d.state) || not (is_active d.owner db.users)) Error.access_denied
  requester ← or_raise (active_user requester_id db.users) Error.access_denied
  raise_if (d.owner == requester_id) Error.access_denied
  raise_if (has_active_grant dashboard_id requester_id db.grants) Error.access_denied
  store_request new_id now dashboard_id requester_id normalized d db

-- `filter(id=request_id, dashboard_id=…)`
unfoldable pub request_of : ℕ → ℕ → Table AccessRequest → Option AccessRequest
request_of dashboard_id request_id requests = elim (lookup request_id requests) [
  | none ↦ none
  | some r ↦ if r.dashboard == dashboard_id then some r else none
]

-- The grant that an approval opens, where none is active.
unfoldable pub approve_grant : ℕ → ℕ → Dashboard → ℕ → ℕ → Db → Result Db
approve_grant new_grant_id dashboard_id d requester actor_id db = do
  raise_if
      (not (is_approvable d.state)
        || (not (is_active d.owner db.users) || not (is_active requester db.users)))
      Error.access_denied
  if has_active_grant dashboard_id requester db.grants
      then ok db
      else open_grant new_grant_id dashboard_id d requester actor_id db

abbrev pub resolved_request : Status → ℕ → ℕ → AccessRequest → AccessRequest
resolved_request resolution now actor r = record r {
  status = resolution;
  resolved_at = some now;
  resolved_by = some actor;
}

-- The part of `resolve_dashboard_access_request` for a pending request.
unfoldable pub store_resolution :
    ℕ → ℕ → ℕ → ℕ → ℕ → Status → Dashboard → AccessRequest → Db → Result Db
store_resolution new_grant_id now dashboard_id request_id actor_id resolution d r db = do
  granted ←
      (if same_status resolution Status.approved
        then approve_grant new_grant_id dashboard_id d r.requester actor_id db
        else ok db)
  saved ← save_request db.users d r (resolved_request resolution now actor_id r)
  ok (
      after_request request_id saved
        (request_event (Event.access_resolved request_id resolution) actor_id dashboard_id
          r.requester)
        granted)

-- `resolve_dashboard_access_request`; `none` is a text that is no status.
unfoldable pub resolve_dashboard_access_request : ℕ → ℕ → ℕ → ℕ → ℕ → Option Status → Db → Result Db
resolve_dashboard_access_request new_grant_id now dashboard_id request_id actor_id status db = do
  resolution ← or_raise status Error.invalid_input
  raise_if (is_pending resolution) Error.invalid_input
  d ← or_raise (lookup dashboard_id db.dashboards) Error.access_denied
  r ← or_raise (request_of dashboard_id request_id db.requests) Error.access_denied
  actor ← or_raise (active_user actor_id db.users) Error.access_denied
  raise_if
      (not (actor_id == (if same_status resolution Status.cancelled then r.requester else d.owner)))
      Error.access_denied
  if is_pending r.status
      then store_resolution new_grant_id now dashboard_id request_id actor_id resolution d r db
      else if same_status r.status resolution
      then ok db
      else (Result.err Error.access_denied)

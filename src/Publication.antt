-- ===== src/Publication.antt =====
-- The publication services of core/enhancements.py, and `create_project` and `rename_project` of
-- core/projects.py.
pub mod Accepts
pub mod Outcome
pub mod Succeeds
pub mod Requires
pub mod Releases
use prj_app.Base.{
  ℕ, ◌+◌, ◌/◌, ◌%◌, Bool, true, false, not, ◌&&◌, ◌||◌, Option, none, some, Text, Table, ltb, leb,
  ◌==◌, if◌then◌else◌, is_none, is_some, text_eq, lookup, insert, Result, ok, err, Error, ◌>>=◌,
  ◌>>◌, raise_if, or_raise, length, strip, [],
}
use prj_app.Model.{
  Db, User, Dashboard, Revision, State, Event, AuditEvent, seconds, is_published, is_archived,
  is_deleted,
}
use prj_app.Unicode.{Unicode}
use prj_app.ShortText.{normalize_short_text, max_publication_note}
use prj_app.Lifecycle.{max_interval, save, save_new}
use prj_app.Store.{lock_current_owner, active_user, record_event}

-- A `timedelta` in microseconds; `negsuc n` is -(n + 1).
pub data Timedelta : Type 0 where
  pos negsuc : ℕ → Timedelta

-- `_freshness_seconds`. Up to a year the float of `total_seconds` is whole exactly where the
-- microseconds are.
unfoldable pub freshness_seconds : Option Timedelta → Result (Option ℕ)
freshness_seconds none = ok none
freshness_seconds (some (Timedelta.negsuc n)) = err Error.invalid_input
freshness_seconds (some (Timedelta.pos us)) =
    if us % 1000000 == 0 && (leb 1 (us / 1000000) && leb (us / 1000000) max_interval)
    then ok (some (us / 1000000))
    else err Error.invalid_input

-- `_apply_freshness`
unfoldable pub apply_freshness : Option ℕ → ℕ → Dashboard → Dashboard
apply_freshness none confirmed_at d = record d {
  freshness_interval_seconds = none;
  freshness_confirmed_at = none;
  stale_after = none;
}
apply_freshness (some interval) confirmed_at d = record d {
  freshness_interval_seconds = some interval;
  freshness_confirmed_at = some confirmed_at;
  stale_after = some (confirmed_at + seconds interval);
}

-- The states that accept revisions, publications and ownership transfers.
abbrev pub is_working : State → Bool
is_working State.draft = true
is_working State.published = true
is_working State.unpublished = true
is_working _ = false

-- `filter(id=…, dashboard_id=…, artifacts_locked=True)`
unfoldable pub complete_revision : ℕ → ℕ → Table Revision → Option Revision
complete_revision id dashboard_id revisions = elim (lookup id revisions) [
  | none ↦ none
  | some r ↦ if r.dashboard == dashboard_id && r.artifacts_locked then some r else none
]

-- The tables after a dashboard was written, with the audit event of the owner's action.
unfoldable pub after_save : ℕ → ℕ → Event → Option ℕ → Dashboard → Db → Db
after_save id actor event revision saved db =
    record_event
      (record {
        event = event;
        actor = some actor;
        dashboard = some id;
        revision = revision;
        target_user = none;
      })
      (record db { dashboards = insert id saved db.dashboards })

-- `dashboard.save(…)` and that event.
unfoldable pub store_dashboard :
    ℕ → ℕ → ℕ → Dashboard → Dashboard → Event → Option ℕ → Db → Result Db
store_dashboard now id actor original d event revision db = do
  saved ← save now db.revisions id original d
  ok (after_save id actor event revision saved db)

-- The row that a publication writes.
unfoldable pub published_row : ℕ → ℕ → Text → Option ℕ → Option ℕ → Dashboard → Dashboard
published_row published_at revision_id note data_as_of interval d =
    apply_freshness interval published_at (record d {
      state = State.published;
      published_revision = some revision_id;
      first_published_at =
          if is_none d.first_published_at then some published_at else d.first_published_at;
      publication_version = d.publication_version + 1;
      last_published_at = some published_at;
      publication_note = note;
      data_as_of = data_as_of;
    })

-- `dashboard.last_published_at is not None and published_at < dashboard.last_published_at`
unfoldable pub is_backward : ℕ → Option ℕ → Bool
is_backward published_at none = false
is_backward published_at (some last) = ltb published_at last

-- `publish_dashboard_revision` and `rollback_dashboard_by_republish`. `clock` is the time that
-- `Dashboard.save` reads.
unfoldable pub publish_dashboard_revision :
    Unicode → ℕ → ℕ → ℕ → ℕ → ℕ → Text → Option ℕ → Option Timedelta → Db → Result Db
publish_dashboard_revision u clock published_at dashboard_id actor_id revision_id publication_note
      data_as_of freshness_interval db =
    do
      note ← normalize_short_text u max_publication_note publication_note
      interval ← freshness_seconds freshness_interval
      (dashboard, actor) ← lock_current_owner dashboard_id actor_id db
      raise_if (not (is_working dashboard.state)) Error.access_denied
      revision ←
          or_raise (complete_revision revision_id dashboard_id db.revisions) Error.access_denied
      raise_if (is_backward published_at dashboard.last_published_at) Error.invalid_input
      store_dashboard clock dashboard_id actor_id dashboard
          (published_row published_at revision_id note data_as_of interval dashboard)
          (Event.dashboard_published (dashboard.publication_version + 1)
            (is_some dashboard.first_published_at))
          (some revision_id) db

-- `unpublish_dashboard`
unfoldable pub unpublish_dashboard : ℕ → ℕ → ℕ → Db → Result Db
unpublish_dashboard clock dashboard_id actor_id db = do
  (dashboard, actor) ← lock_current_owner dashboard_id actor_id db
  raise_if (not (is_published dashboard.state) || is_none dashboard.published_revision)
      Error.access_denied
  store_dashboard clock dashboard_id actor_id dashboard
      (record dashboard { state = State.unpublished; published_revision = none })
      (Event.dashboard_unpublished dashboard.publication_version) dashboard.published_revision db

-- `data_as_of` of a confirmation: `UNSET`, or a new value.
pub data Update : Type 0 where
  unset : Update
  set : Option ℕ → Update

abbrev pub updated : Update → Option ℕ → Option ℕ
updated Update.unset old = old
updated (Update.set new) old = new

-- `confirm_dashboard_freshness`
unfoldable pub confirm_dashboard_freshness :
    ℕ → ℕ → ℕ → ℕ → Option Timedelta → Update → Db → Result Db
confirm_dashboard_freshness clock confirmed_at dashboard_id actor_id freshness_interval data_as_of
      db =
    do
      interval ← freshness_seconds freshness_interval
      (dashboard, actor) ← lock_current_owner dashboard_id actor_id db
      raise_if (not (is_published dashboard.state)) Error.access_denied
      store_dashboard clock dashboard_id actor_id dashboard
          (apply_freshness interval confirmed_at
            (record dashboard { data_as_of = updated data_as_of dashboard.data_as_of }))
          (Event.freshness_confirmed (is_some interval)) none db

-- `create_project`; `new_id` is the identifier that the new row draws.
unfoldable pub create_project : Unicode → ℕ → ℕ → Text → Text → Db → Result Db
create_project u new_id owner_id name description db = do
  owner ← or_raise (active_user owner_id db.users) Error.project_denied
  project ← save_new db.revisions new_id (record {
    owner = owner_id;
    name = strip u.is_space name;
    description = strip u.is_space description;
    state = State.draft;
    latest_revision = none;
    published_revision = none;
    first_published_at = none;
    publication_version = 0;
    last_published_at = none;
    publication_note = [];
    data_as_of = none;
    freshness_interval_seconds = none;
    freshness_confirmed_at = none;
    stale_after = none;
    last_ownership_transfer = none;
  })
  ok (after_save new_id owner_id Event.dashboard_created none project db)

-- `rename_project`
unfoldable pub rename_project : Unicode → ℕ → ℕ → ℕ → Text → Db → Result Db
rename_project u clock project_id owner_id name db = do
  let normalized = strip u.is_space name
  raise_if (length normalized == 0 || ltb 200 (length normalized)) Error.invalid_input
  project ← or_raise (lookup project_id db.dashboards) Error.project_denied
  raise_if (not (project.owner == owner_id)) Error.project_denied
  owner ← or_raise (active_user owner_id db.users) Error.project_denied
  raise_if (is_archived project.state || is_deleted project.state) Error.project_denied
  if text_eq project.name normalized
      then ok db
      else store_dashboard clock project_id owner_id project (record project { name = normalized })
          Event.dashboard_renamed none db

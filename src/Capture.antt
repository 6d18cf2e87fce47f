-- ===== src/Capture.antt =====
-- `capture_authorized_open` of core/analytics.py: one open for each published-view authorization,
-- and the viewer's state for the dashboard.
pub mod Once
use prj_app.Base.{
  ℕ, Bool, true, false, not, ◌&&◌, ◌||◌, Option, none, some, Table, ltb, ◌==◌, if◌then◌else◌,
  is_none, is_some, opt_eq, lookup, insert, find_row, any_row, Result, ok, Error, ◌>>=◌, ◌>>◌,
  raise_if, or_raise,
}
use prj_app.Model.{
  Db, User, Dashboard, ViewerGrant, RenderAuthorization, AuthorizedOpen, ViewerState, is_viewer,
  is_published,
}

-- The grant of an authorization, followed from its row.
unfoldable pub grant_row : Table ViewerGrant → Option ℕ → Option ViewerGrant
grant_row grants none = none
grant_row grants (some id) = lookup id grants

abbrev pub positive : Option ℕ → Bool
positive none = false
positive (some v) = ltb 0 v

-- `_authorization_can_source_open`
unfoldable pub can_source_open : Table ViewerGrant → Dashboard → User → RenderAuthorization → Bool
can_source_open grants d viewer r =
    if not (is_viewer r.audience)
      || (not (positive r.publication_version)
          || (is_some r.revoked_at
              || (not viewer.is_active
                  || (not (viewer.auth_version == r.viewer_auth_version)
                      || (not (is_published d.state)
                          || (not (opt_eq d.published_revision (some r.revision))
                              || not
                                  (opt_eq (some d.publication_version) r.publication_version)))))))
    then false
    else if d.owner == r.viewer
    then is_none r.viewer_grant && opt_eq r.owner_transfer_epoch d.last_ownership_transfer
    else elim (grant_row grants r.viewer_grant) [
      | none ↦ false
      | some g ↦
          is_none r.owner_transfer_epoch
          && (g.dashboard == r.dashboard && (g.viewer == r.viewer && is_none g.revoked_at))
    ]

abbrev pub max : ℕ → ℕ → ℕ
max a b = if ltb a b then b else a

abbrev pub is_state_of : ℕ → ℕ → ViewerState → Bool
is_state_of user dashboard s = s.user == user && s.dashboard == dashboard

-- `_advance_viewer_state`; `new_id` is the identifier that a new row draws.
unfoldable pub advance_viewer_state :
    ℕ → RenderAuthorization → ℕ → Table ViewerState → Table ViewerState
advance_viewer_state new_id r version states =
    elim (find_row (is_state_of r.viewer r.dashboard) states) [
      | none ↦
          insert new_id
            (record {
              user = r.viewer;
              dashboard = r.dashboard;
              last_viewed_at = r.created_at;
              seen_publication_version = version;
            })
            states
      | some (id, s) ↦
          insert id
            (record s {
              last_viewed_at = max s.last_viewed_at r.created_at;
              seen_publication_version = max s.seen_publication_version version;
            })
            states
    ]

-- The row of the open that an authorization sources.
abbrev pub open_of : ℕ → RenderAuthorization → ℕ → AuthorizedOpen
open_of id r version = record {
  source_authorization = id;
  dashboard = r.dashboard;
  viewer = r.viewer;
  revision = r.revision;
  publication_version = version;
  opened_at = r.created_at;
  aggregated_at = none;
}

-- The writes of a capture, for an authorization with this version.
unfoldable pub store_open : ℕ → ℕ → ℕ → RenderAuthorization → ℕ → Db → Bool × Db
store_open open_id state_id id r version db =
    if any_row (λ o. o.source_authorization == id) db.opens then (false, db) else (
      true,
      record db {
        opens = insert open_id (open_of id r version) db.opens;
        renders =
            insert id (record r { authorized_open_captured_at = some r.created_at }) db.renders;
        viewer_states = advance_viewer_state state_id r version db.viewer_states;
      },
    )

-- `capture_authorized_open`: whether an open was captured, and the tables.
unfoldable pub capture_authorized_open : ℕ → ℕ → ℕ → Db → Result (Bool × Db)
capture_authorized_open open_id state_id id db = do
  r ← or_raise (lookup id db.renders) Error.access_denied
  if is_some r.authorized_open_captured_at then ok (false, db) else do
    d ← or_raise (lookup r.dashboard db.dashboards) Error.access_denied
    viewer ← or_raise (lookup r.viewer db.users) Error.access_denied
    raise_if (not (can_source_open db.grants d viewer r)) Error.access_denied
    version ← or_raise r.publication_version Error.access_denied
    ok (store_open open_id state_id id r version db)

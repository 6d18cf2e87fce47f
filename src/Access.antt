-- ===== src/Access.antt =====
-- core/access.py: viewer grants, and who may view a published dashboard.
pub mod Grants
pub mod Viewing
use prj_app.Base.{
  ℕ, Bool, true, false, not, ◌&&◌, ◌||◌, Option, none, some, Text, Table, ◌==◌, if◌then◌else◌,
  is_none, is_some, text_eq, lookup, find_row, Result, ok, err, Error, ◌>>=◌, ◌>>◌, raise_if,
  or_raise,
}
use prj_app.Model.{Db, User, Dashboard, ViewerGrant, is_published, is_archived}
use prj_app.Names.{canonicalize_soeid}
use prj_app.Store.{active_grant, has_active_grant, lock_active_owner, open_grant, close_grant}

-- `filter(soeid=…)`
unfoldable pub user_by_soeid : Text → Table User → Option (ℕ × User)
user_by_soeid soeid users = find_row (λ u. text_eq u.soeid soeid) users

-- `grant_project_viewer`; `new_id` is the identifier that the new row draws.
unfoldable pub grant_project_viewer : ℕ → ℕ → ℕ → Text → Db → Result Db
grant_project_viewer new_id dashboard_id actor_id target_soeid db = do
  canonical ← canonicalize_soeid target_soeid
  (dashboard, actor) ← lock_active_owner dashboard_id actor_id db
  raise_if (is_archived dashboard.state) Error.project_denied
  (target_id, target) ← or_raise (user_by_soeid canonical db.users) Error.unknown_user
  raise_if (not target.is_active) Error.disabled_user
  raise_if (target_id == actor_id) Error.self_grant
  raise_if (has_active_grant dashboard_id target_id db.grants) Error.already_granted
  open_grant new_id dashboard_id dashboard target_id actor_id db

-- `filter(id=grant_id, dashboard_id=…)`
unfoldable pub grant_of : ℕ → ℕ → Table ViewerGrant → Option ViewerGrant
grant_of dashboard_id grant_id grants = elim (lookup grant_id grants) [
  | none ↦ none
  | some g ↦ if g.dashboard == dashboard_id then some g else none
]

-- `revoke_project_viewer`
unfoldable pub revoke_project_viewer : ℕ → ℕ → ℕ → ℕ → Db → Result Db
revoke_project_viewer now dashboard_id grant_id actor_id db = do
  (dashboard, actor) ← lock_active_owner dashboard_id actor_id db
  grant ← or_raise (grant_of dashboard_id grant_id db.grants) Error.project_denied
  if is_some grant.revoked_at
      then ok db
      else close_grant now grant_id dashboard_id dashboard grant actor_id db

-- `user_can_view_published`
unfoldable pub user_can_view_published :
    ℕ → Dashboard → ℕ → User → Option ViewerGrant → Table ViewerGrant → Bool
user_can_view_published dashboard_id dashboard viewer_id viewer grant grants =
    if not viewer.is_active
    then false
    else if not (is_published dashboard.state) || is_none dashboard.published_revision
    then false
    else if dashboard.owner == viewer_id
    then true
    else elim grant [
      | none ↦ has_active_grant dashboard_id viewer_id grants
      | some g ↦ g.dashboard == dashboard_id && (g.viewer == viewer_id && is_none g.revoked_at)
    ]

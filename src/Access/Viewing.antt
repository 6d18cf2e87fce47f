-- ===== src/Access/Viewing.antt =====
-- What granting and revoking do to the right to view.
use prj_app.Base.{
  ℕ, ◌≡◌, ◌≢◌, ◌&&◌, is_some, true, false, none, some, Text, lookup, insert, ok, arith,
  lookup-insert, any_row-false, any_row_complete, insert-Distinct, Distinct, Table,
}
use prj_app.Model.{Db, Event, User, Dashboard, ViewerGrant, is_archived, is_deleted, is_published}
use prj_app.Names.{canonicalize_soeid}
use prj_app.Store.{
  active_user, is_active_for, has_active_grant, lock_active_owner, record_event, save_new_grant,
  save_grant, open_grant, close_grant, grant_event,
}
use prj_app.Access.{
  grant_project_viewer, revoke_project_viewer, grant_of, user_by_soeid, user_can_view_published,
}
use prj_app.Access.Grants.{
  UniqueActive, GrantsValid, open_grant-GrantsValid, close_grant-GrantsValid,
}

-- Granting keeps the viewer grants valid: one active grant for a viewer and a dashboard, none for
-- its owner, and none that the viewer created.
pub grant_project_viewer-GrantsValid :
    (new_id dashboard_id actor_id : ℕ) (target_soeid : Text) (db db' : Db)
    → GrantsValid db
    → grant_project_viewer new_id dashboard_id actor_id target_soeid db ≡ ok db'
    → GrantsValid db'
unfolding grant_project_viewer lock_active_owner
grant_project_viewer-GrantsValid new_id dashboard_id actor_id target_soeid db db' v h =
    grind (arith, open_grant-GrantsValid)

-- Revoking keeps the viewer grants valid.
pub revoke_project_viewer-GrantsValid :
    (now dashboard_id grant_id actor_id : ℕ) (db db' : Db)
    → GrantsValid db
    → revoke_project_viewer now dashboard_id grant_id actor_id db ≡ ok db'
    → GrantsValid db'
unfolding revoke_project_viewer lock_active_owner
revoke_project_viewer-GrantsValid now dashboard_id grant_id actor_id db db' v h =
    grind (arith, close_grant-GrantsValid)

pub revoked_no_other :
    (k : ℕ) (g n : ViewerGrant) (t : Table ViewerGrant)
    → Distinct t
    → UniqueActive t
    → lookup k t ≡ some g
    → g.revoked_at ≡ none
    → n.revoked_at ≢ none
    → has_active_grant g.dashboard g.viewer (insert k n t) ≡ false
unfolding has_active_grant
revoked_no_other k g n t d u e a closed =
    any_row-false (is_active_for g.dashboard g.viewer) (insert k n t) (insert-Distinct k n t d)
      λ i h hi. ground (arith, lookup-insert k i n t, u i k h g)

-- Revoking an active grant ends its viewer's right to view, at once; revoking it again
-- changes nothing.
pub revoke_ends_access :
    (now later dashboard_id grant_id actor_id : ℕ) (db db' : Db) (d : Dashboard) (g : ViewerGrant)
    (u : User)
    → GrantsValid db
    → lookup dashboard_id db.dashboards ≡ some d
    → lookup grant_id db.grants ≡ some g
    → g.revoked_at ≡ none
    → revoke_project_viewer now dashboard_id grant_id actor_id db ≡ ok db'
    → (user_can_view_published dashboard_id d g.viewer u none db'.grants ≡ false)
      × (revoke_project_viewer later dashboard_id grant_id actor_id db' ≡ ok db')
unfolding revoke_project_viewer grant_of lock_active_owner close_grant save_grant record_event
    user_can_view_published
revoke_ends_access now later dashboard_id grant_id actor_id db db' d g u v ed eg active h =
    let n : ViewerGrant = record g { revoked_at = some now; revoked_by = some actor_id } in
    let gone = revoked_no_other grant_id g n db.grants v.distinct v.unique eg active (λ x. cc) in
    (
      ground (arith, v.owner_free grant_id g d eg active),
      ground (arith, lookup-insert grant_id grant_id n db.grants),
    )

-- The active owner of a dashboard that is not archived nor deleted can grant access to another user,
-- who is active, has no active grant for it yet and is named by a SOEID that is accepted. The new
-- grant opens the view to that user exactly where the dashboard is published with a release, and no
-- dashboard changes.
pub grant_opens_access :
    (new_id dashboard_id actor_id target_id : ℕ) (target_soeid soeid : Text) (db : Db)
    (d : Dashboard) (actor target : User)
    → canonicalize_soeid target_soeid ≡ ok soeid
    → lookup dashboard_id db.dashboards ≡ some d
    → is_deleted d.state ≡ false
    → is_archived d.state ≡ false
    → active_user actor_id db.users ≡ some actor
    → d.owner ≡ actor_id
    → user_by_soeid soeid db.users ≡ some (target_id, target)
    → target.is_active ≡ true
    → target_id ≢ actor_id
    → has_active_grant dashboard_id target_id db.grants ≡ false
    → (db' : Db) × (grant_project_viewer new_id dashboard_id actor_id target_soeid db ≡ ok db')
      × (has_active_grant dashboard_id target_id db'.grants ≡ true)
      × (user_can_view_published dashboard_id d target_id target none db'.grants
          ≡ (is_published d.state && is_some d.published_revision))
      × (db'.dashboards ≡ db.dashboards)
unfolding grant_project_viewer lock_active_owner open_grant save_new_grant record_event
    has_active_grant user_can_view_published
grant_opens_access new_id dashboard_id actor_id target_id target_soeid soeid db d actor target ec ed
      nd na ea eo et at ne free =
    let n : ViewerGrant = record {
      dashboard = dashboard_id;
      viewer = target_id;
      created_by = actor_id;
      revoked_at = none;
      revoked_by = none;
    } in
    let seen =
      any_row_complete (is_active_for dashboard_id target_id) (insert new_id n db.grants) new_id
        {v = n} in
    (
      record_event (grant_event (Event.grant_created new_id) actor_id dashboard_id n)
          (record db { grants = insert new_id n db.grants }),
      ground arith,
      ground (arith, seen, lookup-insert new_id new_id n db.grants),
      ground (arith, seen, lookup-insert new_id new_id n db.grants),
      ground arith,
    )

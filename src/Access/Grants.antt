-- ===== src/Access/Grants.antt =====
-- The viewer grants under every service that opens or closes one.
use prj_app.Base.{
  ℕ, ◌≡◌, false, none, some, Table, lookup, insert, ok, arith, ◌≢◌, Distinct, insert-Distinct,
  lookup-insert, any_row_none,
}
use prj_app.Model.{Db, Dashboard, ViewerGrant}
use prj_app.Store.{
  is_active_for, has_active_grant, record_event, save_new_grant, save_grant, open_grant,
  close_grant,
}

-- At most one unrevoked grant for each dashboard and viewer.
abbrev pub UniqueActive : Table ViewerGrant → Type 0
UniqueActive t =
    (i j : ℕ) (g h : ViewerGrant)
    → lookup i t ≡ some g
    → lookup j t ≡ some h
    → g.revoked_at ≡ none
    → h.revoked_at ≡ none
    → g.dashboard ≡ h.dashboard
    → g.viewer ≡ h.viewer
    → i ≡ j

-- No owner holds an unrevoked grant of the own dashboard.
abbrev pub OwnerFree : Table Dashboard → Table ViewerGrant → Type 0
OwnerFree dashboards t =
    (i : ℕ) (g : ViewerGrant) (d : Dashboard)
    → lookup i t ≡ some g
    → g.revoked_at ≡ none
    → lookup g.dashboard dashboards ≡ some d
    → g.viewer ≢ d.owner

pub record GrantsValid (db : Db) : Type 0 where
  pub distinct : Distinct db.grants
  pub unique : UniqueActive db.grants
  pub owner_free : OwnerFree db.dashboards db.grants
  pub others : (i : ℕ) (g : ViewerGrant) → lookup i db.grants ≡ some g → g.viewer ≢ g.created_by

insert_new-UniqueActive :
    (k : ℕ) (n : ViewerGrant) (t : Table ViewerGrant)
    → has_active_grant n.dashboard n.viewer t ≡ false
    → UniqueActive t
    → UniqueActive (insert k n t)
unfolding has_active_grant
insert_new-UniqueActive k n t free u i j g h gi hj ag ah sd sv = ground (
  arith,
  lookup-insert k i n t,
  lookup-insert k j n t,
  any_row_none (is_active_for n.dashboard n.viewer) t i {v = g} free,
  any_row_none (is_active_for n.dashboard n.viewer) t j {v = h} free,
  u i j g h,
)

insert_revoked-UniqueActive :
    (k : ℕ) (n : ViewerGrant) (t : Table ViewerGrant)
    → n.revoked_at ≢ none
    → UniqueActive t
    → UniqueActive (insert k n t)
insert_revoked-UniqueActive k n t closed u i j g h gi hj ag ah sd sv =
    ground (arith, lookup-insert k i n t, lookup-insert k j n t, u i j g h)

-- Opening a grant where none is active keeps the grants valid.
pub open_grant-GrantsValid :
    (new_id dashboard_id : ℕ) (dashboard : Dashboard) (viewer actor : ℕ) (db db' : Db)
    → GrantsValid db
    → lookup dashboard_id db.dashboards ≡ some dashboard
    → has_active_grant dashboard_id viewer db.grants ≡ false
    → open_grant new_id dashboard_id dashboard viewer actor db ≡ ok db'
    → GrantsValid db'
unfolding open_grant save_new_grant record_event
open_grant-GrantsValid new_id dashboard_id dashboard viewer actor db db' v e free h =
    let n : ViewerGrant = record {
      dashboard = dashboard_id;
      viewer = viewer;
      created_by = actor;
      revoked_at = none;
      revoked_by = none;
    } in
    record {
      distinct = ground (arith, insert-Distinct new_id n db.grants v.distinct);
      unique = λ i j g k.
          ground (arith, insert_new-UniqueActive new_id n db.grants free v.unique i j g k);
      owner_free =
          λ i g d gi ag di. ground (arith, lookup-insert new_id i n db.grants, v.owner_free i g d);
      others = λ i g gi. ground (arith, lookup-insert new_id i n db.grants, v.others i g);
    }

-- Closing a stored grant keeps the grants valid.
pub close_grant-GrantsValid :
    (now grant_id dashboard_id : ℕ) (dashboard : Dashboard) (grant : ViewerGrant) (actor : ℕ)
    (db db' : Db)
    → GrantsValid db
    → close_grant now grant_id dashboard_id dashboard grant actor db ≡ ok db'
    → GrantsValid db'
unfolding close_grant save_grant record_event
close_grant-GrantsValid now grant_id dashboard_id dashboard grant actor db db' v h =
    let n : ViewerGrant = record grant { revoked_at = some now; revoked_by = some actor } in
    record {
      distinct = ground (arith, insert-Distinct grant_id n db.grants v.distinct);
      unique = λ i j g k.
          ground
            (arith, insert_revoked-UniqueActive grant_id n db.grants (λ x. cc) v.unique i j g k);
      owner_free = λ i g d gi ag di.
          ground (arith, lookup-insert grant_id i n db.grants, v.owner_free i g d);
      others = λ i g gi. ground (arith, lookup-insert grant_id i n db.grants, v.others i g);
    }

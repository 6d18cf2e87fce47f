-- ===== src/Publication/Outcome.antt =====
-- What the publication services do to the stored dashboards.
use prj_app.Base.{
  ℕ, ◌≡◌, Option, some, Text, lookup, insert, ok, arith, lookup-insert, Result-cases, inl, inr,
}
use prj_app.Model.{Db, Dashboard, Event}
use prj_app.Unicode.{Unicode}
use prj_app.Lifecycle.{save, save_new, full_clean}
use prj_app.Lifecycle.Invariant.{save-inversion}
use prj_app.Store.{lock_current_owner, record_event}
use prj_app.Publication.{
  Timedelta, Update, after_save, store_dashboard, publish_dashboard_revision, unpublish_dashboard,
  confirm_dashboard_freshness, create_project, rename_project,
}

-- Every stored dashboard passes its own validation.
abbrev pub DashboardsValid : Db → Type 0
DashboardsValid db =
    (id : ℕ) (d : Dashboard)
    → lookup id db.dashboards ≡ some d
    → full_clean db.revisions id d ≡ ok tt

-- What a successful `store_dashboard` has done.
pub record Stored (now id : ℕ) (original d : Dashboard) (db db' : Db) (row : Dashboard)
    : Type 0 where
  pub written : save now db.revisions id original d ≡ ok row
  pub dashboards : db'.dashboards ≡ insert id row db.dashboards
  pub users : db'.users ≡ db.users
  pub revisions : db'.revisions ≡ db.revisions
  pub grants : db'.grants ≡ db.grants
  pub requests : db'.requests ≡ db.requests
  pub transfers : db'.transfers ≡ db.transfers
  pub renders : db'.renders ≡ db.renders

pub store_dashboard-Stored :
    (now id actor : ℕ) (original d : Dashboard) (event : Event) (revision : Option ℕ) (db db' : Db)
    → store_dashboard now id actor original d event revision db ≡ ok db'
    → (row : Dashboard) × Stored now id original d db db' row
unfolding store_dashboard after_save record_event
store_dashboard-Stored now id actor original d event revision db db' h =
    elim (Result-cases (save now db.revisions id original d)) [
      | inl (row, e) ↦ (
        row,
        record {
          written = e;
          dashboards = ground arith;
          users = ground arith;
          revisions = ground arith;
          grants = ground arith;
          requests = ground arith;
          transfers = ground arith;
          renders = ground arith;
        },
      )
      | inr (x, e) ↦ absurd (ground arith)
    ]

pub Stored-DashboardsValid :
    {now id : ℕ} {original d : Dashboard} {db db' : Db} {row : Dashboard}
    → Stored now id original d db db' row
    → DashboardsValid db
    → DashboardsValid db'
Stored-DashboardsValid {now} {id} {original} {d} {db} {db'} {row} s v j e k =
    let clean = (save-inversion now db.revisions id original d row s.written).2 in
    ground (arith, s.dashboards, s.revisions, lookup-insert id j row db.dashboards, v j e)

pub store_dashboard-DashboardsValid :
    (now id actor : ℕ) (original d : Dashboard) (event : Event) (revision : Option ℕ) (db db' : Db)
    → DashboardsValid db
    → store_dashboard now id actor original d event revision db ≡ ok db'
    → DashboardsValid db'
store_dashboard-DashboardsValid now id actor original d event revision db db' v h =
    let (row, s) = store_dashboard-Stored now id actor original d event revision db db' h in
    Stored-DashboardsValid s v

-- Publishing keeps every stored dashboard valid under the checks of a save.
pub publish-DashboardsValid :
    (u : Unicode) (clock now dashboard_id actor_id revision_id : ℕ) (text : Text)
    (data_as_of : Option ℕ) (period : Option Timedelta) (db db' : Db)
    → DashboardsValid db
    → publish_dashboard_revision u clock now dashboard_id actor_id revision_id text data_as_of
        period db
      ≡ ok db'
    → DashboardsValid db'
unfolding publish_dashboard_revision lock_current_owner
publish-DashboardsValid u clock now dashboard_id actor_id revision_id text data_as_of period db db'
      v h =
    grind (arith, store_dashboard-DashboardsValid)

pub unpublish-DashboardsValid :
    (clock dashboard_id actor_id : ℕ) (db db' : Db)
    → DashboardsValid db
    → unpublish_dashboard clock dashboard_id actor_id db ≡ ok db'
    → DashboardsValid db'
unfolding unpublish_dashboard lock_current_owner
unpublish-DashboardsValid clock dashboard_id actor_id db db' v h =
    grind (arith, store_dashboard-DashboardsValid)

pub confirm-DashboardsValid :
    (clock now dashboard_id actor_id : ℕ) (period : Option Timedelta) (data_as_of : Update)
    (db db' : Db)
    → DashboardsValid db
    → confirm_dashboard_freshness clock now dashboard_id actor_id period data_as_of db ≡ ok db'
    → DashboardsValid db'
unfolding confirm_dashboard_freshness lock_current_owner
confirm-DashboardsValid clock now dashboard_id actor_id period data_as_of db db' v h =
    grind (arith, store_dashboard-DashboardsValid)

pub rename-DashboardsValid :
    (u : Unicode) (clock id owner_id : ℕ) (name : Text) (db db' : Db)
    → DashboardsValid db
    → rename_project u clock id owner_id name db ≡ ok db'
    → DashboardsValid db'
unfolding rename_project
rename-DashboardsValid u clock id owner_id name db db' v h =
    grind (arith, store_dashboard-DashboardsValid)

new-DashboardsValid :
    (id actor : ℕ) (event : Event) (revision : Option ℕ) (d e : Dashboard) (db : Db)
    → DashboardsValid db
    → save_new db.revisions id d ≡ ok e
    → DashboardsValid (after_save id actor event revision e db)
unfolding after_save record_event save_new
new-DashboardsValid id actor event revision d e db v h j f k =
    ground (arith, lookup-insert id j e db.dashboards, v j f)

pub create-DashboardsValid :
    (u : Unicode) (new_id owner_id : ℕ) (name description : Text) (db db' : Db)
    → DashboardsValid db
    → create_project u new_id owner_id name description db ≡ ok db'
    → DashboardsValid db'
unfolding create_project
create-DashboardsValid u new_id owner_id name description db db' v h =
    grind (arith, new-DashboardsValid)

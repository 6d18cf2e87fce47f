-- ===== src/Publication/Requires.antt =====
-- What a publication that succeeded has checked.
use prj_app.Base.{ℕ, ◌≡◌, true, false, Option, some, Text, lookup, ok, arith, is_some}
use prj_app.Model.{Db, Dashboard}
use prj_app.Unicode.{Unicode}
use prj_app.Store.{active_user, lock_current_owner}
use prj_app.Publication.{
  Timedelta, is_working, complete_revision, is_backward, publish_dashboard_revision,
}

-- A publication that succeeds was asked for by the active owner of a working dashboard, for a
-- complete revision of that dashboard, at a time not before the last publication.
pub publish_requires :
    (u : Unicode) (clock now dashboard_id actor_id revision_id : ℕ) (text : Text)
    (data_as_of : Option ℕ) (period : Option Timedelta) (db db' : Db)
    → publish_dashboard_revision u clock now dashboard_id actor_id revision_id text data_as_of
        period db
      ≡ ok db'
    → (d : Dashboard) × (lookup dashboard_id db.dashboards ≡ some d)
      × (is_some (active_user actor_id db.users) ≡ true)
      × (d.owner ≡ actor_id)
      × (is_working d.state ≡ true)
      × (is_some (complete_revision revision_id dashboard_id db.revisions) ≡ true)
      × (is_backward now d.last_published_at ≡ false)
unfolding publish_dashboard_revision lock_current_owner
publish_requires u clock now dashboard_id actor_id revision_id text data_as_of period db db' h =
    ground arith

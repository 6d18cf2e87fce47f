-- ===== src/Publication/Releases.antt =====
-- Every publication is a release of its own; a withdrawal shows nothing.
use prj_app.Base.{
  ℕ, ◌≡◌, ◌+◌, true, Option, none, some, Text, lookup, ok, arith, is_some, Result-cases, inl, inr,
  lookup-insert,
}
use prj_app.Model.{Db, Dashboard, State, Event, is_published}
use prj_app.Unicode.{Unicode}
use prj_app.ShortText.{normalize_short_text, max_publication_note}
use prj_app.Lifecycle.{advance}
use prj_app.Lifecycle.Invariant.{save-inversion}
use prj_app.Store.{lock_current_owner}
use prj_app.Publication.{
  Timedelta, freshness_seconds, apply_freshness, published_row, publish_dashboard_revision,
  unpublish_dashboard,
}
use prj_app.Publication.Outcome.{Stored, store_dashboard-Stored}

-- A dashboard that was stored, with the tables of renders left alone.
pub record Shown (id : ℕ) (db db' : Db) (e : Dashboard) : Type 0 where
  pub stored : lookup id db'.dashboards ≡ some e
  pub renders : db'.renders ≡ db.renders
  pub grants : db'.grants ≡ db.grants

Stored-Shown :
    {now id : ℕ} {original d : Dashboard} {db db' : Db} {row : Dashboard}
    → Stored now id original d db db' row
    → Shown id db db' row
Stored-Shown {now} {id} {original} {d} {db} {db'} {row} s = record {
  stored = ground (arith, s.dashboards, lookup-insert id id row db.dashboards);
  renders = s.renders;
  grants = s.grants;
}

advance-published_row :
    (clock now revision_id : ℕ) (note : Text) (data_as_of interval : Option ℕ) (d : Dashboard)
    → let e = advance clock d (published_row now revision_id note data_as_of interval d) in
      (e.publication_version ≡ d.publication_version + 1)
      × (e.published_revision ≡ some revision_id)
      × (is_published e.state ≡ true)
unfolding advance published_row
advance-published_row clock now revision_id note data_as_of none d =
    unfold apply_freshness in (ground arith, ground arith, ground arith)
advance-published_row clock now revision_id note data_as_of (some i) d =
    unfold apply_freshness in (ground arith, ground arith, ground arith)

-- A publication that succeeds shows its revision, published, one version on.
pub publish_releases :
    (u : Unicode) (clock now dashboard_id actor_id revision_id : ℕ) (text : Text)
    (data_as_of : Option ℕ) (period : Option Timedelta) (db db' : Db) (d : Dashboard)
    → lookup dashboard_id db.dashboards ≡ some d
    → publish_dashboard_revision u clock now dashboard_id actor_id revision_id text data_as_of
        period db
      ≡ ok db'
    → (e : Dashboard) × Shown dashboard_id db db' e
      × (e.publication_version ≡ d.publication_version + 1)
      × (e.published_revision ≡ some revision_id)
      × (is_published e.state ≡ true)
unfolding publish_dashboard_revision lock_current_owner
publish_releases u clock now dashboard_id actor_id revision_id text data_as_of period db db' d ed
      h =
    elim (Result-cases (normalize_short_text u max_publication_note text)) [
      | inr (x, p) ↦ absurd (ground arith)
      | inl (note, p) ↦ elim (Result-cases (freshness_seconds period)) [
        | inr (x, q) ↦ absurd (ground arith)
        | inl (interval, q) ↦
            let row = published_row now revision_id note data_as_of interval d in
            let (e, s) =
              store_dashboard-Stored clock dashboard_id actor_id d row
                (Event.dashboard_published (d.publication_version + 1)
                  (is_some d.first_published_at))
                (some revision_id) db db' (ground arith) in
            let shape = (save-inversion clock db.revisions dashboard_id d row e s.written).0 in
            let facts = advance-published_row clock now revision_id note data_as_of interval d in
            (
              e,
              Stored-Shown {row = e} s,
              ground (arith, shape, facts),
              ground (arith, shape, facts),
              ground (arith, shape, facts),
            )
      ]
    ]

-- A withdrawal that succeeds leaves no published revision, at the same version.
pub unpublish_hides :
    (clock dashboard_id actor_id : ℕ) (db db' : Db) (d : Dashboard)
    → lookup dashboard_id db.dashboards ≡ some d
    → unpublish_dashboard clock dashboard_id actor_id db ≡ ok db'
    → (e : Dashboard) × Shown dashboard_id db db' e
      × (e.published_revision ≡ none)
      × (e.publication_version ≡ d.publication_version)
unfolding unpublish_dashboard lock_current_owner advance
unpublish_hides clock dashboard_id actor_id db db' d ed h =
    let row : Dashboard = record d { state = State.unpublished; published_revision = none } in
    let (e, s) =
      store_dashboard-Stored clock dashboard_id actor_id d row
        (Event.dashboard_unpublished d.publication_version) d.published_revision db db'
        (ground arith) in
    let shape = (save-inversion clock db.revisions dashboard_id d row e s.written).0 in
    (e, Stored-Shown {row = e} s, ground (arith, shape), ground (arith, shape))

-- ===== src/Publication/Succeeds.antt =====
-- The publication services on valid tables: when they succeed, and with which tables.
use prj_app.Base.{
  ℕ, ◌≡◌, ◌≤◌, ◌+◌, true, false, Option, none, some, Text, lookup, ok, arith, is_some, is_none,
  length, refl, Option-cases, inl, inr, insert, ◌*◌, ◌∷◌,
}
use prj_app.Model.{Db, User, Dashboard, Revision, State, Event, is_published}
use prj_app.Unicode.{Unicode}
use prj_app.ShortText.{normalize_short_text, max_publication_note}
use prj_app.Store.{record_event, active_user, lock_current_owner}
use prj_app.Publication.{
  Timedelta, Update, updated, freshness_seconds, apply_freshness, is_working, complete_revision,
  published_row, is_backward, after_save, store_dashboard, publish_dashboard_revision,
  confirm_dashboard_freshness,
}
use prj_app.Publication.Accepts.{freshness_seconds-IsInterval, save-published_row, save-confirmed}
use prj_app.Publication.Outcome.{DashboardsValid}

published_row-row :
    (now revision_id : ℕ) (note : Text) (data_as_of interval : Option ℕ) (d : Dashboard)
    → published_row now revision_id note data_as_of interval d ≡ record d {
      state = State.published;
      published_revision = some revision_id;
      first_published_at = elim d.first_published_at [ none ↦ some now | some first ↦ some first ];
      publication_version = d.publication_version + 1;
      last_published_at = some now;
      publication_note = note;
      data_as_of = data_as_of;
      freshness_interval_seconds = interval;
      freshness_confirmed_at = elim interval [ none ↦ none | some s ↦ some now ];
      stale_after = elim interval [ none ↦ none | some s ↦ some (now + s * 1000000) ];
    }
unfolding published_row apply_freshness
published_row-row now revision_id note data_as_of none d =
    elim (Option-cases d.first_published_at) [
      | inl e ↦ rw (e, is_none) refl
      | inr (first, e) ↦ rw (e, is_none) refl
    ]
published_row-row now revision_id note data_as_of (some s) d =
    elim (Option-cases d.first_published_at) [
      | inl e ↦ rw (e, is_none) refl
      | inr (first, e) ↦ rw (e, is_none) refl
    ]

-- An active owner and the own dashboard, in valid tables.
module _ (dashboard_id actor_id : ℕ) (db : Db) (d : Dashboard) (actor : User)
    (v : DashboardsValid db) (ed : lookup dashboard_id db.dashboards ≡ some d)
    (ea : active_user actor_id db.users ≡ some actor) (eo : d.owner ≡ actor_id) where
  -- In valid tables, publishing succeeds for the active owner of a draft, published or unpublished
  -- dashboard, with a revision of it that is complete, a note and an interval that are accepted, and
  -- a time that is not before the last publication. The row then has the next version, the revision,
  -- note and source time given, the first publication it had or else this one, and the freshness
  -- fields of the interval; one event is recorded, and nothing else changes.
  pub publish_succeeds :
      (u : Unicode) (clock now revision_id : ℕ) (text note : Text) (data_as_of : Option ℕ)
      (period : Option Timedelta) (interval : Option ℕ) (r : Revision)
      → normalize_short_text u max_publication_note text ≡ ok note
      → freshness_seconds period ≡ ok interval
      → is_working d.state ≡ true
      → complete_revision revision_id dashboard_id db.revisions ≡ some r
      → is_backward now d.last_published_at ≡ false
      → publish_dashboard_revision u clock now dashboard_id actor_id revision_id text data_as_of
          period db
        ≡ ok (record db {
          dashboards =
              insert dashboard_id
                (record d {
                  state = State.published;
                  published_revision = some revision_id;
                  first_published_at = elim d.first_published_at [
                    | none ↦ some now
                    | some first ↦ some first
                  ];
                  publication_version = d.publication_version + 1;
                  last_published_at = some now;
                  publication_note = note;
                  data_as_of = data_as_of;
                  freshness_interval_seconds = interval;
                  freshness_confirmed_at = elim interval [ none ↦ none | some s ↦ some now ];
                  stale_after = elim interval [ none ↦ none | some s ↦ some (now + s * 1000000) ];
                })
                db.dashboards;
          audit =
              (record {
                event =
                    Event.dashboard_published
                      (d.publication_version + 1)
                      (is_some d.first_published_at);
                actor = some actor_id;
                dashboard = some dashboard_id;
                revision = some revision_id;
                target_user = none;
              })
              ∷ db.audit;
        })
  unfolding publish_dashboard_revision lock_current_owner store_dashboard normalize_short_text
      published_row apply_freshness after_save record_event
  publish_succeeds u clock now revision_id text note data_as_of period interval r en ei ew er el =
      let range = freshness_seconds-IsInterval period interval ei in
      let short : length note ≤ 240 = ground arith in
      let written =
        save-published_row db.revisions dashboard_id d (v dashboard_id d ed) now clock revision_id
          note data_as_of interval r ew er el short range in
      let row = published_row-row now revision_id note data_as_of interval d in ground (arith, row)

  -- Confirming the freshness of a published dashboard succeeds, and publishes nothing.
  pub confirm_succeeds :
      (clock now : ℕ) (period : Option Timedelta) (interval : Option ℕ) (data_as_of : Update)
      → freshness_seconds period ≡ ok interval
      → is_published d.state ≡ true
      → confirm_dashboard_freshness clock now dashboard_id actor_id period data_as_of db
        ≡ ok (
            after_save dashboard_id actor_id
              (Event.freshness_confirmed (is_some interval))
              none
              (apply_freshness interval now
                (record d { data_as_of = updated data_as_of d.data_as_of }))
              db)
  unfolding confirm_dashboard_freshness lock_current_owner store_dashboard
  confirm_succeeds clock now period interval data_as_of ei p =
      let range = freshness_seconds-IsInterval period interval ei in
      let written =
        save-confirmed db.revisions dashboard_id d (v dashboard_id d ed) clock now interval
          (updated data_as_of d.data_as_of) p range in
      ground arith

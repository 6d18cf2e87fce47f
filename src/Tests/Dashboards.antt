-- ===== src/Tests/Dashboards.antt =====
-- The saves of a dashboard and the publication services, on the sample tables.
use prj_app.Base.{◌≡◌, refl, true, insert, Option, none, some, [], ◌∷◌, Text, ok, length, ◌≤◌}
use prj_app.Model.{Db, Dashboard, State, Event}
use prj_app.ShortText.{normalize_short_text}
use prj_app.ShortText.Idempotent.{normalize_short_text_idempotent}
use prj_app.Lifecycle.History.{Step, Reach, here, next, saved, Reach-pins, Reach-IsLater, IsLater}
use prj_app.Publication.{publish_dashboard_revision, Timedelta}
use prj_app.Publication.Succeeds.{publish_succeeds}
use prj_app.Tests.World.{ascii, user, complete, board, world, tables, opened, world-DashboardsValid}

abbrev renamed : Dashboard
renamed = record board { name = b'C' ∷ [] }

-- Revision 21 is released, with no version given.
abbrev released : Dashboard
released = record renamed {
  published_revision = some 21;
  publication_version = 2;
  last_published_at = some 200;
}

abbrev withdrawn : Dashboard
withdrawn = record released { state = State.unpublished; published_revision = none }

renames : Reach board renamed
unfolding opened
renames = next here (saved 150 world.revisions 10 renamed refl)

releases-Step : Step renamed released
unfolding opened
releases-Step = saved 200 world.revisions 10 (record renamed { published_revision = some 21 }) refl

releases : Reach board released
releases = next renames releases-Step

withdraws : Reach board withdrawn
unfolding opened
withdraws = next releases (saved 300 world.revisions 10 withdrawn refl)

Reach-pins_example : renamed.published_revision ≡ some 20
Reach-pins_example = Reach-pins renames refl refl refl

Reach-IsLater_example : IsLater board withdrawn
Reach-IsLater_example = Reach-IsLater withdraws

abbrev note : Text
note = 32 ∷ b'n' ∷ 32 ∷ 32 ∷ b'o' ∷ []

abbrev published : Db
published = tables (publish_dashboard_revision ascii 200 200 10 1 21 note none none world)

publishes : publish_dashboard_revision ascii 200 200 10 1 21 note none none world ≡ ok published
unfolding opened
publishes = refl

publish_succeeds_example :
    publish_dashboard_revision ascii 200 200 10 1 21 note none none world
    ≡ ok (record world {
      dashboards =
          insert 10
            (record board {
              state = State.published;
              published_revision = some 21;
              first_published_at = some 100;
              publication_version = 2;
              last_published_at = some 200;
              publication_note = b'n' ∷ 32 ∷ b'o' ∷ [];
              data_as_of = none;
              freshness_interval_seconds = none;
              freshness_confirmed_at = none;
              stale_after = none;
            })
            world.dashboards;
      audit =
          (record {
            event = Event.dashboard_published 2 true;
            actor = some 1;
            dashboard = some 10;
            revision = some 21;
            target_user = none;
          })
          ∷ world.audit;
    })
unfolding opened
publish_succeeds_example =
    publish_succeeds 10 1 world board (user (b'A' ∷ []) true) world-DashboardsValid refl refl refl
      ascii 200 200 21 note (b'n' ∷ 32 ∷ b'o' ∷ []) none none none (complete 2) refl refl refl refl
      refl

-- A day.
abbrev day : Option Timedelta
day = some (Timedelta.pos 86400000000)

abbrev note_normal : Text
note_normal = b'n' ∷ 32 ∷ b'o' ∷ []

normalize_short_text_idempotent_example :
    (normalize_short_text ascii 9 note_normal ≡ ok note_normal) × (length note_normal ≤ 9)
unfolding opened
normalize_short_text_idempotent_example =
    normalize_short_text_idempotent ascii 9 note note_normal refl refl refl

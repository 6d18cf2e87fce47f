-- ===== src/Tests/Credentials.antt =====
-- Render credentials, on the sample tables.
use prj_app.Base.{
  count_rows, lookup, ◌==◌, ◌≤◌, ℕ, ◌≡◌, ◌≢◌, refl, true, false, none, some, [], ◌∷◌, Text, ok,
  arith, err,
}
use prj_app.Model.{ViewerState, Db, Audience, is_published, is_archived, is_deleted}
use prj_app.Publication.{publish_dashboard_revision, unpublish_dashboard}
use prj_app.Ownership.{Expected, transfer_dashboard_ownership}
use prj_app.Render.{
  Credential, issue_published_view, is_token, issue_owner_preview, resolve_render_authorization,
  revoke_render_authorization,
}
use prj_app.Render.Checks.{
  Resolved, Fresh, ViewFacts, view_resolves_requires, preview_resolves_requires,
}
use prj_app.Render.Viewed.{view_resolves}
use prj_app.Capture.{capture_authorized_open}
use prj_app.Capture.Once.{capture_once, capture_grows}
use prj_app.Render.Issued.{preview_resolves}
use prj_app.Render.Ended.{revoke_ends, version_ends, publish_ends, unpublish_ends, transfer_ends}
use prj_app.Tests.World.{
  complete, ascii, user, board, token, view_row, preview_row, world, same_text, tables, opened,
  world-DashboardsValid, world-GrantsValid, world-RequestsValid, world-renders,
}

view_resolves_requires_example :
    (x : Resolved same_text (token b'a') Audience.viewer 140 world 50) × Fresh x.revision x.u x.r
      140
    × ViewFacts world.grants x.d x.r
    × (is_published x.d.state ≡ true)
unfolding opened
view_resolves_requires_example =
    view_resolves_requires same_text (token b'a') 140 world 50 world-renders world-DashboardsValid
      refl

preview_resolves_requires_example :
    (x : Resolved same_text (token b'b') Audience.preview 140 world 51) × Fresh x.revision x.u x.r
      140
    × (x.d.owner ≡ x.r.viewer)
    × (x.r.owner_transfer_epoch ≡ x.d.last_ownership_transfer)
    × (is_archived x.d.state ≡ false)
    × (is_deleted x.d.state ≡ false)
unfolding opened
preview_resolves_requires_example =
    preview_resolves_requires same_text (token b'b') 140 world 51 world-renders refl

-- The first two draws are in use.
abbrev draws : ℕ → Text
draws ℕ.zero = token b'c'
draws (ℕ.suc n) = token b'a'

draws-is_token : (n : ℕ) → is_token (draws n) ≡ true
unfolding opened
draws-is_token ℕ.zero = refl
draws-is_token (ℕ.suc n) = refl

abbrev issued : Credential × Db
issued = elim (issue_owner_preview same_text draws 52 150 160 10 21 1 world) [
  | ok r ↦ r
  | err e ↦ (record { token = []; audience = Audience.preview; expires_at = 0 }, world)
]

preview_resolves_example :
    resolve_render_authorization same_text (token b'c') Audience.preview 200 issued.1 ≡ ok 52
unfolding opened
preview_resolves_example =
    preview_resolves same_text draws draws-is_token 52 150 160 10 21 1 200 world issued.1 issued.0
      refl refl (omega arith)

revoke_ends_example :
    resolve_render_authorization same_text
      (token b'a')
      Audience.viewer
      160
      (revoke_render_authorization 150 50 world)
    ≢ ok 50
revoke_ends_example =
    revoke_ends same_text (token b'a') Audience.viewer 150 160 50 world world-renders

-- User 2 has a later session version.
abbrev reset : Db
reset = record world {
  users =
      (1, user (b'A' ∷ []) true) ∷ (2, record (user (b'B' ∷ []) true) { auth_version = 2 }) ∷ [];
}

version_ends_example :
    resolve_render_authorization same_text (token b'a') Audience.viewer 160 reset ≢ ok 50
unfolding opened
version_ends_example =
    version_ends same_text (token b'a') Audience.viewer 160 50 reset view_row
      (record (user (b'B' ∷ []) true) { auth_version = 2 }) world-renders refl refl (ground arith)

abbrev published : Db
published = tables (publish_dashboard_revision ascii 200 200 10 1 21 [] none none world)

publish_ends_example :
    resolve_render_authorization same_text (token b'a') Audience.viewer 210 published ≢ ok 50
unfolding opened
publish_ends_example =
    publish_ends same_text (token b'a') 210 50 10 world published board view_row 1 world-renders
      refl refl refl refl (omega arith) ascii 200 200 1 21 [] none none refl

abbrev withdrawn : Db
withdrawn = tables (unpublish_dashboard 200 10 1 world)

unpublish_ends_example :
    resolve_render_authorization same_text (token b'a') Audience.viewer 210 withdrawn ≢ ok 50
unfolding opened
unpublish_ends_example =
    unpublish_ends same_text (token b'a') 210 50 10 world withdrawn board view_row 1 world-renders
      refl refl refl refl (omega arith) 200 1 refl

abbrev moved : Db
moved = tables (transfer_dashboard_ownership 60 200 10 1 2 Expected.unset world)

transfer_ends_example :
    resolve_render_authorization same_text (token b'b') Audience.preview 210 moved ≢ ok 51
unfolding opened
transfer_ends_example =
    transfer_ends same_text (token b'b') Audience.preview 210 51 60 200 10 1 2 Expected.unset world
      moved board preview_row world-GrantsValid world-RequestsValid refl refl world-renders refl
      refl refl (ground arith)

-- User 2 opens the dashboard.
abbrev viewed : Credential × Db
viewed = elim (issue_published_view same_text draws 52 60 70 150 160 10 2 world) [
  | ok r ↦ r
  | err e ↦ (record { token = []; audience = Audience.viewer; expires_at = 0 }, world)
]

view_resolves_example :
    resolve_render_authorization same_text (token b'c') Audience.viewer 200 viewed.1 ≡ ok 52
unfolding opened
view_resolves_example =
    view_resolves same_text draws draws-is_token 52 60 70 150 160 10 20 2 200 world viewed.1
      viewed.0 board (complete 1) world-GrantsValid.distinct refl refl refl refl refl refl refl
      (omega arith)

-- The view under the grant before its capture, and an earlier state of its viewer.
abbrev earlier : ViewerState
earlier = record { user = 2; dashboard = 10; last_viewed_at = 90; seen_publication_version = 0 }

abbrev uncaptured : Db
uncaptured = record world {
  renders = (50, record view_row { authorized_open_captured_at = none }) ∷ [];
  viewer_states = (80, earlier) ∷ [];
}

abbrev captured_once : Db
captured_once = elim (capture_authorized_open 60 70 50 uncaptured) [
  | ok (done, db) ↦ db
  | err e ↦ uncaptured
]

capture_once_example :
    (count_rows (λ o. o.source_authorization == 50) captured_once.opens ≡ 1)
    × (capture_authorized_open 61 71 50 captured_once ≡ ok (false, captured_once))
unfolding opened
capture_once_example = capture_once 60 70 61 71 50 uncaptured captured_once refl refl

capture_grows_example :
    (w : ViewerState) × (lookup 80 captured_once.viewer_states ≡ some w)
    × (w.user ≡ 2)
    × (w.dashboard ≡ 10)
    × (90 ≤ w.last_viewed_at)
    × (0 ≤ w.seen_publication_version)
unfolding opened
capture_grows_example =
    capture_grows 60 70 50 80 uncaptured captured_once earlier (refl, tt) refl refl refl

-- ===== src/Render/Ended.antt =====
-- What ends a credential before it expires.
use prj_app.Base.{
  ℕ, ◌≡◌, ◌≢◌, ◌≤◌, true, Option, none, some, Text, lookup, ok, arith, Distinct, lookup-insert,
  insert-Distinct, Option-cases, inl, inr, ◌⊎◌,
}
use prj_app.Model.{Db, User, Dashboard, RenderAuthorization, Audience}
use prj_app.Unicode.{Unicode}
use prj_app.Access.Grants.{GrantsValid}
use prj_app.Requests.Invariant.{RequestsValid}
use prj_app.Ownership.{Expected, handed_over, transfer_dashboard_ownership}
use prj_app.Ownership.Whole.{transfer_effect}
use prj_app.Publication.{Timedelta, publish_dashboard_revision, unpublish_dashboard}
use prj_app.Publication.Releases.{Shown, publish_releases, unpublish_hides}
use prj_app.Render.{same_audience, resolve_render_authorization, revoke_render_authorization}
use prj_app.Render.Checks.{
  owns, holds, resolve-Resolved, is_current-Fresh, is_current-view, is_current-preview,
  preview_is_current-facts,
}

Audience-cases :
    (r : RenderAuthorization) (audience : Audience)
    → same_audience r.audience audience ≡ true
    → (same_audience r.audience Audience.viewer ≡ true)
      ⊎ (same_audience r.audience Audience.preview ≡ true)
Audience-cases r Audience.viewer h = inl h
Audience-cases r Audience.preview h = inr h

revoked_row :
    (now id : ℕ) (db : Db) (r : RenderAuthorization)
    → lookup id (revoke_render_authorization now id db).renders ≡ some r
    → r.revoked_at ≢ none
unfolding revoke_render_authorization
revoked_row now id db r e = elim (Option-cases (lookup id db.renders)) [
  | inl f ↦ absurd (ground arith)
  | inr (o, f) ↦ ground (arith, lookup-insert id id (record o { revoked_at = some now }) db.renders)
]

revoke-Distinct :
    (now id : ℕ) (db : Db)
    → Distinct db.renders
    → Distinct (revoke_render_authorization now id db).renders
unfolding revoke_render_authorization
revoke-Distinct now id db d = elim (Option-cases (lookup id db.renders)) [
  | inl f ↦ ground arith
  | inr (o, f) ↦
      ground (arith, insert-Distinct id (record o { revoked_at = some now }) db.renders d)
]

-- No token resolves to a revoked authorization, for either audience and at any time.
pub revoke_ends :
    (digest : Text → Text) (token : Text) (audience : Audience) (now at id : ℕ) (db : Db)
    → Distinct db.renders
    → resolve_render_authorization digest token audience at (revoke_render_authorization now id db)
      ≢ ok id
revoke_ends digest token audience now at id db distinct h =
    let db' = revoke_render_authorization now id db in
    let x =
      resolve-Resolved digest token audience at db' id (revoke-Distinct now id db distinct) h in
    let f = is_current-Fresh db'.grants x.d x.revision x.u x.r at x.current in
    revoked_row now id db x.r x.stored f.unrevoked

-- No token resolves to an authorization whose viewer has another session version by now.
pub version_ends :
    (digest : Text → Text) (token : Text) (audience : Audience) (at id : ℕ) (db : Db)
    (r : RenderAuthorization) (u : User)
    → Distinct db.renders
    → lookup id db.renders ≡ some r
    → lookup r.viewer db.users ≡ some u
    → u.auth_version ≢ r.viewer_auth_version
    → resolve_render_authorization digest token audience at db ≢ ok id
version_ends digest token audience at id db r u distinct e f other h =
    let x = resolve-Resolved digest token audience at db id distinct h in
    let fresh = is_current-Fresh db.grants x.d x.revision x.u x.r at x.current in
    let stored = x.stored in let viewer = x.viewer in ground (arith, fresh.version)

-- A credential issued for a release of the dashboard up to the present one.
module _ (digest : Text → Text) (token : Text) (at id dashboard_id : ℕ) (db db' : Db)
    (d : Dashboard) (r : RenderAuthorization) (released : ℕ) (distinct : Distinct db.renders)
    (ed : lookup dashboard_id db.dashboards ≡ some d) (er : lookup id db.renders ≡ some r)
    (of_dashboard : r.dashboard ≡ dashboard_id) (version : r.publication_version ≡ some released)
    (earlier : released ≤ d.publication_version) where
  Shown-ends :
      (e : Dashboard)
      → Shown dashboard_id db db' e
      → (e.published_revision ≡ some r.revision
          → some e.publication_version ≡ r.publication_version
          → ⊥)
      → resolve_render_authorization digest token Audience.viewer at db' ≢ ok id
  Shown-ends e s differs h =
      let kept : Distinct db'.renders = ground (arith, s.renders, distinct) in
      let x = resolve-Resolved digest token Audience.viewer at db' id kept h in
      let v = is_current-view db'.grants x.d x.revision x.u x.r at x.current x.for_audience in
      let a = x.stored in
      let b = x.dashboard in
      let p = v.pinned in
      let q = v.release in
      differs (ground (arith, s.renders, s.stored)) (ground (arith, s.renders, s.stored))

  -- Publishing the dashboard, the same revision too, ends every view of an earlier release: no
  -- token resolves to it, at any time.
  pub publish_ends :
      (u : Unicode) (clock now actor_id revision_id : ℕ) (text : Text) (data_as_of : Option ℕ)
      (period : Option Timedelta)
      → publish_dashboard_revision u clock now dashboard_id actor_id revision_id text data_as_of
          period db
        ≡ ok db'
      → resolve_render_authorization digest token Audience.viewer at db' ≢ ok id
  publish_ends u clock now actor_id revision_id text data_as_of period h =
      let (e, s, v, p, q) =
        publish_releases u clock now dashboard_id actor_id revision_id text data_as_of period db db'
          d ed h in
      Shown-ends e s (λ a b. ground arith)

  -- Withdrawing the dashboard ends every view of a release: no token resolves to it, at any time.
  pub unpublish_ends :
      (clock actor_id : ℕ)
      → unpublish_dashboard clock dashboard_id actor_id db ≡ ok db'
      → resolve_render_authorization digest token Audience.viewer at db' ≢ ok id
  unpublish_ends clock actor_id h =
      let (e, s, p, v) = unpublish_hides clock dashboard_id actor_id db db' d ed h in
      Shown-ends e s (λ a b. ground arith)

-- After a transfer no token resolves, for either audience, to a credential of the dashboard that
-- carries no grant and another epoch than that of the transfer, as those of former owners do.
pub transfer_ends :
    (digest : Text → Text) (token : Text) (audience : Audience)
    (at id new_id now dashboard_id actor_id incoming : ℕ) (expected : Expected) (db db' : Db)
    (d : Dashboard) (r : RenderAuthorization)
    → GrantsValid db
    → RequestsValid db
    → lookup dashboard_id db.dashboards ≡ some d
    → transfer_dashboard_ownership new_id now dashboard_id actor_id incoming expected db ≡ ok db'
    → Distinct db'.renders
    → lookup id db'.renders ≡ some r
    → r.dashboard ≡ dashboard_id
    → r.viewer_grant ≡ none
    → r.owner_transfer_epoch ≢ some new_id
    → resolve_render_authorization digest token audience at db' ≢ ok id
transfer_ends digest token audience at id new_id now dashboard_id actor_id incoming expected db db'
      d r v w ed moved distinct er scope owned older h =
    let t =
      transfer_effect new_id now dashboard_id actor_id incoming expected db db' d v w ed moved in
    let x = resolve-Resolved digest token audience at db' id distinct h in
    let same : x.r ≡ r = ground (arith, x.stored) in
    let now_at : x.d ≡ handed_over new_id incoming d = ground (
      arith,
      x.dashboard,
      t.6,
      lookup-insert dashboard_id dashboard_id (handed_over new_id incoming d) db.dashboards,
    ) in
    elim (Audience-cases x.r audience x.for_audience) [
      | inl view ↦
          let f = is_current-view db'.grants x.d x.revision x.u x.r at x.current view in
          elim f.may [ owns o e g ↦ ground arith | holds k g e a b c z ↦ ground arith ]
      | inr shown ↦
          let p =
            preview_is_current-facts x.d x.r
              (is_current-preview db'.grants x.d x.revision x.u x.r at x.current shown) in
          ground (arith, p.1)
    ]

-- ===== src/Render/Checks.antt =====
-- What a credential that resolves has been checked for, on the current rows.
use prj_app.Base.{
  ℕ, ◌≡◌, ◌<◌, true, false, inl, inr, none, some, Text, Table, lookup, ok, arith, Distinct,
  find_row_sound, text_eq_sound, opt_eq_sound, Bool-cases, Option-cases, ◌==◌, text_eq, ◌&&◌,
}
use prj_app.Model.{
  Db, User, Dashboard, Revision, ViewerGrant, RenderAuthorization, Audience, is_published,
  is_archived, is_deleted,
}
use prj_app.Lifecycle.Invariant.{full_clean-IsConsistent}
use prj_app.Publication.Outcome.{DashboardsValid}
use prj_app.Access.{user_can_view_published}
use prj_app.Capture.{grant_row}
use prj_app.Render.{
  same_audience, render_of, is_current, view_is_current, preview_is_current,
  resolve_render_authorization,
}

-- The owner in the epoch of issue, or the viewer of an unrevoked grant of the dashboard.
pub data MayView (grants : Table ViewerGrant) (d : Dashboard) (r : RenderAuthorization)
    : Type 0 where
  owns :
      d.owner ≡ r.viewer
      → r.owner_transfer_epoch ≡ d.last_ownership_transfer
      → r.viewer_grant ≡ none
      → MayView grants d r
  holds :
      (id : ℕ) (g : ViewerGrant)
      → r.viewer_grant ≡ some id
      → lookup id grants ≡ some g
      → g.dashboard ≡ r.dashboard
      → g.viewer ≡ r.viewer
      → g.revoked_at ≡ none
      → MayView grants d r

-- What holds of an authorization and the rows that it names while it is current.
pub record Fresh (revision : Revision) (u : User) (r : RenderAuthorization) (at : ℕ) : Type 0 where
  pub unrevoked : r.revoked_at ≡ none
  pub unexpired : at < r.expires_at
  pub active : u.is_active ≡ true
  pub version : u.auth_version ≡ r.viewer_auth_version
  pub locked : revision.artifacts_locked ≡ true
  pub scope : revision.dashboard ≡ r.dashboard

pub is_current-Fresh :
    (grants : Table ViewerGrant) (d : Dashboard) (revision : Revision) (u : User)
    (r : RenderAuthorization) (at : ℕ)
    → is_current grants d revision u r at ≡ true
    → Fresh revision u r at
unfolding is_current
is_current-Fresh grants d revision u r at h = ground arith

pub record ViewFacts (grants : Table ViewerGrant) (d : Dashboard) (r : RenderAuthorization)
    : Type 0 where
  pub pinned : d.published_revision ≡ some r.revision
  pub release : some d.publication_version ≡ r.publication_version
  pub may : MayView grants d r

view_is_current-ViewFacts :
    (grants : Table ViewerGrant) (d : Dashboard) (u : User) (r : RenderAuthorization)
    → view_is_current grants d u r ≡ true
    → ViewFacts grants d r
unfolding view_is_current user_can_view_published grant_row
view_is_current-ViewFacts grants d u r h = record {
  pinned = opt_eq_sound d.published_revision (some r.revision) (ground arith);
  release = opt_eq_sound (some d.publication_version) r.publication_version (ground arith);
  may = elim (Bool-cases (d.owner == r.viewer)) [
    | inl own ↦
        owns (ground arith)
          (opt_eq_sound r.owner_transfer_epoch d.last_ownership_transfer (ground arith))
          (ground arith)
    | inr other ↦ elim (Option-cases r.viewer_grant) [
      | inl e ↦ absurd (ground arith)
      | inr (id, e) ↦ elim (Option-cases (lookup id grants)) [
        | inl f ↦ absurd (ground arith)
        | inr (g, f) ↦ holds id g e f (ground arith) (ground arith) (ground arith)
      ]
    ]
  ];
}

pub preview_is_current-facts :
    (d : Dashboard) (r : RenderAuthorization)
    → preview_is_current d r ≡ true
    → (d.owner ≡ r.viewer)
      × (r.owner_transfer_epoch ≡ d.last_ownership_transfer)
      × (is_archived d.state ≡ false)
      × (is_deleted d.state ≡ false)
unfolding preview_is_current
preview_is_current-facts d r h = (
  ground arith,
  opt_eq_sound r.owner_transfer_epoch d.last_ownership_transfer (ground arith),
  ground arith,
  ground arith,
)

-- The rows behind a credential that resolves.
pub record Resolved (digest : Text → Text) (token : Text) (audience : Audience) (at : ℕ) (db : Db)
    (id : ℕ) : Type 0 where
  pub r : RenderAuthorization
  pub d : Dashboard
  pub revision : Revision
  pub u : User
  pub stored : lookup id db.renders ≡ some r
  pub dashboard : lookup r.dashboard db.dashboards ≡ some d
  pub exact : lookup r.revision db.revisions ≡ some revision
  pub viewer : lookup r.viewer db.users ≡ some u
  pub digested : r.token_digest ≡ digest token
  pub for_audience : same_audience r.audience audience ≡ true
  pub current : is_current db.grants d revision u r at ≡ true

pub resolve-Resolved :
    (digest : Text → Text) (token : Text) (audience : Audience) (at : ℕ) (db : Db) (id : ℕ)
    → Distinct db.renders
    → resolve_render_authorization digest token audience at db ≡ ok id
    → Resolved digest token audience at db id
unfolding resolve_render_authorization render_of
resolve-Resolved digest token audience at db id distinct h =
    elim (Option-cases (render_of digest token audience db.renders)) [
      | inl e ↦ absurd (ground arith)
      | inr ((k, r), e) ↦ elim (Option-cases (lookup r.dashboard db.dashboards)) [
        | inl f ↦ absurd (ground arith)
        | inr (d, f) ↦ elim (Option-cases (lookup r.revision db.revisions)) [
          | inl g ↦ absurd (ground arith)
          | inr (revision, g) ↦ elim (Option-cases (lookup r.viewer db.users)) [
            | inl v ↦ absurd (ground arith)
            | inr (u, v) ↦
                let found =
                  find_row_sound
                    (λ r.
                      text_eq r.token_digest (digest token) && same_audience r.audience audience)
                    db.renders {k = k} {v = r} distinct e in
                let same : k ≡ id = ground arith in
                record {
                  r = r;
                  d = d;
                  revision = revision;
                  u = u;
                  stored = ground (arith, found);
                  dashboard = f;
                  exact = g;
                  viewer = v;
                  digested = text_eq_sound r.token_digest (digest token) (ground (arith, found));
                  for_audience = ground (arith, found);
                  current = ground arith;
                }
          ]
        ]
      ]
    ]

pub is_current-view :
    (grants : Table ViewerGrant) (d : Dashboard) (revision : Revision) (u : User)
    (r : RenderAuthorization) (at : ℕ)
    → is_current grants d revision u r at ≡ true
    → same_audience r.audience Audience.viewer ≡ true
    → ViewFacts grants d r
unfolding is_current
is_current-view grants d revision u r at h a = view_is_current-ViewFacts grants d u r (ground arith)

-- A view that resolves shows the published revision, at the release it was issued for, of a
-- dashboard that is published now, to an active viewer who still may view it.
pub view_resolves_requires :
    (digest : Text → Text) (token : Text) (at : ℕ) (db : Db) (id : ℕ)
    → Distinct db.renders
    → DashboardsValid db
    → resolve_render_authorization digest token Audience.viewer at db ≡ ok id
    → (x : Resolved digest token Audience.viewer at db id) × Fresh x.revision x.u x.r at
      × ViewFacts db.grants x.d x.r
      × (is_published x.d.state ≡ true)
view_resolves_requires digest token at db id distinct v h =
    let x = resolve-Resolved digest token Audience.viewer at db id distinct h in
    let facts = is_current-view db.grants x.d x.revision x.u x.r at x.current x.for_audience in
    let c =
      full_clean-IsConsistent db.revisions x.r.dashboard x.d (v x.r.dashboard x.d x.dashboard) in
    (
      x,
      is_current-Fresh db.grants x.d x.revision x.u x.r at x.current,
      facts,
      ground (arith, c.pointer, facts.pinned),
    )

pub is_current-preview :
    (grants : Table ViewerGrant) (d : Dashboard) (revision : Revision) (u : User)
    (r : RenderAuthorization) (at : ℕ)
    → is_current grants d revision u r at ≡ true
    → same_audience r.audience Audience.preview ≡ true
    → preview_is_current d r ≡ true
unfolding is_current
is_current-preview grants d revision u r at h a = ground arith

-- A preview that resolves shows a complete revision of a dashboard that is neither archived nor
-- deleted to its active owner, in the ownership epoch it was issued in.
pub preview_resolves_requires :
    (digest : Text → Text) (token : Text) (at : ℕ) (db : Db) (id : ℕ)
    → Distinct db.renders
    → resolve_render_authorization digest token Audience.preview at db ≡ ok id
    → (x : Resolved digest token Audience.preview at db id) × Fresh x.revision x.u x.r at
      × (x.d.owner ≡ x.r.viewer)
      × (x.r.owner_transfer_epoch ≡ x.d.last_ownership_transfer)
      × (is_archived x.d.state ≡ false)
      × (is_deleted x.d.state ≡ false)
preview_resolves_requires digest token at db id distinct h =
    let x = resolve-Resolved digest token Audience.preview at db id distinct h in
    let p =
      preview_is_current-facts x.d x.r
        (is_current-preview db.grants x.d x.revision x.u x.r at x.current x.for_audience) in
    (x, is_current-Fresh db.grants x.d x.revision x.u x.r at x.current, p.0, p.1, p.2, p.3)

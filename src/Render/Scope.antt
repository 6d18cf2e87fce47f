-- ===== src/Render/Scope.antt =====
-- The scope that the issue of a view establishes, and the checks that it passes.
use prj_app.Base.{
  ℕ, ◌≡◌, true, false, Option, none, some, Text, Table, lookup, arith, any_row-find_row,
  opt_eq_refl, ◌==◌, Distinct, find_row_sound,
}
use prj_app.Model.{User, Dashboard, ViewerGrant, RenderAuthorization, Audience, is_published}
use prj_app.Store.{active_grant, is_active_for, has_active_grant}
use prj_app.Access.{user_can_view_published}
use prj_app.Capture.{grant_row}
use prj_app.Render.{new_render, view_is_current}

-- The row of a view, once its open is captured.
abbrev pub view_row : ℕ → User → Option ℕ → ℕ → Dashboard → ℕ → ℕ → ℕ → Text → RenderAuthorization
view_row viewer_id u grant_id dashboard_id d revision_id now expires_at x =
    new_render x Audience.viewer viewer_id u grant_id dashboard_id d revision_id now expires_at

-- The scope that the issue of a view has established: ownership, or an active grant.
pub data Scope (grants : Table ViewerGrant) (dashboard_id viewer_id : ℕ) (d : Dashboard)
    : Option ℕ → Type 0 where
  owned : d.owner ≡ viewer_id → Scope grants dashboard_id viewer_id d none
  granted :
      (id : ℕ) (g : ViewerGrant)
      → (d.owner == viewer_id) ≡ false
      → lookup id grants ≡ some g
      → g.dashboard ≡ dashboard_id
      → g.viewer ≡ viewer_id
      → g.revoked_at ≡ none
      → Scope grants dashboard_id viewer_id d (some id)

pub view_row-view_is_current :
    (viewer_id dashboard_id revision_id now expires_at : ℕ) (x : Text) (stamp grant_id : Option ℕ)
    (grants : Table ViewerGrant) (d : Dashboard) (u : User)
    → Scope grants dashboard_id viewer_id d grant_id
    → u.is_active ≡ true
    → is_published d.state ≡ true
    → d.published_revision ≡ some revision_id
    → view_is_current grants d u
        (record (view_row viewer_id u grant_id dashboard_id d revision_id now expires_at x) {
          authorized_open_captured_at = stamp;
        })
      ≡ true
unfolding view_is_current grant_row user_can_view_published
view_row-view_is_current viewer_id dashboard_id revision_id now expires_at x stamp grant_id grants d
      u (owned o) a p q =
    ground (
      arith,
      opt_eq_refl (some revision_id),
      opt_eq_refl (some d.publication_version),
      opt_eq_refl d.last_ownership_transfer,
    )
view_row-view_is_current viewer_id dashboard_id revision_id now expires_at x stamp grant_id grants d
      u (granted id g o e f v n) a p q =
    ground (arith, opt_eq_refl (some revision_id), opt_eq_refl (some d.publication_version))

pub active_grant-Scope :
    (dashboard_id viewer_id id : ℕ) (g : ViewerGrant) (grants : Table ViewerGrant) (d : Dashboard)
    → Distinct grants
    → (d.owner == viewer_id) ≡ false
    → active_grant dashboard_id viewer_id grants ≡ some (id, g)
    → Scope grants dashboard_id viewer_id d (some id)
unfolding active_grant
active_grant-Scope dashboard_id viewer_id id g grants d distinct o h =
    let at =
      find_row_sound (is_active_for dashboard_id viewer_id) grants {k = id} {v = g} distinct h in
    granted id g o at.0 (ground (arith, at.1)) (ground (arith, at.1)) (ground (arith, at.1))

pub no_grant_no_view :
    (dashboard_id viewer_id : ℕ) (grants : Table ViewerGrant) (d : Dashboard) (u : User)
    → (d.owner == viewer_id) ≡ false
    → active_grant dashboard_id viewer_id grants ≡ none
    → user_can_view_published dashboard_id d viewer_id u none grants ≡ false
unfolding user_can_view_published active_grant has_active_grant
no_grant_no_view dashboard_id viewer_id grants d u o h =
    ground (arith, any_row-find_row (is_active_for dashboard_id viewer_id) grants)

-- ===== src/Render/Viewed.antt =====
-- A view that was issued resolves until it expires.
use prj_app.Base.{
  insert-insert, ◌>>=◌, ℕ, ◌≡◌, ◌<◌, ◌+◌, refl, true, ◌&&◌, Option, none, some, Text, lookup,
  insert, ok, arith, text_eq, text_eq_refl, Result-cases, inl, inr, Bool-cases, Option-cases, ◌==◌,
  Distinct, lookup-insert_self,
}
use prj_app.Model.{
  Db, User, Dashboard, Revision, RenderAuthorization, Audience, seconds, is_published,
}
use prj_app.Store.{active_user, active_grant}
use prj_app.Capture.{capture_authorized_open}
use prj_app.Capture.Once.{Stored, capture-Stored}
use prj_app.Render.{
  Credential, is_token, same_audience, ttl_seconds, token_attempts, create_round,
  issue_published_view, captured, render_of, is_current, resolve_render_authorization,
}
use prj_app.Render.Issued.{find_row-insert, any_row_weaken, Created, create_round-Created}
use prj_app.Render.Scope.{
  view_row, Scope, owned, view_row-view_is_current, active_grant-Scope, no_grant_no_view,
}

module _ (digest : Text → Text) (draw : ℕ → Text)
    (tokens : (n : ℕ) → is_token (draw n) ≡ true) where
  view_found :
      (new_id open_id state_id : ℕ) (row : Text → RenderAuthorization) (db mid db' : Db)
      (c : Credential)
      → Created digest draw tokens new_id row c db mid
      → Stored open_id state_id new_id mid db'
      → (row (digest c.token)).token_digest ≡ digest c.token
      → (row (digest c.token)).audience ≡ Audience.viewer
      → lookup new_id db.renders ≡ none
      → render_of digest c.token Audience.viewer db'.renders
        ≡ some (
          new_id,
          record (row (digest c.token)) {
            authorized_open_captured_at = some (row (digest c.token)).created_at;
          },
        )
  unfolding render_of
  view_found new_id open_id state_id row db mid db' c made stored hashed audience fresh =
      let r = row (digest c.token) in
      let n = record r { authorized_open_captured_at = some r.created_at } in
      let same : stored.r ≡ r =
        ground (arith, stored.source, made.written, lookup-insert_self new_id r db.renders) in
      let whole : db'.renders ≡ insert new_id n db.renders =
        ground (arith, stored.renders, made.written, same, insert-insert new_id r n db.renders) in
      rw whole (
        find_row-insert
          (λ r. text_eq r.token_digest (digest c.token) && same_audience r.audience Audience.viewer)
          new_id n db.renders fresh
          (any_row_weaken (λ r. text_eq r.token_digest (digest c.token))
            (λ r. same_audience r.audience Audience.viewer) db.renders made.unused)
          (ground (arith, text_eq_refl (digest c.token))))

  view_alive :
      (new_id open_id state_id viewer_id dashboard_id revision_id now expires_at at : ℕ)
      (grant_id : Option ℕ) (db mid db' : Db) (c : Credential) (d : Dashboard) (u : User)
      (revision : Revision)
      → Created digest draw tokens new_id
          (view_row viewer_id u grant_id dashboard_id d revision_id now expires_at)
          c
          db
          mid
      → Stored open_id state_id new_id mid db'
      → lookup new_id db.renders ≡ none
      → Scope db.grants dashboard_id viewer_id d grant_id
      → lookup dashboard_id db.dashboards ≡ some d
      → lookup viewer_id db.users ≡ some u
      → lookup revision_id db.revisions ≡ some revision
      → revision.artifacts_locked ≡ true
      → revision.dashboard ≡ dashboard_id
      → u.is_active ≡ true
      → is_published d.state ≡ true
      → d.published_revision ≡ some revision_id
      → at < expires_at
      → resolve_render_authorization digest c.token Audience.viewer at db' ≡ ok new_id
  unfolding resolve_render_authorization is_current
  view_alive new_id open_id state_id viewer_id dashboard_id revision_id now expires_at at grant_id
        db mid db' c d u revision made stored fresh scope ed eu er locked own active published shown
        t =
      let row = view_row viewer_id u grant_id dashboard_id d revision_id now expires_at in
      let found = view_found new_id open_id state_id row db mid db' c made stored refl refl fresh in
      let current =
        view_row-view_is_current viewer_id dashboard_id revision_id now expires_at (digest c.token)
          (some now) grant_id db.grants d u scope active published shown in
      ground (
        arith, made.token, made.written, stored.users, stored.dashboards, stored.revisions,
        stored.grants, found, current,
      )

  captured-Stored :
      (open_id state_id new_id : ℕ) (k c : Credential) (mid db' : Db)
      → captured digest open_id state_id new_id k mid ≡ ok (c, db')
      → (k ≡ c) × Stored open_id state_id new_id mid db'
  unfolding captured
  captured-Stored open_id state_id new_id k c mid db' h =
      elim (Result-cases (capture_authorized_open open_id state_id new_id mid)) [
        | inr (x, p) ↦ absurd (ground arith)
        | inl ((done, last), p) ↦ elim (Bool-cases done) [
          | inr late ↦ absurd (ground arith)
          | inl stored ↦
              (ground arith, capture-Stored open_id state_id new_id mid db' (ground arith))
        ]
      ]

  issued_view :
      (new_id open_id state_id now issued_at dashboard_id viewer_id : ℕ) (db db' : Db)
      (c : Credential) (d : Dashboard) (u : User) (revision_id : ℕ) (grant_id : Option ℕ)
      → (do
        (credential, created) ←
            create_round digest token_attempts draw new_id
              (view_row viewer_id u grant_id dashboard_id d revision_id now
                (issued_at + seconds ttl_seconds))
              d
              u
              db
        captured digest open_id state_id new_id credential created)
        ≡ ok (c, db')
      → (mid : Db) × Created digest draw tokens new_id
          (view_row viewer_id u grant_id dashboard_id d revision_id now
            (issued_at + seconds ttl_seconds))
          c
          db
          mid
        × Stored open_id state_id new_id mid db'
  issued_view new_id open_id state_id now issued_at dashboard_id viewer_id db db' c d u revision_id
        grant_id h =
      let row =
        view_row viewer_id u grant_id dashboard_id d revision_id now
          (issued_at + seconds ttl_seconds) in
      elim (Result-cases (create_round digest token_attempts draw new_id row d u db)) [
        | inr (x, p) ↦ absurd (ground arith)
        | inl ((k, mid), p) ↦
            let (same, stored) =
              captured-Stored open_id state_id new_id k c mid db' (ground arith) in
            (
              mid,
              create_round-Created digest draw tokens token_attempts new_id row d u db mid c
                  (ground arith),
              stored,
            )
      ]

  -- The bearer of a view credential resolves it to the authorization just issued, until it expires,
  -- five minutes after the issue, where the published revision is complete and the new identifier is
  -- unused.
  pub view_resolves :
      (new_id open_id state_id now issued_at dashboard_id revision_id viewer_id at : ℕ)
      (db db' : Db) (c : Credential) (d : Dashboard) (revision : Revision)
      → Distinct db.grants
      → lookup new_id db.renders ≡ none
      → lookup dashboard_id db.dashboards ≡ some d
      → d.published_revision ≡ some revision_id
      → lookup revision_id db.revisions ≡ some revision
      → revision.artifacts_locked ≡ true
      → revision.dashboard ≡ dashboard_id
      → issue_published_view digest draw new_id open_id state_id now issued_at dashboard_id
          viewer_id db
        ≡ ok (c, db')
      → at < issued_at + seconds ttl_seconds
      → resolve_render_authorization digest c.token Audience.viewer at db' ≡ ok new_id
  unfolding issue_published_view active_user
  view_resolves new_id open_id state_id now issued_at dashboard_id revision_id viewer_id at db db' c
        d revision distinct fresh ed shown er locked own h t =
      elim (Option-cases (lookup viewer_id db.users)) [
        | inl f ↦ absurd (ground arith)
        | inr (u, eu) ↦ elim (Bool-cases (d.owner == viewer_id)) [
          | inl o ↦
              let (mid, made, stored) =
                issued_view new_id open_id state_id now issued_at dashboard_id viewer_id db db' c d
                  u revision_id none (ground arith) in
              view_alive new_id open_id state_id viewer_id dashboard_id revision_id now
                (issued_at + seconds ttl_seconds) at none db mid db' c d u revision made stored
                fresh (owned (ground arith)) ed eu er locked own (ground arith) (ground arith) shown
                t
          | inr o ↦ elim (Option-cases (active_grant dashboard_id viewer_id db.grants)) [
            | inl g ↦
                absurd (ground (arith, no_grant_no_view dashboard_id viewer_id db.grants d u o g))
            | inr ((id, g), e) ↦
                let (mid, made, stored) =
                  issued_view new_id open_id state_id now issued_at dashboard_id viewer_id db db' c
                    d u revision_id (some id) (ground arith) in
                view_alive new_id open_id state_id viewer_id dashboard_id revision_id now
                  (issued_at + seconds ttl_seconds) at (some id) db mid db' c d u revision made
                  stored fresh
                  (active_grant-Scope dashboard_id viewer_id id g db.grants d distinct o e) ed eu er
                  locked own (ground arith) (ground arith) shown t
          ]
        ]
      ]

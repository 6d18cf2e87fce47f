-- ===== src/Render/Issued.antt =====
-- A credential that was issued resolves until it expires.
use prj_app.Base.{
  ℕ, zero, suc, ◌≡◌, ◌<◌, ◌+◌, refl, Bool, true, false, ◌&&◌, none, some, [], ◌∷◌, Text, Table,
  lookup, insert, ok, arith, any_row, find_row, text_eq, text_eq_refl, Result-cases, inl, inr,
  Bool-cases, Option-cases, opt_eq_refl,
}
use prj_app.Model.{
  Db, User, Dashboard, Revision, RenderAuthorization, Audience, seconds, is_archived, is_deleted,
}
use prj_app.Store.{active_user, record_event}
use prj_app.Publication.{complete_revision}
use prj_app.RenderRow.{save_new_render}
use prj_app.Render.{
  Credential, is_token, same_audience, ttl_seconds, token_attempts, new_render, create_round,
  issue_owner_preview, render_of, is_current, preview_is_current, resolve_render_authorization,
}

pub find_row-insert :
    (p : RenderAuthorization → Bool) (k : ℕ) (n : RenderAuthorization)
    (t : Table RenderAuthorization)
    → lookup k t ≡ none
    → any_row p t ≡ false
    → p n ≡ true
    → find_row p (insert k n t) ≡ some (k, n)
unfolding find_row insert lookup any_row
find_row-insert p k n [] h a e = ground arith
find_row-insert p k n ((j, r) ∷ t) h a e = ground (arith, find_row-insert p k n t)

pub any_row_weaken :
    (p q : RenderAuthorization → Bool) (t : Table RenderAuthorization)
    → any_row p t ≡ false
    → any_row (λ r. p r && q r) t ≡ false
unfolding any_row
any_row_weaken p q [] h = refl
any_row_weaken p q ((j, r) ∷ t) h = ground (arith, any_row_weaken p q t)

module _ (digest : Text → Text) (draw : ℕ → Text)
    (tokens : (n : ℕ) → is_token (draw n) ≡ true) where
  -- What a successful creation has written.
  pub record Created (new_id : ℕ) (row : Text → RenderAuthorization) (c : Credential) (db db' : Db)
      : Type 0 where
    pub token : is_token c.token ≡ true
    pub written : db' ≡ record db { renders = insert new_id (row (digest c.token)) db.renders }
    pub unused : any_row (λ r. text_eq r.token_digest (digest c.token)) db.renders ≡ false
    pub expiry : c.expires_at ≡ (row (digest c.token)).expires_at

  save_new_render-eq :
      (db : Db) (d : Dashboard) (u : User) (r s : RenderAuthorization)
      → save_new_render db d u r ≡ ok s
      → s ≡ r
  unfolding save_new_render
  save_new_render-eq db d u r s h = ground arith

  pub create_round-Created :
      (n new_id : ℕ) (row : Text → RenderAuthorization) (d : Dashboard) (u : User) (db db' : Db)
      (c : Credential)
      → create_round digest n draw new_id row d u db ≡ ok (c, db')
      → Created new_id row c db db'
  unfolding create_round
  create_round-Created zero new_id row d u db db' c h = absurd (ground arith)
  create_round-Created (suc n) new_id row d u db db' c h =
      elim (Bool-cases (any_row (λ r. text_eq r.token_digest (digest (draw n))) db.renders)) [
        | inl used ↦ create_round-Created n new_id row d u db db' c (ground arith)
        | inr unused ↦ elim (Result-cases (save_new_render db d u (row (digest (draw n))))) [
          | inr (x, e) ↦ absurd (ground arith)
          | inl (s, e) ↦
              let same = save_new_render-eq db d u (row (digest (draw n))) s e in
              let at : c.token ≡ draw n = ground arith in
              record {
                token = ground (arith, tokens n);
                written = ground arith;
                unused = ground arith;
                expiry = ground arith;
              }
        ]
      ]

  -- The row of a preview.
  abbrev preview_row : ℕ → User → ℕ → Dashboard → ℕ → ℕ → ℕ → Text → RenderAuthorization
  preview_row viewer_id u dashboard_id d revision_id now expires_at x =
      new_render x Audience.preview viewer_id u none dashboard_id d revision_id now expires_at

  preview_row-is_current :
      (viewer_id dashboard_id revision_id now expires_at at : ℕ) (x : Text) (db : Db)
      (d : Dashboard) (u : User) (revision : Revision)
      → is_archived d.state ≡ false
      → is_deleted d.state ≡ false
      → d.owner ≡ viewer_id
      → u.is_active ≡ true
      → revision.artifacts_locked ≡ true
      → revision.dashboard ≡ dashboard_id
      → at < expires_at
      → is_current db.grants d revision u
          (preview_row viewer_id u dashboard_id d revision_id now expires_at x)
          at
        ≡ true
  unfolding is_current preview_is_current
  preview_row-is_current viewer_id dashboard_id revision_id now expires_at at x db d u revision a b
        o v l s t =
      ground (arith, opt_eq_refl d.last_ownership_transfer)

  preview_found :
      (viewer_id dashboard_id revision_id now expires_at at new_id : ℕ) (db db' : Db)
      (c : Credential) (d : Dashboard) (u : User) (revision : Revision)
      → Created new_id (preview_row viewer_id u dashboard_id d revision_id now expires_at) c db db'
      → lookup new_id db.renders ≡ none
      → render_of digest c.token Audience.preview db'.renders
        ≡ some (
          new_id,
          preview_row viewer_id u dashboard_id d revision_id now expires_at (digest c.token),
        )
  unfolding render_of
  preview_found viewer_id dashboard_id revision_id now expires_at at new_id db db' c d u revision
        made fresh =
      let n = preview_row viewer_id u dashboard_id d revision_id now expires_at (digest c.token) in
      rw made.written (
        find_row-insert
          (λ r.
            text_eq r.token_digest (digest c.token) && same_audience r.audience Audience.preview)
          new_id n db.renders fresh
          (any_row_weaken (λ r. text_eq r.token_digest (digest c.token))
            (λ r. same_audience r.audience Audience.preview) db.renders made.unused)
          (ground (arith, text_eq_refl (digest c.token))))

  -- The bearer of a preview credential resolves it to the authorization just issued, until it
  -- expires, five minutes after the issue, where the new identifier is unused.
  pub preview_resolves :
      (new_id now issued_at dashboard_id revision_id viewer_id at : ℕ) (db db' : Db)
      (c : Credential)
      → lookup new_id db.renders ≡ none
      → issue_owner_preview digest draw new_id now issued_at dashboard_id revision_id viewer_id db
        ≡ ok (c, db')
      → at < issued_at + seconds ttl_seconds
      → resolve_render_authorization digest c.token Audience.preview at db' ≡ ok new_id
  unfolding issue_owner_preview resolve_render_authorization active_user complete_revision
      record_event
  preview_resolves new_id now issued_at dashboard_id revision_id viewer_id at db db' c fresh h t =
      elim (Option-cases (lookup dashboard_id db.dashboards)) [
        | inl e ↦ absurd (ground arith)
        | inr (d, e) ↦ elim (Option-cases (lookup viewer_id db.users)) [
          | inl f ↦ absurd (ground arith)
          | inr (u, f) ↦ elim (Option-cases (lookup revision_id db.revisions)) [
            | inl g ↦ absurd (ground arith)
            | inr (revision, g) ↦
                let row =
                  preview_row viewer_id u dashboard_id d revision_id now
                    (issued_at + seconds ttl_seconds) in
                elim (Result-cases (create_round digest token_attempts draw new_id row d u db)) [
                  | inr (x, p) ↦ absurd (ground arith)
                  | inl ((k, mid), p) ↦
                      let made = create_round-Created token_attempts new_id row d u db mid k p in
                      let same : k ≡ c = ground arith in
                      let found =
                        preview_found viewer_id dashboard_id revision_id now
                          (issued_at + seconds ttl_seconds) at new_id db mid k d u revision made
                          fresh in
                      let alive =
                        preview_row-is_current viewer_id dashboard_id revision_id now
                          (issued_at + seconds ttl_seconds) at (digest k.token) db d u revision
                          (ground arith) (ground arith) (ground arith) (ground arith) (ground arith)
                          (ground arith) t in
                      ground (arith, made.token, made.written, found, alive)
                ]
          ]
        ]
      ]

-- ===== src/Render.antt =====
-- rendering/authorization.py: bearer credentials for one revision of a dashboard. The digest
-- (SHA-256) and the tokens that are drawn are parameters.
pub mod Checks
pub mod Issued
pub mod Scope
pub mod Viewed
pub mod Ended
use prj_app.Base.{
  ℕ, zero, suc, ◌+◌, Bool, true, false, not, ◌&&◌, ◌||◌, Option, none, some, [], ◌∷◌, Text, Table,
  ltb, leb, ◌==◌, if◌then◌else◌, is_none, is_some, opt_eq, text_eq, lookup, insert, find_row,
  any_row, Result, ok, err, Error, ◌>>=◌, ◌>>◌, raise_if, or_raise, all, length,
}
use prj_app.Model.{
  Db, User, Dashboard, Revision, ViewerGrant, RenderAuthorization, Audience, Event, seconds,
  is_viewer, is_published, is_archived, is_deleted,
}
use prj_app.Store.{active_user, active_grant, record_event}
use prj_app.Access.{user_can_view_published}
use prj_app.Publication.{complete_revision}
use prj_app.RenderRow.{save_new_render}
use prj_app.Capture.{grant_row, capture_authorized_open}

-- `_TOKEN_PATTERN`: 43 letters, digits, `_` or `-`
unfoldable pub is_token_char : ℕ → Bool
is_token_char c =
    (leb b'A' c && leb c b'Z')
    || ((leb b'a' c && leb c b'z') || ((leb b'0' c && leb c b'9') || (c == b'_' || c == b'-')))

unfoldable pub is_token : Text → Bool
is_token token = all is_token_char token && length token == 43

abbrev pub same_audience : Audience → Audience → Bool
same_audience Audience.viewer a = is_viewer a
same_audience Audience.preview a = not (is_viewer a)

-- `AGORA_RENDER_AUTH_TTL_SECONDS` of settings/base.py
abbrev pub ttl_seconds : ℕ
ttl_seconds = 300

abbrev pub token_attempts : ℕ
token_attempts = 3

-- The row that an issue writes; `now` is the time of the row's creation.
abbrev pub new_render :
    Text → Audience → ℕ → User → Option ℕ → ℕ → Dashboard → ℕ → ℕ → ℕ → RenderAuthorization
new_render digest audience viewer_id viewer grant dashboard_id d revision_id now expires_at =
    record {
      token_digest = digest;
      audience = audience;
      viewer = viewer_id;
      viewer_auth_version = viewer.auth_version;
      dashboard = dashboard_id;
      revision = revision_id;
      viewer_grant = grant;
      owner_transfer_epoch = if is_none grant then d.last_ownership_transfer else none;
      publication_version = if is_viewer audience then some d.publication_version else none;
      created_at = now;
      expires_at = expires_at;
      revoked_at = none;
      authorized_open_captured_at = none;
    }

pub record Credential : Type 0 where
  pub token : Text
  pub audience : Audience
  pub expires_at : ℕ

module _ (digest : Text → Text) where
  -- The rounds that are left of `_create_authorization`. A digest that is stored already breaks the
  -- unique index, and the next token is drawn.
  unfoldable pub create_round :
      ℕ
      → (ℕ → Text)
      → ℕ
      → (Text → RenderAuthorization)
      → Dashboard
      → User
      → Db
      → Result (Credential × Db)
  create_round zero draw new_id row d viewer db = err Error.render_unavailable
  create_round (suc n) draw new_id row d viewer db =
      let rest = create_round n draw new_id row d viewer db in
      let attempt : Result (Credential × Db) = (do
        r ← save_new_render db d viewer (row (digest (draw n)))
        ok (
          record { token = draw n; audience = r.audience; expires_at = r.expires_at },
          record db { renders = insert new_id r db.renders },
        )) in
      if any_row (λ r. text_eq r.token_digest (digest (draw n))) db.renders then rest else attempt

  -- `issue_owner_preview`
  unfoldable pub issue_owner_preview :
      (ℕ → Text) → ℕ → ℕ → ℕ → ℕ → ℕ → ℕ → Db → Result (Credential × Db)
  issue_owner_preview draw new_id now issued_at dashboard_id revision_id viewer_id db = do
    d ← or_raise (lookup dashboard_id db.dashboards) Error.render_denied
    raise_if (is_archived d.state || is_deleted d.state) Error.render_denied
    viewer ← or_raise (active_user viewer_id db.users) Error.render_denied
    revision ←
        or_raise (complete_revision revision_id dashboard_id db.revisions) Error.render_denied
    raise_if (not (d.owner == viewer_id)) Error.render_denied
    (credential, created) ←
        create_round token_attempts draw new_id
          (λ x.
            new_render x Audience.preview viewer_id viewer none dashboard_id d revision_id now
              (issued_at + seconds ttl_seconds))
          d viewer db
    ok (
      credential,
      record_event
          (record {
            event = Event.preview_started;
            actor = some viewer_id;
            dashboard = some dashboard_id;
            revision = some revision_id;
            target_user = none;
          })
          created,
    )

  -- The capture that ends `issue_published_view`.
  unfoldable pub captured : ℕ → ℕ → ℕ → Credential → Db → Result (Credential × Db)
  captured open_id state_id new_id credential db =
      elim (capture_authorized_open open_id state_id new_id db) [
        | err e ↦ err Error.render_denied
        | ok (done, db') ↦ if done then ok (credential, db') else err Error.render_unavailable
      ]

  -- `issue_published_view`
  unfoldable pub issue_published_view :
      (ℕ → Text) → ℕ → ℕ → ℕ → ℕ → ℕ → ℕ → ℕ → Db → Result (Credential × Db)
  issue_published_view draw new_id open_id state_id now issued_at dashboard_id viewer_id db = do
    d ← or_raise (lookup dashboard_id db.dashboards) Error.render_denied
    raise_if (not (is_published d.state)) Error.render_denied
    revision_id ← or_raise d.published_revision Error.render_denied
    viewer ← or_raise (active_user viewer_id db.users) Error.render_denied
    let grant : Option (ℕ × ViewerGrant) =
        if d.owner == viewer_id then none else active_grant dashboard_id viewer_id db.grants
    raise_if
        (not (
          user_can_view_published dashboard_id d viewer_id viewer
            (elim grant [ none ↦ none | some (_, g) ↦ some g ]) db.grants))
        Error.render_denied
    (credential, created) ←
        create_round token_attempts draw new_id
          (λ x.
            new_render x Audience.viewer viewer_id viewer
              (elim grant [ none ↦ none | some (id, _) ↦ some id ]) dashboard_id d revision_id now
              (issued_at + seconds ttl_seconds))
          d viewer db
    captured open_id state_id new_id credential created

  -- `filter(token_digest=…, audience=…).first()`
  unfoldable pub render_of :
      Text → Audience → Table RenderAuthorization → Option (ℕ × RenderAuthorization)
  render_of token audience renders =
      find_row (λ r. text_eq r.token_digest (digest token) && same_audience r.audience audience)
        renders

-- The branch of `_authorization_is_current` for a view. The grant that a row names is always stored,
-- as the foreign key demands; the model has no current view without it.
unfoldable pub view_is_current : Table ViewerGrant → Dashboard → User → RenderAuthorization → Bool
view_is_current grants d viewer r =
    if not (opt_eq d.published_revision (some r.revision))
      || not (opt_eq (some d.publication_version) r.publication_version)
    then false
    else if d.owner == r.viewer
    then is_none r.viewer_grant && opt_eq r.owner_transfer_epoch d.last_ownership_transfer
    else if is_none r.viewer_grant || is_some r.owner_transfer_epoch
    then false
    else elim (grant_row grants r.viewer_grant) [
      | none ↦ false
      | some g ↦ user_can_view_published r.dashboard d r.viewer viewer (some g) grants
    ]

-- The branch for a preview.
unfoldable pub preview_is_current : Dashboard → RenderAuthorization → Bool
preview_is_current d r =
    is_none r.viewer_grant
    && (d.owner == r.viewer
        && (opt_eq r.owner_transfer_epoch d.last_ownership_transfer
            && not (is_archived d.state || is_deleted d.state)))

-- `_authorization_is_current`, over the rows that the authorization names.
unfoldable pub is_current :
    Table ViewerGrant → Dashboard → Revision → User → RenderAuthorization → ℕ → Bool
is_current grants d revision viewer r checked_at =
    if is_some r.revoked_at
      || (leb r.expires_at checked_at
          || (not viewer.is_active
              || (not (viewer.auth_version == r.viewer_auth_version)
                  || (not revision.artifacts_locked || not (revision.dashboard == r.dashboard)))))
    then false
    else if is_viewer r.audience
    then view_is_current grants d viewer r
    else preview_is_current d r

-- `resolve_render_authorization`: the identifier of the authorization.
unfoldable pub resolve_render_authorization : (Text → Text) → Text → Audience → ℕ → Db → Result ℕ
resolve_render_authorization digest token audience checked_at db = do
  raise_if (not (is_token token)) Error.render_denied
  (id, r) ← or_raise (render_of digest token audience db.renders) Error.render_denied
  d ← or_raise (lookup r.dashboard db.dashboards) Error.render_denied
  revision ← or_raise (lookup r.revision db.revisions) Error.render_denied
  viewer ← or_raise (lookup r.viewer db.users) Error.render_denied
  raise_if (not (is_current db.grants d revision viewer r checked_at)) Error.render_denied
  ok id

-- `revoke_render_authorization`
unfoldable pub revoke_render_authorization : ℕ → ℕ → Db → Db
revoke_render_authorization now id db = elim (lookup id db.renders) [
  | none ↦ db
  | some r ↦
      if is_some r.revoked_at
      then db
      else record db { renders = insert id (record r { revoked_at = some now }) db.renders }
]

-- ===== src/Tests/World.antt =====
-- The sample tables, and what they satisfy.
use prj_app.Base.{
  ℕ, ◌≡◌, refl, Bool, true, false, ◌||◌, ◌&&◌, none, some, [], ◌∷◌, Text, ltb, leb, ◌==◌,
  if◌then◌else◌, lookup, insert, Result, ok, err, arith, Distinct, find_row, any_row, count_rows,
  all, text_eq, drop_while, strip, map,
}
use prj_app.Model.{
  Db, User, Dashboard, Revision, ViewerGrant, AccessRequest, RenderAuthorization, State, Status,
  Audience,
}
use prj_app.Unicode.{Unicode, Category}
use prj_app.Names
use prj_app.ShortText
use prj_app.Lifecycle
use prj_app.Lifecycle.{full_clean}
use prj_app.Store
use prj_app.Access
use prj_app.Access.Grants.{GrantsValid}
use prj_app.Publication
use prj_app.Publication.Outcome.{DashboardsValid}
use prj_app.RequestRow
use prj_app.RequestRow.{resolution_match}
use prj_app.Requests
use prj_app.Requests.Invariant.{RequestsValid}
use prj_app.Ownership
use prj_app.RenderRow
use prj_app.Capture
use prj_app.Render
use prj_app.Users
use prj_app.Login

-- Named on an `unfolding` line, it opens what the samples run through.
unfoldable pub opened : Bool
unfolding lookup insert find_row any_row count_rows all text_eq drop_while strip
    Names.is_ascii_space Names.upper Names.is_alphanumeric Names.is_soeid_char Names.matches_soeid
    Names.canonicalize_soeid Names.split Names.join ShortText.is_permitted
    ShortText.normalize_short_text ShortText.normalize_access_request_message Lifecycle.valid_fields
    Lifecycle.freshness_valid Lifecycle.belongs Lifecycle.publication_state
    Lifecycle.publication_history Lifecycle.version_time Lifecycle.published_versioned
    Lifecycle.full_clean Lifecycle.allowed Lifecycle.stable_fields Lifecycle.check_first
    Lifecycle.moved_back Lifecycle.check_advanced Lifecycle.check_kept Lifecycle.check_transition
    Lifecycle.advance Lifecycle.save Lifecycle.save_new Store.active_user Store.active_grant
    Store.has_active_grant Store.lock_active_owner Store.lock_current_owner Store.record_event
    Store.grant_event Store.save_new_grant Store.save_grant Store.open_grant Store.close_grant
    Access.user_by_soeid Access.grant_project_viewer Access.grant_of Access.revoke_project_viewer
    Access.user_can_view_published Publication.freshness_seconds Publication.apply_freshness
    Publication.complete_revision Publication.after_save Publication.store_dashboard
    Publication.published_row Publication.is_backward Publication.publish_dashboard_revision
    Publication.unpublish_dashboard Publication.confirm_dashboard_freshness
    Publication.create_project Publication.rename_project RequestRow.resolution_match
    RequestRow.save_new_request RequestRow.check_resolution RequestRow.check_reopening
    RequestRow.check_stable RequestRow.check_request RequestRow.save_request Requests.after_request
    Requests.reopened_at Requests.store_request Requests.request_dashboard_access
    Requests.request_of Requests.approve_grant Requests.store_resolution
    Requests.resolve_dashboard_access_request Ownership.save_new_transfer Ownership.is_expected
    Ownership.close_incoming Ownership.approve_incoming Ownership.update_owner Ownership.hand_over
    Ownership.transfer_dashboard_ownership RenderRow.version_matches RenderRow.revision_matches
    RenderRow.epoch_matches RenderRow.grant_matches RenderRow.save_new_render Capture.grant_row
    Capture.can_source_open Capture.advance_viewer_state Capture.store_open
    Capture.capture_authorized_open Render.is_token_char Render.is_token Render.create_round
    Render.issue_owner_preview Render.captured Render.issue_published_view Render.render_of
    Render.view_is_current Render.preview_is_current Render.is_current
    Render.resolve_render_authorization Render.revoke_render_authorization Users.is_canonical
    Users.valid_user Users.next_version Users.save_user Users.user_event Users.after_user
    Users.require_administrator Users.disable_user Users.enable_user Users.set_validated_password
    Users.reset_user_password Users.save_new_user Users.provision_user
    Users.bootstrap_first_administrator Login.refresh Login.lock_throttle_buckets Login.is_blocked
    Login.any_blocked Login.fail Login.register_failure Login.remove Login.bucket_hashes
    Login.try_canonicalize Login.known_user Login.conclude Login.authenticate
    Login.authenticate_login
opened = true

-- ASCII text, for which the normal forms and the folding change nothing that the samples use.
abbrev pub ascii : Unicode
ascii = record {
  category = λ c. if ltb c 32 then Category.control else Category.other;
  is_space = λ c. c == 32 || (leb 9 c && leb c 13);
  nfkc = λ s. s;
  casefold = λ s. s;
  nfc = λ s. s;
  upper = map Names.upper;
}

abbrev pub user : Text → Bool → User
user soeid admin = record {
  soeid = soeid;
  password = 1 ∷ [];
  is_active = true;
  is_administrator = admin;
  auth_version = 1;
}

abbrev pub complete : ℕ → Revision
complete number = record {
  dashboard = 10;
  number = number;
  created_by = 1;
  artifacts_locked = true;
}

-- Dashboard 10 of user 1 shows revision 20 as its first release.
abbrev pub board : Dashboard
board = record {
  owner = 1;
  name = b'B' ∷ [];
  description = [];
  state = State.published;
  latest_revision = some 21;
  published_revision = some 20;
  first_published_at = some 100;
  publication_version = 1;
  last_published_at = some 100;
  publication_note = [];
  data_as_of = none;
  freshness_interval_seconds = none;
  freshness_confirmed_at = none;
  stale_after = none;
  last_ownership_transfer = none;
}

-- Grant 30 lets user 2 view it.
abbrev pub held : ViewerGrant
held = record { dashboard = 10; viewer = 2; created_by = 1; revoked_at = none; revoked_by = none }

-- Request 40 is user 3's.
abbrev pub asked_for : AccessRequest
asked_for = record {
  dashboard = 10;
  requester = 3;
  status = Status.pending;
  message = [];
  requested_at = 110;
  resolved_at = none;
  resolved_by = none;
}

-- A token of 43 equal characters.
abbrev pub repeated : ℕ → ℕ → Text
repeated ℕ.zero c = []
repeated (ℕ.suc n) c = c ∷ repeated n c

abbrev pub token : ℕ → Text
token c = repeated 43 c

-- Credential 50 is user 2's view under the grant, 51 the owner's preview.
abbrev pub view_row : RenderAuthorization
view_row = record {
  token_digest = token b'a';
  audience = Audience.viewer;
  viewer = 2;
  viewer_auth_version = 1;
  dashboard = 10;
  revision = 20;
  viewer_grant = some 30;
  owner_transfer_epoch = none;
  publication_version = some 1;
  created_at = 120;
  expires_at = 1000;
  revoked_at = none;
  authorized_open_captured_at = some 120;
}

abbrev pub preview_row : RenderAuthorization
preview_row = record {
  token_digest = token b'b';
  audience = Audience.preview;
  viewer = 1;
  viewer_auth_version = 1;
  dashboard = 10;
  revision = 21;
  viewer_grant = none;
  owner_transfer_epoch = none;
  publication_version = none;
  created_at = 130;
  expires_at = 1000;
  revoked_at = none;
  authorized_open_captured_at = none;
}

abbrev pub world : Db
world = record {
  users =
      (1, user (b'A' ∷ []) true) ∷ (2, user (b'B' ∷ []) true) ∷ (3, user (b'C' ∷ []) false) ∷ [];
  dashboards = (10, board) ∷ [];
  revisions = (20, complete 1) ∷ (21, complete 2) ∷ [];
  grants = (30, held) ∷ [];
  requests = (40, asked_for) ∷ [];
  transfers = [];
  renders = (50, view_row) ∷ (51, preview_row) ∷ [];
  opens = [];
  viewer_states = [];
  audit = [];
}

abbrev pub same_text : Text → Text
same_text s = s

-- The tables of a successful service.
abbrev pub tables : Result Db → Db
tables (ok db) = db
tables (err e) = world

pub world-DashboardsValid : DashboardsValid world
unfolding lookup
world-DashboardsValid id d e = ground (arith, board_clean)
  where
    board_clean : full_clean world.revisions 10 board ≡ ok tt
    board_clean = unfold opened in refl

pub world-GrantsValid : GrantsValid world
unfolding lookup
world-GrantsValid = record {
  distinct = (refl, tt);
  unique = λ i j g h. ground arith;
  owner_free = λ i g d. ground arith;
  others = λ i g. ground arith;
}

pub world-RequestsValid : RequestsValid world
unfolding lookup resolution_match
world-RequestsValid = record {
  distinct = (refl, tt);
  unique = λ i j r s. ground arith;
  matched = λ i r. ground arith;
  owner_asks_not = λ i r d. ground arith;
}

pub world-renders : Distinct world.renders
unfolding lookup
world-renders = (refl, (refl, tt))

-- ===== src/Model.antt =====
-- The rows of core/models.py, each without its primary key, which is the key of its table.
-- Instants and durations are whole microseconds. The bookkeeping columns `created_at` (but for
-- render authorizations) and `updated_at` are left out: no modelled operation reads them.
use prj_app.Base.{ℕ, Bool, true, false, Option, List, Text, Table, ◌==◌, ◌*◌}

-- `timedelta(seconds=n)`
abbrev pub seconds : ℕ → ℕ
seconds n = n * 1000000

-- `User`. `password` is the stored hash.
pub record User : Type 0 where
  pub soeid : Text
  pub password : Text
  pub is_active : Bool
  pub is_administrator : Bool
  pub auth_version : ℕ

-- `Dashboard.State`
pub data State : Type 0 where
  draft published unpublished archived deleted : State

-- `Dashboard`
pub record Dashboard : Type 0 where
  pub owner : ℕ
  pub name : Text
  pub description : Text
  pub state : State
  pub latest_revision : Option ℕ
  pub published_revision : Option ℕ
  pub first_published_at : Option ℕ
  pub publication_version : ℕ
  pub last_published_at : Option ℕ
  pub publication_note : Text
  pub data_as_of : Option ℕ
  pub freshness_interval_seconds : Option ℕ
  pub freshness_confirmed_at : Option ℕ
  pub stale_after : Option ℕ
  pub last_ownership_transfer : Option ℕ

-- `Revision`
pub record Revision : Type 0 where
  pub dashboard : ℕ
  pub number : ℕ
  pub created_by : ℕ
  pub artifacts_locked : Bool

-- `ViewerGrant`
pub record ViewerGrant : Type 0 where
  pub dashboard : ℕ
  pub viewer : ℕ
  pub created_by : ℕ
  pub revoked_at : Option ℕ
  pub revoked_by : Option ℕ

-- `AccessRequest.Status`
pub data Status : Type 0 where
  pending approved denied cancelled : Status

-- `AccessRequest`
pub record AccessRequest : Type 0 where
  pub dashboard : ℕ
  pub requester : ℕ
  pub status : Status
  pub message : Text
  pub requested_at : ℕ
  pub resolved_at : Option ℕ
  pub resolved_by : Option ℕ

-- `DashboardOwnershipTransfer`
pub record OwnershipTransfer : Type 0 where
  pub dashboard : ℕ
  pub from_owner : ℕ
  pub to_owner : ℕ
  pub previous_transfer : Option ℕ

-- `RenderAuthorization.Audience`
pub data Audience : Type 0 where
  preview viewer : Audience

-- `RenderAuthorization`
pub record RenderAuthorization : Type 0 where
  pub token_digest : Text
  pub audience : Audience
  pub viewer : ℕ
  pub viewer_auth_version : ℕ
  pub dashboard : ℕ
  pub revision : ℕ
  pub viewer_grant : Option ℕ
  pub owner_transfer_epoch : Option ℕ
  pub publication_version : Option ℕ
  pub created_at : ℕ
  pub expires_at : ℕ
  pub revoked_at : Option ℕ
  pub authorized_open_captured_at : Option ℕ

-- `AuthorizedOpen`
pub record AuthorizedOpen : Type 0 where
  pub source_authorization : ℕ
  pub dashboard : ℕ
  pub viewer : ℕ
  pub revision : ℕ
  pub publication_version : ℕ
  pub opened_at : ℕ
  pub aggregated_at : Option ℕ

-- `DashboardViewerState`
pub record ViewerState : Type 0 where
  pub user : ℕ
  pub dashboard : ℕ
  pub last_viewed_at : ℕ
  pub seen_publication_version : ℕ

-- The event types that the services write, and their metadata.
pub data Event : Type 0 where
  dashboard_created dashboard_renamed : Event
  tags_replaced : ℕ → Event
  revision_created : ℕ → ℕ → Event
  grant_created grant_revoked : ℕ → Event
  access_requested : ℕ → Bool → Event
  access_resolved : ℕ → Status → Event
  ownership_transferred : ℕ → Event
  dashboard_published : ℕ → Bool → Event
  dashboard_unpublished : ℕ → Event
  freshness_confirmed : Bool → Event
  preview_started : Event
  login_succeeded bootstrap user_created user_disabled user_enabled password_reset : Event

-- `AuditEvent`
pub record AuditEvent : Type 0 where
  pub event : Event
  pub actor : Option ℕ
  pub dashboard : Option ℕ
  pub revision : Option ℕ
  pub target_user : Option ℕ

-- The tables that the services read and write.
pub record Db : Type 0 where
  pub users : Table User
  pub dashboards : Table Dashboard
  pub revisions : Table Revision
  pub grants : Table ViewerGrant
  pub requests : Table AccessRequest
  pub transfers : Table OwnershipTransfer
  pub renders : Table RenderAuthorization
  pub opens : Table AuthorizedOpen
  pub viewer_states : Table ViewerState
  -- newest first
  pub audit : List AuditEvent

abbrev pub is_published : State → Bool
is_published State.published = true
is_published _ = false

abbrev pub is_draft : State → Bool
is_draft State.draft = true
is_draft _ = false

abbrev pub is_archived : State → Bool
is_archived State.archived = true
is_archived _ = false

abbrev pub is_deleted : State → Bool
is_deleted State.deleted = true
is_deleted _ = false

abbrev pub status_code : Status → ℕ
status_code Status.pending = 0
status_code Status.approved = 1
status_code Status.denied = 2
status_code Status.cancelled = 3

abbrev pub same_status : Status → Status → Bool
same_status s t = status_code s == status_code t

abbrev pub is_viewer : Audience → Bool
is_viewer Audience.viewer = true
is_viewer Audience.preview = false

abbrev pub is_pending : Status → Bool
is_pending Status.pending = true
is_pending _ = false

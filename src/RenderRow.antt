-- ===== src/RenderRow.antt =====
-- `RenderAuthorization.save` of a new row, of core/models.py: `clean` with the constraints that
-- concern the scope. The format of the digest is that of SHA-256, which is a parameter.
use prj_app.Base.{
  Bool, true, false, not, ◌&&◌, ◌||◌, none, some, Table, ltb, ◌==◌, if◌then◌else◌, is_none, is_some,
  opt_eq, lookup, Result, ok, Error, ◌>>◌, raise_if,
}
use prj_app.Model.{
  Db, User, Dashboard, Revision, ViewerGrant, OwnershipTransfer, RenderAuthorization, is_viewer,
}

-- A preview has no version, a view a positive one.
unfoldable pub version_matches : RenderAuthorization → Bool
version_matches r =
    if is_viewer r.audience
    then elim r.publication_version [ none ↦ false | some v ↦ ltb 0 v ]
    else is_none r.publication_version

-- The revision belongs to the dashboard.
unfoldable pub revision_matches : Table Revision → RenderAuthorization → Bool
revision_matches revisions r = elim (lookup r.revision revisions) [
  | none ↦ false
  | some revision ↦ revision.dashboard == r.dashboard
]

-- An ownership epoch belongs to the dashboard, and excludes a grant.
unfoldable pub epoch_matches : Table OwnershipTransfer → RenderAuthorization → Bool
epoch_matches transfers r = elim r.owner_transfer_epoch [
  | none ↦ true
  | some epoch ↦ elim (lookup epoch transfers) [
    | none ↦ false
    | some marker ↦ marker.dashboard == r.dashboard && is_none r.viewer_grant
  ]
]

-- A grant is an active one of this viewer; a view without a grant is the owner's.
unfoldable pub grant_matches : Table ViewerGrant → Dashboard → RenderAuthorization → Bool
grant_matches grants d r = elim r.viewer_grant [
  | none ↦ not (is_viewer r.audience) || r.viewer == d.owner
  | some id ↦ elim (lookup id grants) [
    | none ↦ false
    | some g ↦
        is_viewer r.audience
        && (g.dashboard == r.dashboard && (g.viewer == r.viewer && is_none g.revoked_at))
  ]
]

unfoldable pub save_new_render :
    Db → Dashboard → User → RenderAuthorization → Result RenderAuthorization
save_new_render db d viewer r = do
  raise_if (is_some r.authorized_open_captured_at) Error.validation_failed
  raise_if (not (version_matches r)) Error.validation_failed
  raise_if (not (revision_matches db.revisions r)) Error.validation_failed
  raise_if (not (epoch_matches db.transfers r)) Error.validation_failed
  raise_if (not (grant_matches db.grants d r)) Error.validation_failed
  raise_if (r.viewer == d.owner && not (opt_eq r.owner_transfer_epoch d.last_ownership_transfer))
      Error.validation_failed
  raise_if (not (r.viewer_auth_version == viewer.auth_version)) Error.validation_failed
  raise_if (not (ltb 0 r.viewer_auth_version)) Error.validation_failed
  ok r

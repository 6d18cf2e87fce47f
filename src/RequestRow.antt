-- ===== src/RequestRow.antt =====
-- `AccessRequest.save` of core/models.py with its checks. Of `full_clean`, `clean` and the
-- constraint on the resolution are modelled.
use prj_app.Base.{
  ℕ, Bool, true, false, not, ◌&&◌, ◌||◌, some, Table, leb, ◌==◌, if◌then◌else◌, is_none, is_some,
  opt_eq, text_eq, Result, ok, Error, ◌>>◌, raise_if,
}
use prj_app.Model.{
  User, Dashboard, AccessRequest, Status, State, is_published, is_pending, same_status,
}
use prj_app.Store.{active_user}

abbrev pub is_active : ℕ → Table User → Bool
is_active id users = is_some (active_user id users)

-- `AccessRequest.clean`, with the constraint `agora_access_resolution_match`
unfoldable pub resolution_match : AccessRequest → Bool
resolution_match r =
    if is_pending r.status
    then is_none r.resolved_at && is_none r.resolved_by
    else is_some r.resolved_at && is_some r.resolved_by

-- `AccessRequest.save` of a new row of a dashboard.
unfoldable pub save_new_request : Table User → Dashboard → AccessRequest → Result AccessRequest
save_new_request users d r = do
  raise_if (not (is_pending r.status)) Error.validation_failed
  raise_if (r.requester == d.owner) Error.validation_failed
  raise_if (not (is_published d.state) || not (is_active d.owner users)) Error.validation_failed
  raise_if (not (is_active r.requester users)) Error.validation_failed
  raise_if (not (resolution_match r)) Error.validation_failed
  ok r

abbrev pub is_approvable : State → Bool
is_approvable State.published = true
is_approvable State.unpublished = true
is_approvable _ = false

-- The branch of `_validate_transition` for a stored pending request.
unfoldable pub check_resolution :
    Table User → Dashboard → AccessRequest → AccessRequest → Result (Unit {0})
check_resolution users d original r =
    if is_pending r.status
    then raise_if (not (r.requested_at == original.requested_at)) Error.immutable_record
    else do
      raise_if
          (not (
              opt_eq r.resolved_by
                (some (if same_status r.status Status.cancelled then r.requester else d.owner)))
            || is_none r.resolved_at)
          Error.validation_failed
      raise_if
          (same_status r.status Status.approved
            && (not (is_approvable d.state)
                || (not (is_active d.owner users) || not (is_active r.requester users))))
          Error.validation_failed
      raise_if
          (not (r.requested_at == original.requested_at)
            || not (text_eq r.message original.message))
          Error.immutable_record

-- The branch for a stored resolved request that is made pending again.
unfoldable pub check_reopening :
    Table User → Dashboard → AccessRequest → AccessRequest → Result (Unit {0})
check_reopening users d original r = do
  raise_if (leb r.requested_at original.requested_at) Error.validation_failed
  raise_if (is_some r.resolved_at || is_some r.resolved_by) Error.validation_failed
  raise_if (not (is_active r.requester users)) Error.validation_failed
  raise_if (r.requester == d.owner) Error.validation_failed
  raise_if (not (is_published d.state) || not (is_active d.owner users)) Error.validation_failed

-- The branch for a stored resolved request that stays resolved.
unfoldable pub check_stable : AccessRequest → AccessRequest → Result (Unit {0})
check_stable original r =
    raise_if
      (not (same_status r.status original.status)
        || (not (text_eq r.message original.message)
            || (not (r.requested_at == original.requested_at)
                || (not (opt_eq r.resolved_at original.resolved_at)
                    || not (opt_eq r.resolved_by original.resolved_by)))))
      Error.immutable_record

-- `_validate_transition`
unfoldable pub check_request :
    Table User → Dashboard → AccessRequest → AccessRequest → Result (Unit {0})
check_request users d original r = do
  raise_if (not (original.dashboard == r.dashboard) || not (original.requester == r.requester))
      Error.immutable_record
  if is_pending original.status
      then check_resolution users d original r
      else if is_pending r.status
      then check_reopening users d original r
      else check_stable original r

-- `AccessRequest.save` over a stored row.
unfoldable pub save_request :
    Table User → Dashboard → AccessRequest → AccessRequest → Result AccessRequest
save_request users d original r = do
  check_request users d original r
  raise_if (not (resolution_match r)) Error.validation_failed
  ok r

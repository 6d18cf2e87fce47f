-- ===== src/Ownership/Effect.antt =====
-- What a transfer of ownership does to the grants, the requests and the dashboards.
use prj_app.Base.{
  ℕ, ◌≡◌, refl, true, false, some, lookup, ok, arith, lookup-insert, inl, inr, Option-cases,
  any_row-find_row, find_row, find_row-none, find_row_sound,
}
use mathlib.Core.Path.{subst}
use prj_app.Model.{Db, Event, Dashboard, AccessRequest, ViewerGrant, Status}
use prj_app.Store.{
  active_grant, has_active_grant, is_active_for, close_grant, save_grant, record_event,
}
use prj_app.Access.Grants.{GrantsValid, close_grant-GrantsValid}
use prj_app.Access.Viewing.{revoked_no_other}
use prj_app.Requests.{after_request, resolved_request, request_event}
use prj_app.Requests.Invariant.{RequestsValid}
use prj_app.Requests.Resolving.{resolved-RequestsValid, save_request-cases}
use prj_app.Ownership.{close_incoming, approve_incoming, is_pending_of}

-- After `close_incoming`: the incoming owner holds no active grant of the dashboard.
pub record Closed (dashboard_id incoming : ℕ) (db db' : Db) : Type 0 where
  pub free : has_active_grant dashboard_id incoming db'.grants ≡ false
  pub valid : GrantsValid db'
  pub dashboards : db'.dashboards ≡ db.dashboards
  pub users : db'.users ≡ db.users
  pub requests : db'.requests ≡ db.requests
  pub transfers : db'.transfers ≡ db.transfers

close_grant-Closed :
    (now grant_id dashboard_id : ℕ) (d : Dashboard) (g : ViewerGrant) (actor : ℕ) (db db' : Db)
    → GrantsValid db
    → lookup grant_id db.grants ≡ some g
    → is_active_for g.dashboard g.viewer g ≡ true
    → close_grant now grant_id dashboard_id d g actor db ≡ ok db'
    → Closed g.dashboard g.viewer db db'
unfolding close_grant save_grant record_event
close_grant-Closed now grant_id dashboard_id d g actor db db' v e a h =
    let n : ViewerGrant = record g { revoked_at = some now; revoked_by = some actor } in
    let gone =
      revoked_no_other grant_id g n db.grants v.distinct v.unique e (ground arith) (λ x. cc) in
    record {
      free = ground (arith, gone);
      valid = close_grant-GrantsValid now grant_id dashboard_id d g actor db db' v h;
      dashboards = ground arith;
      users = ground arith;
      requests = ground arith;
      transfers = ground arith;
    }

pub close_incoming-Closed :
    (now dashboard_id : ℕ) (d : Dashboard) (incoming actor : ℕ) (db db' : Db)
    → GrantsValid db
    → close_incoming now dashboard_id d incoming actor db ≡ ok db'
    → Closed dashboard_id incoming db db'
unfolding close_incoming active_grant has_active_grant
close_incoming-Closed now dashboard_id d incoming actor db db' v h =
    elim (Option-cases (find_row (is_active_for dashboard_id incoming) db.grants)) [
      | inl e ↦
          let same : db ≡ db' = ground arith in
          subst (Closed dashboard_id incoming db) same (record {
            free = rw (any_row-find_row (is_active_for dashboard_id incoming) db.grants, e);
            valid = v;
            dashboards = refl;
            users = refl;
            requests = refl;
            transfers = refl;
          })
      | inr ((k, g), e) ↦
          let found =
            find_row_sound (is_active_for dashboard_id incoming) db.grants {k = k} {v = g}
              v.distinct e in
          let at_dashboard : g.dashboard ≡ dashboard_id = ground arith in
          let of_incoming : g.viewer ≡ incoming = ground arith in
          let closed =
            close_grant-Closed now k dashboard_id d g actor db db' v found.0 (ground arith)
              (ground arith) in
          subst (λ x. Closed x incoming db db') at_dashboard
            (subst (λ y. Closed g.dashboard y db db') of_incoming closed)
    ]

-- After `approve_incoming`: the incoming owner has no pending request for the dashboard.
pub record Approved (dashboard_id incoming : ℕ) (db db' : Db) : Type 0 where
  pub free :
      (i : ℕ) (r : AccessRequest)
      → lookup i db'.requests ≡ some r
      → is_pending_of dashboard_id incoming r ≡ false
  pub valid : RequestsValid db'
  pub dashboards : db'.dashboards ≡ db.dashboards
  pub users : db'.users ≡ db.users
  pub grants : db'.grants ≡ db.grants
  pub transfers : db'.transfers ≡ db.transfers

pub approve_incoming-Approved :
    (now dashboard_id : ℕ) (d : Dashboard) (incoming actor : ℕ) (db db' : Db)
    → RequestsValid db
    → approve_incoming now dashboard_id d incoming actor db ≡ ok db'
    → Approved dashboard_id incoming db db'
unfolding approve_incoming after_request record_event
approve_incoming-Approved now dashboard_id d incoming actor db db' v h =
    elim (Option-cases (find_row (is_pending_of dashboard_id incoming) db.requests)) [
      | inl e ↦
          let same : db ≡ db' = ground arith in
          subst (Approved dashboard_id incoming db) same (record {
            free = λ i r ir.
                find_row-none (is_pending_of dashboard_id incoming) db.requests i {v = r} e ir;
            valid = v;
            dashboards = refl;
            users = refl;
            grants = refl;
            transfers = refl;
          })
      | inr ((k, r), e) ↦
          let found =
            find_row_sound (is_pending_of dashboard_id incoming) db.requests {k = k} {v = r}
              v.distinct e in
          let n : AccessRequest = resolved_request Status.approved now actor r in
          let ends = save_request-cases db.users d r n in
          let event =
            request_event (Event.access_resolved k Status.approved) actor dashboard_id incoming in
          let kept = resolved-RequestsValid now k actor Status.approved r event db v found.0 refl in
          let shape : after_request k n event db ≡ db' = ground (arith, ends) in
          subst (Approved dashboard_id incoming db) shape (record {
            free = λ i s is. ground (arith, lookup-insert k i n db.requests, v.unique i k s r);
            valid = kept;
            dashboards = refl;
            users = refl;
            grants = refl;
            transfers = refl;
          })
    ]

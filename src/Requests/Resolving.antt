-- ===== src/Requests/Resolving.antt =====
-- `resolve_dashboard_access_request` on valid tables.
use prj_app.Base.{
  ℕ, ◌≡◌, refl, true, false, none, some, lookup, insert, ok, err, arith, lookup-insert,
  Result-cases, inl, inr, text_eq_refl, any_row_complete, ◌⊎◌, Error, Bool-cases, Table,
}
use mathlib.Core.Path.{subst}
use prj_app.Model.{
  Db, User, Dashboard, AccessRequest, ViewerGrant, Status, Event, AuditEvent, is_pending,
}
use prj_app.Store.{has_active_grant, open_grant, save_new_grant, record_event, is_active_for}
use prj_app.Access.Grants.{GrantsValid, open_grant-GrantsValid}
use prj_app.RequestRow.{is_active, resolution_match, save_request, check_request, check_resolution}
use prj_app.Requests.{
  request_of, approve_grant, resolved_request, store_resolution, after_request, request_event,
  resolve_dashboard_access_request,
}
use prj_app.Requests.Invariant.{RequestsValid, write_old-RequestsValid}

-- What approving leaves alone, and that it leaves the viewer with an active grant.
pub record Granted (dashboard_id requester : ℕ) (db db' : Db) : Type 0 where
  pub active : has_active_grant dashboard_id requester db'.grants ≡ true
  pub valid : GrantsValid db'
  pub dashboards : db'.dashboards ≡ db.dashboards
  pub users : db'.users ≡ db.users
  pub requests : db'.requests ≡ db.requests

pub open_grant-Granted :
    (new_id dashboard_id : ℕ) (d : Dashboard) (requester actor : ℕ) (db db' : Db)
    → GrantsValid db
    → lookup dashboard_id db.dashboards ≡ some d
    → has_active_grant dashboard_id requester db.grants ≡ false
    → open_grant new_id dashboard_id d requester actor db ≡ ok db'
    → Granted dashboard_id requester db db'
unfolding open_grant save_new_grant record_event has_active_grant
open_grant-Granted new_id dashboard_id d requester actor db db' v ed free h =
    let n : ViewerGrant = record {
      dashboard = dashboard_id;
      viewer = requester;
      created_by = actor;
      revoked_at = none;
      revoked_by = none;
    } in
    let seen =
      any_row_complete (is_active_for dashboard_id requester) (insert new_id n db.grants) new_id
        {v = n} in
    record {
      active = ground (arith, seen, lookup-insert new_id new_id n db.grants);
      valid = open_grant-GrantsValid new_id dashboard_id d requester actor db db' v ed free h;
      dashboards = ground arith;
      users = ground arith;
      requests = ground arith;
    }

approve_grant-Granted :
    (new_id dashboard_id : ℕ) (d : Dashboard) (requester actor : ℕ) (db db' : Db)
    → GrantsValid db
    → lookup dashboard_id db.dashboards ≡ some d
    → approve_grant new_id dashboard_id d requester actor db ≡ ok db'
    → Granted dashboard_id requester db db'
unfolding approve_grant
approve_grant-Granted new_id dashboard_id d requester actor db db' v ed h =
    elim (Bool-cases (has_active_grant dashboard_id requester db.grants)) [
      | inl held ↦
          let same : db ≡ db' = ground arith in
          subst (Granted dashboard_id requester db) same
            (record { active = held; valid = v; dashboards = refl; users = refl; requests = refl })
      | inr free ↦
          open_grant-Granted new_id dashboard_id d requester actor db db' v ed free (ground arith)
    ]

pub save_request-cases :
    (users : Table User) (d : Dashboard) (o r : AccessRequest)
    → (save_request users d o r ≡ ok r) ⊎ ((e : Error) × (save_request users d o r ≡ err e))
unfolding save_request
save_request-cases users d o r = elim (Result-cases (save_request users d o r)) [
  | inl (s, e) ↦ inl (ground arith)
  | inr x ↦ inr x
]

-- The tables after an approval, over those with the grant.
approved_from : ℕ → ℕ → ℕ → ℕ → AccessRequest → Db → Db
approved_from now dashboard_id request_id actor_id r db =
    after_request request_id (resolved_request Status.approved now actor_id r)
      (request_event (Event.access_resolved request_id Status.approved) actor_id dashboard_id
        r.requester)
      db

approval_inversion :
    (new_id now dashboard_id request_id actor_id : ℕ) (db db' : Db) (d : Dashboard)
    (r : AccessRequest)
    → lookup dashboard_id db.dashboards ≡ some d
    → lookup request_id db.requests ≡ some r
    → is_pending r.status ≡ true
    → resolve_dashboard_access_request new_id now dashboard_id request_id actor_id
        (some Status.approved)
        db
      ≡ ok db'
    → (mid : Db) × (approve_grant new_id dashboard_id d r.requester actor_id db ≡ ok mid)
      × (db' ≡ approved_from now dashboard_id request_id actor_id r mid)
      × (actor_id ≡ d.owner)
unfolding resolve_dashboard_access_request request_of store_resolution approved_from
approval_inversion new_id now dashboard_id request_id actor_id db db' d r ed er p h =
    elim (Result-cases (approve_grant new_id dashboard_id d r.requester actor_id db)) [
      | inl (mid, e) ↦ (
        mid,
        e,
        ground (
          arith,
          save_request-cases db.users d r (resolved_request Status.approved now actor_id r),
        ),
        ground arith,
      )
      | inr (x, e) ↦ absurd (ground arith)
    ]

-- Approving a pending request leaves the requester with an active grant, the grants valid, and the
-- request approved, by the owner and at that time.
pub approval_grants :
    (new_id now dashboard_id request_id actor_id : ℕ) (db db' : Db) (d : Dashboard)
    (r : AccessRequest)
    → GrantsValid db
    → lookup dashboard_id db.dashboards ≡ some d
    → lookup request_id db.requests ≡ some r
    → is_pending r.status ≡ true
    → resolve_dashboard_access_request new_id now dashboard_id request_id actor_id
        (some Status.approved)
        db
      ≡ ok db'
    → (has_active_grant dashboard_id r.requester db'.grants ≡ true)
      × GrantsValid db'
      × (lookup request_id db'.requests ≡ some (resolved_request Status.approved now actor_id r))
      × (actor_id ≡ d.owner)
unfolding approved_from after_request record_event
approval_grants new_id now dashboard_id request_id actor_id db db' d r v ed er p h =
    let (mid, e, shape, owner) =
      approval_inversion new_id now dashboard_id request_id actor_id db db' d r ed er p h in
    let g = approve_grant-Granted new_id dashboard_id d r.requester actor_id db mid v ed e in
    rw shape (
      g.active,
      record {
        distinct = g.valid.distinct;
        unique = g.valid.unique;
        owner_free = g.valid.owner_free;
        others = g.valid.others;
      },
      ground (
        arith,
        lookup-insert request_id request_id (resolved_request Status.approved now actor_id r)
            mid.requests,
      ),
      owner,
    )

pub resolved-RequestsValid :
    (now request_id actor_id : ℕ) (resolution : Status) (r : AccessRequest) (event : AuditEvent)
    (db : Db)
    → RequestsValid db
    → lookup request_id db.requests ≡ some r
    → is_pending resolution ≡ false
    → RequestsValid (after_request request_id (resolved_request resolution now actor_id r) event db)
unfolding resolution_match
resolved-RequestsValid now request_id actor_id resolution r event db v e p =
    write_old-RequestsValid request_id (resolved_request resolution now actor_id r) event db v
      (ground arith) (λ d q x. absurd (ground arith)) r e refl refl

pub refusal_succeeds :
    (new_id now dashboard_id request_id actor_id : ℕ) (resolution : Status) (db : Db)
    (d : Dashboard) (r : AccessRequest)
    → RequestsValid db
    → lookup dashboard_id db.dashboards ≡ some d
    → lookup request_id db.requests ≡ some r
    → r.dashboard ≡ dashboard_id
    → is_pending r.status ≡ true
    → is_active actor_id db.users ≡ true
    → ((resolution ≡ Status.denied) × (actor_id ≡ d.owner))
      ⊎ ((resolution ≡ Status.cancelled) × (actor_id ≡ r.requester))
    → let db' =
        after_request request_id
          (resolved_request resolution now actor_id r)
          (request_event
            (Event.access_resolved request_id resolution)
            actor_id
            dashboard_id
            r.requester)
          db in
      (resolve_dashboard_access_request new_id now dashboard_id request_id actor_id
          (some resolution)
          db
        ≡ ok db')
      × RequestsValid db'
unfolding resolve_dashboard_access_request request_of store_resolution save_request check_request
    check_resolution resolution_match
refusal_succeeds new_id now dashboard_id request_id actor_id resolution db d r v ed er same p a
      who =
    (
      ground (arith, text_eq_refl r.message),
      resolved-RequestsValid now request_id actor_id resolution r _ db v er (ground arith),
    )

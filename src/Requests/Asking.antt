-- ===== src/Requests/Asking.antt =====
-- `request_dashboard_access` on valid tables.
use prj_app.Base.{
  ℕ, ◌≡◌, ◌≢◌, ◌<◌, refl, sym, true, false, Option, none, some, Text, lookup, ok, arith, find_row,
  find_row_sound, insert, if◌then◌else◌, leb, ◌+◌, ◌∷◌, Bool-cases, Option-cases, inl, inr,
}
use prj_app.Model.{
  Db, Dashboard, AuditEvent, Status, AccessRequest, is_published, is_pending, Event,
}
use prj_app.Unicode.{Unicode}
use prj_app.ShortText.{normalize_access_request_message}
use prj_app.Store.{record_event, has_active_grant}
use prj_app.RequestRow.{
  is_active, resolution_match, save_new_request, save_request, check_request, check_reopening,
}
use prj_app.Requests.{
  is_request_of, reopened_at, new_request, reopened_request, store_request, after_request,
  request_event, request_dashboard_access,
}
use prj_app.Requests.Invariant.{RequestsValid, write_new-RequestsValid, write_old-RequestsValid}

reopened_at-lt : (now previous : ℕ) → previous < reopened_at now previous
unfolding reopened_at
reopened_at-lt now previous = ground arith

-- The tables after the stores of `request_dashboard_access`.
unfoldable stored : ℕ → ℕ → ℕ → ℕ → Text → Db → Option (ℕ × AccessRequest) → Db
stored new_id now dashboard_id requester_id message db none =
    after_request new_id (new_request dashboard_id requester_id message now)
      (request_event (Event.access_requested new_id false) requester_id dashboard_id requester_id)
      db
stored new_id now dashboard_id requester_id message db (some (id, old)) =
    elim (is_pending old.status) [
      | true ↦ db
      | false ↦
          after_request id (reopened_request message now old)
            (request_event (Event.access_requested id true) requester_id dashboard_id requester_id)
            db
    ]

-- The facts that the authorization checks of a request establish.
module _ (now dashboard_id requester_id : ℕ) (message : Text) (db : Db) (d : Dashboard)
    (public : is_published d.state ≡ true) (owned : is_active d.owner db.users ≡ true)
    (asker : is_active requester_id db.users ≡ true) (other : d.owner ≢ requester_id) where
  new_accepted :
      save_new_request db.users d (new_request dashboard_id requester_id message now)
      ≡ ok (new_request dashboard_id requester_id message now)
  unfolding save_new_request resolution_match
  new_accepted = ground arith

  reopened_accepted :
      (old : AccessRequest)
      → old.requester ≡ requester_id
      → is_pending old.status ≡ false
      → save_request db.users d old (reopened_request message now old)
        ≡ ok (reopened_request message now old)
  unfolding save_request check_request check_reopening resolution_match
  reopened_accepted old e p = ground (arith, reopened_at-lt now old.requested_at)

  store_request_lem :
      (new_id : ℕ)
      → RequestsValid db
      → store_request new_id now dashboard_id requester_id message d db
        ≡ ok (
            stored new_id now dashboard_id requester_id message db
              (find_row (is_request_of dashboard_id requester_id) db.requests))
  unfolding store_request stored
  store_request_lem new_id v =
      elim (Option-cases (find_row (is_request_of dashboard_id requester_id) db.requests)) [
        | inl e ↦ ground (arith, new_accepted)
        | inr ((id, old), e) ↦
            let found =
              find_row_sound (is_request_of dashboard_id requester_id) db.requests {k = id}
                {v = old} v.distinct e in
            ground (arith, reopened_accepted old)
      ]

  stored-RequestsValid :
      (new_id : ℕ)
      → lookup dashboard_id db.dashboards ≡ some d
      → RequestsValid db
      → RequestsValid (
          stored new_id now dashboard_id requester_id message db
            (find_row (is_request_of dashboard_id requester_id) db.requests))
  unfolding stored resolution_match
  stored-RequestsValid new_id ed v =
      elim (Option-cases (find_row (is_request_of dashboard_id requester_id) db.requests)) [
        | inl e ↦
            rw (e, stored)
              (write_new-RequestsValid new_id (new_request dashboard_id requester_id message now) _
                db v (ground arith) (λ f p q. ground arith) e)
        | inr ((id, old), e) ↦
            let found =
              find_row_sound (is_request_of dashboard_id requester_id) db.requests {k = id}
                {v = old} v.distinct e in
            let again =
              write_old-RequestsValid id (reopened_request message now old)
                (request_event (Event.access_requested id true) requester_id dashboard_id
                  requester_id)
                db v (ground arith) (λ f p q. ground arith) old found.0 refl refl in
            rw (e, stored) (ground (arith, again))
      ]

-- The audit event of a user who asks for access.
abbrev asking_event : Event → ℕ → ℕ → AuditEvent
asking_event event dashboard_id requester_id = record {
  event = event;
  actor = some requester_id;
  dashboard = some dashboard_id;
  revision = none;
  target_user = some requester_id;
}

-- What the tables are after asking: a new row, a pending row left alone, or a resolved one reopened.
unfoldable pub asked : ℕ → ℕ → ℕ → ℕ → Text → Db → Option (ℕ × AccessRequest) → Db
asked new_id now dashboard_id requester_id message db none = record db {
  requests =
      insert new_id
        (record {
          dashboard = dashboard_id;
          requester = requester_id;
          status = Status.pending;
          message = message;
          requested_at = now;
          resolved_at = none;
          resolved_by = none;
        })
        db.requests;
  audit = asking_event (Event.access_requested new_id false) dashboard_id requester_id ∷ db.audit;
}
asked new_id now dashboard_id requester_id message db (some (id, old)) =
    elim (is_pending old.status) [
      | true ↦ db
      | false ↦ record db {
        requests =
            insert id
              (record old {
                status = Status.pending;
                message = message;
                requested_at = if leb now old.requested_at then old.requested_at + 1 else now;
                resolved_at = none;
                resolved_by = none;
              })
              db.requests;
        audit = asking_event (Event.access_requested id true) dashboard_id requester_id ∷ db.audit;
      }
    ]

reopened_at-next :
    (now previous : ℕ) → reopened_at now previous ≡ (if leb now previous then previous + 1 else now)
unfolding reopened_at
reopened_at-next now previous = ground arith

stored-asked :
    (new_id now dashboard_id requester_id : ℕ) (message : Text) (db : Db)
    (found : Option (ℕ × AccessRequest))
    → stored new_id now dashboard_id requester_id message db found
      ≡ asked new_id now dashboard_id requester_id message db found
unfolding stored asked after_request record_event
stored-asked new_id now dashboard_id requester_id message db none = refl
stored-asked new_id now dashboard_id requester_id message db (some (id, old)) =
    elim (Bool-cases (is_pending old.status)) [
      | inl e ↦ rw (e, stored, asked) refl
      | inr e ↦ rw (e, reopened_at-next now old.requested_at, stored, asked) refl
    ]

-- With a message that is accepted and valid requests, asking for access to a published dashboard
-- of an active owner succeeds for every active user who is not the owner and holds no active grant.
-- A first request is stored as pending with the message; a pending one is left as it is; a
-- resolved one becomes pending again with the new message and without its resolution, at this time
-- or the next microsecond after the former request. The requests stay valid.
pub request_succeeds :
    (u : Unicode) (new_id now dashboard_id requester_id : ℕ) (text message : Text) (db : Db)
    (d : Dashboard)
    → RequestsValid db
    → normalize_access_request_message u text ≡ ok message
    → lookup dashboard_id db.dashboards ≡ some d
    → is_published d.state ≡ true
    → is_active d.owner db.users ≡ true
    → is_active requester_id db.users ≡ true
    → d.owner ≢ requester_id
    → has_active_grant dashboard_id requester_id db.grants ≡ false
    → let db' =
        asked new_id now dashboard_id requester_id message db
          (find_row (is_request_of dashboard_id requester_id) db.requests) in
      (request_dashboard_access u new_id now dashboard_id requester_id text db ≡ ok db')
      × RequestsValid db'
unfolding request_dashboard_access
request_succeeds u new_id now dashboard_id requester_id text message db d v en ed p o a ne free =
    let stored = store_request_lem now dashboard_id requester_id message db d p o a ne new_id v in
    let same =
      stored-asked new_id now dashboard_id requester_id message db
        (find_row (is_request_of dashboard_id requester_id) db.requests) in
    (
      ground arith,
      rw (sym same)
          (stored-RequestsValid now dashboard_id requester_id message db d p o a ne new_id ed v),
    )

-- A request for access that succeeds needs a published dashboard of an active owner, and an active user
-- that neither owns it nor holds an active grant.
pub request_requires :
    (u : Unicode) (new_id now dashboard_id requester_id : ℕ) (text : Text) (db db' : Db)
    → request_dashboard_access u new_id now dashboard_id requester_id text db ≡ ok db'
    → (d : Dashboard) × (lookup dashboard_id db.dashboards ≡ some d)
      × (is_published d.state ≡ true)
      × (is_active d.owner db.users ≡ true)
      × (is_active requester_id db.users ≡ true)
      × (d.owner ≢ requester_id)
      × (has_active_grant dashboard_id requester_id db.grants ≡ false)
unfolding request_dashboard_access
request_requires u new_id now dashboard_id requester_id text db db' h = ground arith

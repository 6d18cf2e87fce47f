-- ===== src/Ownership/Whole.antt =====
-- A whole transfer of ownership.
use prj_app.Base.{
  ℕ, ◌≡◌, ◌≢◌, true, some, lookup, insert, ok, arith, lookup-insert, Result-cases, inl, inr,
  any_row_none,
}
use prj_app.Model.{Db, Dashboard, Event}
use prj_app.Store.{has_active_grant, is_active_for, record_event}
use prj_app.Access.Grants.{GrantsValid}
use prj_app.RequestRow.{is_active}
use prj_app.Requests.{request_event}
use prj_app.Requests.Invariant.{RequestsValid}
use prj_app.Publication.{is_working}
use prj_app.Ownership.{
  Expected, is_expected, close_incoming, approve_incoming, handed_over, update_owner, new_transfer,
  save_new_transfer, hand_over, transfer_dashboard_ownership,
}
use prj_app.Ownership.Effect.{Closed, Approved, close_incoming-Closed, approve_incoming-Approved}

-- The tables at the end of a transfer, over those with the closed grant and the approved request.
ended : ℕ → ℕ → Dashboard → ℕ → ℕ → Db → Db
ended new_id dashboard_id d incoming actor db =
    record_event (request_event (Event.ownership_transferred new_id) actor dashboard_id incoming)
      (record db {
        dashboards = insert dashboard_id (handed_over new_id incoming d) db.dashboards;
        transfers = insert new_id (new_transfer dashboard_id actor incoming d) db.transfers;
      })

hand_over_inversion :
    (new_id now dashboard_id : ℕ) (d : Dashboard) (incoming actor : ℕ) (db db' : Db)
    → GrantsValid db
    → RequestsValid db
    → lookup dashboard_id db.dashboards ≡ some d
    → hand_over new_id now dashboard_id d incoming actor db ≡ ok db'
    → (closed approved : Db) × Closed dashboard_id incoming db closed
      × Approved dashboard_id incoming closed approved
      × (db' ≡ ended new_id dashboard_id d incoming actor approved)
unfolding hand_over save_new_transfer update_owner ended
hand_over_inversion new_id now dashboard_id d incoming actor db db' v w e h =
    elim (Result-cases (close_incoming now dashboard_id d incoming actor db)) [
      | inr (x, p) ↦ absurd (ground arith)
      | inl (closed, p) ↦
          let c = close_incoming-Closed now dashboard_id d incoming actor db closed v p in
          elim (Result-cases (approve_incoming now dashboard_id d incoming actor closed)) [
            | inr (x, q) ↦ absurd (ground arith)
            | inl (approved, q) ↦
                let requests : RequestsValid closed = record {
                  distinct = ground (arith, w.distinct, c.requests);
                  unique = λ i j r s. ground (arith, c.requests, w.unique i j r s);
                  matched = λ i r. ground (arith, c.requests, w.matched i r);
                  owner_asks_not =
                      λ i r f. ground (arith, c.requests, c.dashboards, w.owner_asks_not i r f);
                } in
                let a =
                  approve_incoming-Approved now dashboard_id d incoming actor closed approved
                    requests q in
                (closed, approved, c, a, ground (arith, c.dashboards, a.dashboards))
          ]
    ]

module _ (new_id dashboard_id : ℕ) (d : Dashboard) (incoming actor : ℕ) (db closed approved : Db)
    (c : Closed dashboard_id incoming db closed)
    (a : Approved dashboard_id incoming closed approved) where
  ended-GrantsValid : GrantsValid (ended new_id dashboard_id d incoming actor approved)
  unfolding ended record_event has_active_grant
  ended-GrantsValid = record {
    distinct = ground (arith, c.valid.distinct, a.grants);
    unique = λ i j g h. ground (arith, a.grants, c.valid.unique i j g h);
    owner_free = λ i g f gi ag fi. ground (
      arith,
      a.grants,
      a.dashboards,
      lookup-insert dashboard_id g.dashboard (handed_over new_id incoming d) approved.dashboards,
      any_row_none (is_active_for dashboard_id incoming) closed.grants i {v = g} c.free,
      c.valid.owner_free i g f,
    );
    others = λ i g. ground (arith, a.grants, c.valid.others i g);
  }

  ended-RequestsValid : RequestsValid (ended new_id dashboard_id d incoming actor approved)
  unfolding ended record_event
  ended-RequestsValid = record {
    distinct = a.valid.distinct;
    unique = a.valid.unique;
    matched = a.valid.matched;
    owner_asks_not = λ i r f ri p fi. ground (
      arith,
      lookup-insert dashboard_id r.dashboard (handed_over new_id incoming d) approved.dashboards,
      a.free i r,
      a.valid.owner_asks_not i r f,
    );
  }

-- Over valid grants and requests, a transfer that succeeds finds the dashboard a draft, published
-- or unpublished, and at the epoch that was expected; it was asked for by the owner, who is active, and names another user, who is
-- active. Only owner and epoch of this dashboard's row change, the epoch to the new marker, and no
-- other dashboard; one marker is added, with both owners and the former epoch. Grants and requests stay valid.
pub transfer_effect :
    (new_id now dashboard_id actor_id incoming : ℕ) (expected : Expected) (db db' : Db)
    (d : Dashboard)
    → GrantsValid db
    → RequestsValid db
    → lookup dashboard_id db.dashboards ≡ some d
    → transfer_dashboard_ownership new_id now dashboard_id actor_id incoming expected db ≡ ok db'
    → (is_working d.state ≡ true)
      × (is_expected expected d ≡ true)
      × (d.owner ≡ actor_id)
      × (is_active actor_id db.users ≡ true)
      × (is_active incoming db.users ≡ true)
      × (incoming ≢ actor_id)
      × (db'.dashboards
          ≡ insert dashboard_id
              (record d { owner = incoming; last_ownership_transfer = some new_id })
              db.dashboards)
      × (db'.transfers
          ≡ insert new_id
              (record {
                dashboard = dashboard_id;
                from_owner = actor_id;
                to_owner = incoming;
                previous_transfer = d.last_ownership_transfer;
              })
              db.transfers)
      × GrantsValid db'
      × RequestsValid db'
unfolding transfer_dashboard_ownership
transfer_effect new_id now dashboard_id actor_id incoming expected db db' d v w e h =
    let (closed, approved, c, a, shape) =
      hand_over_inversion new_id now dashboard_id d incoming actor_id db db' v w e (ground arith) in
    (
      ground arith,
      ground arith,
      ground arith,
      ground arith,
      ground arith,
      ground arith,
      rw shape (unfold ended record_event in ground (arith, c.dashboards, a.dashboards)),
      rw shape (unfold ended record_event in ground (arith, c.transfers, a.transfers)),
      rw shape (ended-GrantsValid new_id dashboard_id d incoming actor_id db closed approved c a),
      rw shape (ended-RequestsValid new_id dashboard_id d incoming actor_id db closed approved c a),
    )

-- ===== src/Requests/Invariant.antt =====
-- The stored access requests, under every write of a row.
use prj_app.Base.{
  ℕ, ◌≡◌, ◌≢◌, true, none, some, Table, lookup, insert, arith, Distinct, insert-Distinct,
  lookup-insert, find_row, find_row-none,
}
use prj_app.Model.{Db, Dashboard, AccessRequest, is_pending, AuditEvent}
use prj_app.RequestRow.{resolution_match}
use prj_app.Store.{record_event}
use prj_app.Requests.{is_request_of, after_request}

-- One row for each dashboard and requester.
abbrev pub UniqueRequests : Table AccessRequest → Type 0
UniqueRequests t =
    (i j : ℕ) (r s : AccessRequest)
    → lookup i t ≡ some r
    → lookup j t ≡ some s
    → r.dashboard ≡ s.dashboard
    → r.requester ≡ s.requester
    → i ≡ j

-- No owner has a pending request for the own dashboard.
abbrev pub OwnerAsksNot : Table Dashboard → Table AccessRequest → Type 0
OwnerAsksNot dashboards t =
    (i : ℕ) (r : AccessRequest) (d : Dashboard)
    → lookup i t ≡ some r
    → is_pending r.status ≡ true
    → lookup r.dashboard dashboards ≡ some d
    → r.requester ≢ d.owner

pub record RequestsValid (db : Db) : Type 0 where
  pub distinct : Distinct db.requests
  pub unique : UniqueRequests db.requests
  pub matched :
      (i : ℕ) (r : AccessRequest) → lookup i db.requests ≡ some r → resolution_match r ≡ true
  pub owner_asks_not : OwnerAsksNot db.dashboards db.requests

insert-UniqueRequests_new :
    (k : ℕ) (n : AccessRequest) (t : Table AccessRequest)
    → find_row (is_request_of n.dashboard n.requester) t ≡ none
    → UniqueRequests t
    → UniqueRequests (insert k n t)
insert-UniqueRequests_new k n t free u i j r s ir js sd sr = ground (
  arith,
  lookup-insert k i n t,
  lookup-insert k j n t,
  find_row-none (is_request_of n.dashboard n.requester) t i {v = r} free,
  find_row-none (is_request_of n.dashboard n.requester) t j {v = s} free,
  u i j r s,
)

insert-UniqueRequests_old :
    (k : ℕ) (o n : AccessRequest) (t : Table AccessRequest)
    → lookup k t ≡ some o
    → o.dashboard ≡ n.dashboard
    → o.requester ≡ n.requester
    → UniqueRequests t
    → UniqueRequests (insert k n t)
insert-UniqueRequests_old k o n t old ed er u i j r s ir js sd sr =
    ground (arith, lookup-insert k i n t, lookup-insert k j n t, u i j r s, u i k r o, u k j o s)

module _ (k : ℕ) (n : AccessRequest) (event : AuditEvent) (db : Db) (v : RequestsValid db)
    (whole : resolution_match n ≡ true)
    (other : (d : Dashboard)
      → is_pending n.status ≡ true
      → lookup n.dashboard db.dashboards ≡ some d
      → n.requester ≢ d.owner) where
  write-RequestsValid :
      UniqueRequests (insert k n db.requests) → RequestsValid (after_request k n event db)
  unfolding after_request record_event
  write-RequestsValid u = record {
    distinct = insert-Distinct k n db.requests v.distinct;
    unique = u;
    matched = λ i r e. ground (arith, lookup-insert k i n db.requests, v.matched i r);
    owner_asks_not = λ i r d e p q.
        ground (arith, lookup-insert k i n db.requests, v.owner_asks_not i r d, other d);
  }

  -- Writing the first request of a requester.
  pub write_new-RequestsValid :
      find_row (is_request_of n.dashboard n.requester) db.requests ≡ none
      → RequestsValid (after_request k n event db)
  write_new-RequestsValid free =
      write-RequestsValid (insert-UniqueRequests_new k n db.requests free v.unique)

  -- Writing a stored request again.
  pub write_old-RequestsValid :
      (o : AccessRequest)
      → lookup k db.requests ≡ some o
      → o.dashboard ≡ n.dashboard
      → o.requester ≡ n.requester
      → RequestsValid (after_request k n event db)
  write_old-RequestsValid o old ed er =
      write-RequestsValid (insert-UniqueRequests_old k o n db.requests old ed er v.unique)

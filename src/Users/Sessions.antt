-- ===== src/Users/Sessions.antt =====
-- Session versions and administrators under any sequence of successful calls.
use prj_app.Base.{
  ℕ, ◌≡◌, ◌<◌, refl, true, some, lookup, ok, arith, lookup-insert, inl, inr, Bool-cases, ◌==◌,
}
use prj_app.Model.{Db, User}
use prj_app.Users.{
  Passwords, is_active_administrator, require_administrator, disable_user, enable_user,
  reset_user_password, provision_user,
}
use prj_app.Users.Administration.{
  Call, disable, enable, reset, provision, caller, call_service, IsFresh, Wrote, nothing, changed,
  added, call_service-Wrote,
}

-- Successful calls, one after the other.
pub data Calls (p : Passwords) (db : Db) : Db → Type 0 where
  done : Calls p db db
  then_call :
      {a b : Db} (call : Call)
      → Calls p db a
      → IsFresh call a
      → call_service p call a ≡ ok b
      → Calls p db b

caller_administrates :
    (p : Passwords) (call : Call) (db db' : Db)
    → call_service p call db ≡ ok db'
    → (a : User) × (lookup (caller call) db.users ≡ some a) × (is_active_administrator a ≡ true)
unfolding call_service require_administrator disable_user enable_user reset_user_password
    provision_user
caller_administrates p (disable actor target) db db' h = ground arith
caller_administrates p (enable actor target) db db' h = ground arith
caller_administrates p (reset actor target password) db db' h = ground arith
caller_administrates p (provision new_id actor soeid password is_administrator) db db' h =
    ground arith

abbrev pub HasAdministrator : Db → Type 0
HasAdministrator db =
    (id : ℕ) × (a : User) × (lookup id db.users ≡ some a) × (is_active_administrator a ≡ true)

caller_stays :
    (call : Call) (db db' : Db) (a : User)
    → Wrote call db db'
    → lookup (caller call) db.users ≡ some a
    → is_active_administrator a ≡ true
    → HasAdministrator db'
caller_stays call db db' a (nothing same) e h = (caller call, a, ground arith, h)
caller_stays call db db' a (changed id u v f kept more w) e h =
    elim (Bool-cases (id == caller call)) [
      | inl same ↦ (
        caller call,
        v,
        ground (arith, lookup-insert id (caller call) v db.users),
        kept (ground arith),
      )
      | inr other ↦ (caller call, a, ground (arith, lookup-insert id (caller call) v db.users), h)
    ]
caller_stays call db db' a (added id v f active w) e h =
    (caller call, a, ground (arith, lookup-insert id (caller call) v db.users), h)

-- No sequence of successful calls leaves the program without an active administrator.
pub Calls-HasAdministrator :
    {p : Passwords} {db db' : Db} → HasAdministrator db → Calls p db db' → HasAdministrator db'
Calls-HasAdministrator h done = h
Calls-HasAdministrator {p} {db} {db'} h (then_call {a = a} {b = b} call before fresh ran) =
    let (u, e, k) = caller_administrates p call a b ran in
    caller_stays call a b u (call_service-Wrote p call a b fresh ran) e k

-- A stored user is the same, or has a later session version.
pub data Later (u : User) : User → Type 0 where
  same : {v : User} → v ≡ u → Later u v
  newer : {v : User} → u.auth_version < v.auth_version → Later u v

Wrote-Later :
    (call : Call) (db db' : Db) (id : ℕ) (u : User)
    → Wrote call db db'
    → lookup id db.users ≡ some u
    → (v : User) × (lookup id db'.users ≡ some v) × Later u v
Wrote-Later call db db' id u (nothing unchanged) e = (u, ground arith, same refl)
Wrote-Later call db db' id u (changed k w v f kept more shape) e = elim (Bool-cases (k == id)) [
  | inl hit ↦ (v, ground (arith, lookup-insert k id v db.users), newer (ground arith))
  | inr miss ↦ (u, ground (arith, lookup-insert k id v db.users), same refl)
]
Wrote-Later call db db' id u (added k v f active shape) e =
    (u, ground (arith, lookup-insert k id v db.users), same refl)

Later-trans : {u v w : User} → Later u v → Later v w → Later u w
Later-trans (same e) (same f) = same (ground arith)
Later-trans (same e) (newer f) = newer (ground arith)
Later-trans (newer e) (same f) = newer (ground arith)
Later-trans (newer e) (newer f) = newer (omega arith)

-- Under any sequence of successful calls a user stays stored; any change of it, be it the password
-- or the activity, leaves it with a later session version.
pub Calls-Later :
    {p : Passwords} {db db' : Db} (id : ℕ) (u : User)
    → Calls p db db'
    → lookup id db.users ≡ some u
    → (v : User) × (lookup id db'.users ≡ some v) × Later u v
Calls-Later id u done e = (u, e, same refl)
Calls-Later {p} {db} {db'} id u (then_call {a = a} {b = b} call before fresh ran) e =
    let (v, f, g) = Calls-Later id u before e in
    let (w, k, l) = Wrote-Later call a b id v (call_service-Wrote p call a b fresh ran) f in
    (w, k, Later-trans g l)

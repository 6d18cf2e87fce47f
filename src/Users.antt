-- ===== src/Users.antt =====
-- The identity services of core/authentication.py, with `User.save` of core/models.py. The
-- password validators, the hasher and its salt are Django's: parameters.
pub mod Administration
pub mod Sessions
use prj_app.Base.{
  ℕ, ◌+◌, Bool, true, false, not, ◌&&◌, ◌||◌, Option, none, some, [], Text, Table, ltb, leb, ◌==◌,
  if◌then◌else◌, text_eq, lookup, insert, any_row, count_rows, Result, ok, err, Error, ◌>>=◌, ◌>>◌,
  raise_if, or_raise, length,
}
use prj_app.Model.{Db, User, Event, AuditEvent}
use prj_app.Names.{canonicalize_soeid, matches_soeid}
use prj_app.Store.{record_event}

pub record Passwords : Type 0 where
  -- `validate_password`, for a user
  pub accepts : Text → User → Bool
  -- `set_password`: the hash that is stored
  pub hash : Text → Text

abbrev pub max_password_length : ℕ
max_password_length = 256

-- `User.clean` and the constraints: a SOEID that is its own canonical form, a positive version.
unfoldable pub is_canonical : Text → Bool
is_canonical soeid = elim (canonicalize_soeid soeid) [ err e ↦ false | ok s ↦ text_eq soeid s ]

unfoldable pub valid_user : User → Bool
valid_user u = is_canonical u.soeid && ltb 0 u.auth_version

abbrev pub same_bool : Bool → Bool → Bool
same_bool true b = b
same_bool false b = not b

-- A change of activity starts a new session version.
unfoldable pub next_version : User → User → User
next_version original u =
    if same_bool u.is_active original.is_active
    then u
    else record u { auth_version = original.auth_version + 1 }

-- `User.save` over a stored row.
unfoldable pub save_user : User → User → Result User
save_user original u = do
  raise_if (not (text_eq original.soeid u.soeid)) Error.immutable_record
  raise_if (not (valid_user (next_version original u))) Error.validation_failed
  ok (next_version original u)

abbrev pub is_active_administrator : User → Bool
is_active_administrator u = u.is_active && u.is_administrator

-- `_record_audit_event`
unfoldable pub user_event : Event → Option ℕ → Option ℕ → AuditEvent
user_event event actor target = record {
  event = event;
  actor = actor;
  dashboard = none;
  revision = none;
  target_user = target;
}

-- A user row is written, with its audit event.
unfoldable pub after_user : Event → Option ℕ → ℕ → User → Db → Db
after_user event actor id u db =
    record_event (user_event event actor (some id)) (record db { users = insert id u db.users })

-- `_require_administrator`, and the first check of `disable_user`
unfoldable pub require_administrator : ℕ → Db → Result User
require_administrator actor_id db = do
  actor ← or_raise (lookup actor_id db.users) Error.not_administrator
  raise_if (not (is_active_administrator actor)) Error.not_administrator
  ok actor

-- `disable_user`
unfoldable pub disable_user : ℕ → ℕ → Db → Result Db
disable_user actor_id target_id db = do
  actor ← require_administrator actor_id db
  target ← or_raise (lookup target_id db.users) Error.user_not_found
  raise_if
      (target_id == actor_id
        && (target.is_administrator && leb (count_rows is_active_administrator db.users) 1))
      Error.last_administrator
  raise_if (target_id == actor_id) Error.self_disable
  if not target.is_active then ok db else do
    saved ← save_user target (record target { is_active = false })
    ok (after_user Event.user_disabled (some actor_id) target_id saved db)

-- `enable_user`
unfoldable pub enable_user : ℕ → ℕ → Db → Result Db
enable_user actor_id target_id db = do
  actor ← require_administrator actor_id db
  target ← or_raise (lookup target_id db.users) Error.user_not_found
  if target.is_active then ok db else do
    saved ← save_user target (record target { is_active = true })
    ok (after_user Event.user_enabled (some actor_id) target_id saved db)

-- `_set_validated_password`
unfoldable pub set_validated_password : Passwords → User → Text → Result User
set_validated_password p u password = do
  raise_if (ltb max_password_length (length password)) Error.password_policy
  raise_if (not (p.accepts password u)) Error.password_policy
  ok (record u { password = p.hash password })

-- `reset_user_password`
unfoldable pub reset_user_password : Passwords → ℕ → ℕ → Text → Db → Result Db
reset_user_password p actor_id target_id password db = do
  actor ← require_administrator actor_id db
  target ← or_raise (lookup target_id db.users) Error.user_not_found
  changed ← set_validated_password p target password
  saved ← save_user target (record changed { auth_version = target.auth_version + 1 })
  ok (after_user Event.password_reset (some actor_id) target_id saved db)

-- `User.save` of a new row; the unique index on the SOEID is checked with it.
unfoldable pub save_new_user : Db → User → Result User
save_new_user db u = do
  raise_if (any_row (λ v. text_eq v.soeid u.soeid) db.users) Error.duplicate_soeid
  raise_if (not (valid_user u)) Error.validation_failed
  ok u

abbrev pub new_user : Text → Bool → User
new_user soeid is_administrator = record {
  soeid = soeid;
  password = [];
  is_active = true;
  is_administrator = is_administrator;
  auth_version = 1;
}

-- `provision_user`; `new_id` is the identifier that the new row draws.
unfoldable pub provision_user : Passwords → ℕ → ℕ → Text → Text → Bool → Db → Result Db
provision_user p new_id actor_id soeid password is_administrator db = do
  canonical ← canonicalize_soeid soeid
  actor ← require_administrator actor_id db
  u ← set_validated_password p (new_user canonical is_administrator) password
  saved ← save_new_user db u
  ok (after_user Event.user_created (some actor_id) new_id saved db)

-- `bootstrap_first_administrator`
unfoldable pub bootstrap_first_administrator : Passwords → ℕ → Text → Text → Db → Result Db
bootstrap_first_administrator p new_id soeid password db = do
  raise_if (any_row (λ u. true) db.users) Error.bootstrap_complete
  canonical ← canonicalize_soeid soeid
  u ← set_validated_password p (new_user canonical true) password
  saved ← save_new_user db u
  ok (after_user Event.bootstrap none new_id saved db)

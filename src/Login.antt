-- ===== src/Login.antt =====
-- `authenticate_login` of core/authentication.py and its throttle. Buckets are keyed by their hash,
-- here a number; Django's check of the credentials is a parameter.
pub mod Buckets
pub mod Throttle
pub mod Spans
pub mod Runs
use prj_app.Base.{
  ℕ, ◌+◌, ◌-◌, ◌*◌, Bool, true, false, not, ◌&&◌, ◌||◌, Option, none, some, List, [], ◌∷◌, Text,
  Table, ltb, leb, ◌==◌, if◌then◌else◌, is_none, is_some, lookup, insert, length, Result, ok, err,
}
use prj_app.Model.{Db, Event, seconds}
use prj_app.Names.{canonicalize_soeid}
use prj_app.Store.{record_event}
use prj_app.Users.{max_password_length, user_event}
use prj_app.Access.{user_by_soeid}

-- `LoginThrottle`
pub record Bucket : Type 0 where
  pub window_started_at : ℕ
  pub failed_attempts : ℕ
  pub blocked_until : Option ℕ

abbrev pub failure_limit : ℕ
failure_limit = 5

-- 15 minutes
abbrev pub failure_window : ℕ
failure_window = seconds 900

-- 1 minute
abbrev pub lockout : ℕ
lockout = seconds 60

abbrev pub is_lifted : ℕ → Option ℕ → Bool
is_lifted now none = false
is_lifted now (some t) = leb t now

-- The bucket at the beginning of an attempt: a new window, or a lockout that has ended lifted.
-- Times before the start of the window count as within it.
unfoldable pub refresh : ℕ → Bucket → Bucket
refresh now b =
    if leb failure_window (now - b.window_started_at)
    then record { window_started_at = now; failed_attempts = 0; blocked_until = none }
    else if is_lifted now b.blocked_until
    then record b { blocked_until = none }
    else b

abbrev pub fresh_bucket : ℕ → Bucket
fresh_bucket now = record { window_started_at = now; failed_attempts = 0; blocked_until = none }

-- `_lock_throttle_buckets`, for the hashes sorted without repetition.
unfoldable pub lock_throttle_buckets : ℕ → List ℕ → Table Bucket → Table Bucket
lock_throttle_buckets now [] t = t
lock_throttle_buckets now (h ∷ hs) t = lock_throttle_buckets now hs (elim (lookup h t) [
  | none ↦ insert h (refresh now (fresh_bucket now)) t
  | some b ↦ insert h (refresh now b) t
])

-- `bucket.blocked_until is not None and bucket.blocked_until > now`
unfoldable pub is_blocked : ℕ → Bucket → Bool
is_blocked now b = elim b.blocked_until [ none ↦ false | some t ↦ ltb now t ]

unfoldable pub any_blocked : ℕ → List ℕ → Table Bucket → Bool
any_blocked now [] t = false
any_blocked now (h ∷ hs) t =
    elim (lookup h t) [ none ↦ false | some b ↦ is_blocked now b ] || any_blocked now hs t

abbrev pub min : ℕ → ℕ → ℕ
min a b = if ltb b a then b else a

-- One bucket under a failure.
unfoldable pub fail : ℕ → Bucket → Bucket
fail now b =
    let attempts = min (b.failed_attempts + 1) failure_limit in
    if leb failure_limit attempts
    then record b { failed_attempts = attempts; blocked_until = some (now + lockout) }
    else record b { failed_attempts = attempts }

-- `_register_failure`
unfoldable pub register_failure : ℕ → List ℕ → Table Bucket → Table Bucket
register_failure now [] t = t
register_failure now (h ∷ hs) t =
    register_failure now hs (elim (lookup h t) [ none ↦ t | some b ↦ insert h (fail now b) t ])

-- The rows under one hash are deleted.
unfoldable pub remove : ℕ → Table Bucket → Table Bucket
remove h [] = []
remove h ((k, b) ∷ t) = let rest = remove h t in if k == h then rest else (k, b) ∷ rest

abbrev pub remove_all : List ℕ → Table Bucket → Table Bucket
remove_all [] t = t
remove_all (h ∷ hs) t = remove_all hs (remove h t)

-- `sorted(set(bucket_hashes))`: that of the address, and that of a known user.
unfoldable pub bucket_hashes : ℕ → Option ℕ → List ℕ
bucket_hashes ip none = ip ∷ []
bucket_hashes ip (some user) =
    if ip == user then ip ∷ [] else if ltb ip user then ip ∷ user ∷ [] else user ∷ ip ∷ []

pub record LoginState : Type 0 where
  pub db : Db
  pub throttles : Table Bucket

-- `_try_canonicalize`
unfoldable pub try_canonicalize : Text → Option Text
try_canonicalize value = elim (canonicalize_soeid value) [ ok s ↦ some s | err e ↦ none ]

-- The known user of a canonical SOEID.
unfoldable pub known_user : Option Text → Db → Option ℕ
known_user none db = none
known_user (some s) db = elim (user_by_soeid s db.users) [ none ↦ none | some (id, u) ↦ some id ]

-- The end of an attempt that no bucket blocks.
unfoldable pub conclude : ℕ → List ℕ → Option ℕ → LoginState → Option ℕ × LoginState
conclude now hashes none s =
    (none, record s { throttles = register_failure now hashes s.throttles })
conclude now hashes (some user) s = (
  some user,
  record {
    db = record_event (user_event Event.login_succeeded (some user) none) s.db;
    throttles = remove_all hashes s.throttles;
  },
)

-- `django_authenticate`, for a text that can be a SOEID and a password that is not too long.
unfoldable pub authenticate : (Db → Text → Text → Option ℕ) → Db → Option Text → Text → Option ℕ
authenticate check db none password = none
authenticate check db (some s) password =
    if leb (length password) max_password_length then check db s password else none

-- `authenticate_login`: the user, if the login succeeds. `ip` is the bucket of the address,
-- `user_bucket` that of each user.
unfoldable pub authenticate_login :
    (Db → Text → Text → Option ℕ)
    → (ℕ → ℕ)
    → ℕ
    → ℕ
    → Text
    → Text
    → LoginState
    → Option ℕ × LoginState
authenticate_login check user_bucket ip now soeid password s =
    let canonical = try_canonicalize soeid in
    let hashes =
      bucket_hashes ip
        (elim (known_user canonical s.db) [ none ↦ none | some id ↦ some (user_bucket id) ]) in
    let locked : LoginState = record s {
      throttles = lock_throttle_buckets now hashes s.throttles;
    } in
    if any_blocked now hashes locked.throttles
    then (none, locked)
    else conclude now hashes (authenticate check s.db canonical password) locked

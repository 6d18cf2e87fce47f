-- ===== src/Tests/Identities.antt =====
-- Identity services, logins and names, on the sample tables.
use prj_app.Base.{
  ℕ, ◌≡◌, ◌≤◌, ◌+◌, ◌-◌, ◌*◌, refl, true, Option, none, some, [], ◌∷◌, Text, ok, lookup, length,
  all, arith, inl, ltb,
}
use prj_app.Model.{Db, User, seconds}
use prj_app.Names.{canonicalize_soeid, is_soeid_char}
use prj_app.Names.Soeid.{canonicalize_soeid_idempotent}
use prj_app.Users.{Passwords}
use prj_app.Users.Administration.{disable, enable, call_service}
use prj_app.Users.Sessions.{
  Calls, done, then_call, Calls-HasAdministrator, Calls-Later, HasAdministrator, Later,
}
use prj_app.Login.{Bucket, LoginState, authenticate_login, lockout}
use prj_app.Login.Runs.{Run, begin, login, failures_bounded}
use prj_app.Login.Throttle.{blocked_refuses}
use prj_app.Tests.World.{user, world, tables, same_text}
use prj_app.Tests.World

-- Passwords of 12 characters or more.
abbrev passwords : Passwords
passwords = record { accepts = λ s u. ltb 11 (length s); hash = same_text }

-- User 1 disables user 2 and enables it again.
abbrev disabled : Db
disabled = tables (call_service passwords (disable 1 2) world)

abbrev enabled : Db
enabled = tables (call_service passwords (enable 1 2) disabled)

calls : Calls passwords world enabled
unfolding World.opened call_service
calls = then_call (enable 1 2) (then_call (disable 1 2) done tt refl) tt refl

world-HasAdministrator : HasAdministrator world
unfolding World.opened
world-HasAdministrator = (1, user (b'A' ∷ []) true, refl, refl)

Calls-HasAdministrator_example : HasAdministrator enabled
Calls-HasAdministrator_example = Calls-HasAdministrator world-HasAdministrator calls

Calls-Later_example :
    (v : User) × (lookup 2 enabled.users ≡ some v) × Later (user (b'B' ∷ []) true) v
unfolding World.opened
Calls-Later_example = Calls-Later 2 (user (b'B' ∷ []) true) calls refl

-- Two failing logins from the address under hash 7, a second apart.
abbrev refuse : Db → Text → Text → Option ℕ
refuse db soeid password = none

abbrev two_failures : LoginState
two_failures =
    (authenticate_login refuse (λ id. id + 100) 7 (seconds 1) [] []
      (authenticate_login refuse (λ id. id + 100) 7 0 [] []
        (record { db = world; throttles = [] })).1).1

two_failures-Run :
    Run refuse
      (λ id. id + 100)
      7
      (some (record { start = 0; count = 2; last = seconds 1 }))
      (seconds 1)
      two_failures
unfolding World.opened
two_failures-Run =
    login 7 (seconds 1) [] []
      (login 7 0 [] [] (begin 0 (record { db = world; throttles = [] }) refl) (omega arith))
      (omega arith)

failures_bounded_example : (2 ≤ 19) × (5 ≤ 2 → 2 * lockout ≤ (seconds 1 - 0) + 5 * lockout)
failures_bounded_example =
    failures_bounded refuse (λ id. id + 100) 7 (record { start = 0; count = 2; last = seconds 1 })
      (seconds 1) two_failures two_failures-Run

-- The address under hash 7 is blocked.
abbrev blocked : Bucket
blocked = record { window_started_at = 0; failed_attempts = 5; blocked_until = some lockout }

abbrev blocked_login : LoginState
blocked_login = record { db = world; throttles = (7, blocked) ∷ [] }

abbrev accept : Db → Text → Text → Option ℕ
accept db soeid password = some 1

blocked_refuses_example :
    let (u, s') =
      authenticate_login accept (λ id. id) 7 (seconds 1) (b'a' ∷ []) (b'p' ∷ []) blocked_login in
    (u ≡ none) × (s'.db ≡ world) × (lookup 7 s'.throttles ≡ some blocked)
unfolding World.opened
blocked_refuses_example =
    blocked_refuses accept (λ id. id) 7 (seconds 1) 7 (b'a' ∷ []) (b'p' ∷ []) blocked_login blocked
      (inl refl) refl refl (omega arith)

abbrev canonical : Text
canonical = b'A' ∷ b'1' ∷ []

canonicalize_soeid_idempotent_example :
    (canonicalize_soeid canonical ≡ ok canonical)
    × (all is_soeid_char canonical ≡ true)
    × (1 ≤ length canonical)
    × (length canonical ≤ 64)
unfolding World.opened
canonicalize_soeid_idempotent_example =
    canonicalize_soeid_idempotent (32 ∷ b'a' ∷ b'1' ∷ []) canonical refl

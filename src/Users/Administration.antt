-- ===== src/Users/Administration.antt =====
-- The services never leave the program without an active administrator.
use prj_app.Base.{
  ℕ, ◌≡◌, ◌<◌, ◌+◌, Bool, true, false, none, some, Text, lookup, insert, ok, arith, Result,
  Result-cases, inl, inr, Option-cases, Bool-cases,
}
use prj_app.Model.{Db, User}
use prj_app.Names.{canonicalize_soeid}
use prj_app.Store.{record_event}
use prj_app.Users.{
  Passwords, save_user, next_version, save_new_user, is_active_administrator, require_administrator,
  after_user, disable_user, enable_user, reset_user_password, set_validated_password,
  provision_user, new_user,
}

-- One call of an administrator's service.
pub data Call : Type 0 where
  disable enable : ℕ → ℕ → Call
  reset : ℕ → ℕ → Text → Call
  provision : ℕ → ℕ → Text → Text → Bool → Call

abbrev pub caller : Call → ℕ
caller (disable actor target) = actor
caller (enable actor target) = actor
caller (reset actor target password) = actor
caller (provision new_id actor soeid password is_administrator) = actor

unfoldable pub call_service : Passwords → Call → Db → Result Db
call_service p (disable actor target) db = disable_user actor target db
call_service p (enable actor target) db = enable_user actor target db
call_service p (reset actor target password) db = reset_user_password p actor target password db
call_service p (provision new_id actor soeid password is_administrator) db =
    provision_user p new_id actor soeid password is_administrator db

-- A new user draws an identifier that no user has.
abbrev pub IsFresh : Call → Db → Type 0
IsFresh (provision new_id actor soeid password is_administrator) db = lookup new_id db.users ≡ none
IsFresh call db = Unit

-- The one row that a successful call writes, if it writes any.
pub data Wrote (call : Call) (db db' : Db) : Type 0 where
  nothing : db' ≡ db → Wrote call db db'
  changed :
      (id : ℕ) (u v : User)
      → lookup id db.users ≡ some u
      → (id ≡ caller call → is_active_administrator v ≡ true)
      → u.auth_version < v.auth_version
      → db'.users ≡ insert id v db.users
      → Wrote call db db'
  added :
      (id : ℕ) (v : User)
      → lookup id db.users ≡ none
      → v.is_active ≡ true
      → db'.users ≡ insert id v db.users
      → Wrote call db db'

require_facts :
    (actor : ℕ) (db : Db) (a : User)
    → require_administrator actor db ≡ ok a
    → (lookup actor db.users ≡ some a) × (is_active_administrator a ≡ true)
unfolding require_administrator
require_facts actor db a h = (ground arith, ground arith)

save_user-shape : (o u v : User) → save_user o u ≡ ok v → v ≡ next_version o u
unfolding save_user
save_user-shape o u v h = ground arith

disable-Wrote :
    (actor target : ℕ) (db db' : Db)
    → disable_user actor target db ≡ ok db'
    → Wrote (disable actor target) db db'
unfolding disable_user after_user record_event
disable-Wrote actor target db db' h = elim (Result-cases (require_administrator actor db)) [
  | inr (x, e) ↦ absurd (ground arith)
  | inl (a, e) ↦ elim (Option-cases (lookup target db.users)) [
    | inl f ↦ absurd (ground arith)
    | inr (u, f) ↦ elim (Bool-cases u.is_active) [
      | inr idle ↦ nothing (ground arith)
      | inl active ↦ elim (Result-cases (save_user u (record u { is_active = false }))) [
        | inr (x, g) ↦ absurd (ground arith)
        | inl (v, g) ↦
            let shape = save_user-shape u (record u { is_active = false }) v g in
            changed target u v f (λ same. absurd (ground arith))
              (unfold next_version in ground (arith, shape)) (ground arith)
      ]
    ]
  ]
]

enable-Wrote :
    (actor target : ℕ) (db db' : Db)
    → enable_user actor target db ≡ ok db'
    → Wrote (enable actor target) db db'
unfolding enable_user after_user record_event
enable-Wrote actor target db db' h = elim (Result-cases (require_administrator actor db)) [
  | inr (x, e) ↦ absurd (ground arith)
  | inl (a, e) ↦
      let admin = require_facts actor db a e in
      elim (Option-cases (lookup target db.users)) [
        | inl f ↦ absurd (ground arith)
        | inr (u, f) ↦ elim (Bool-cases u.is_active) [
          | inl active ↦ nothing (ground arith)
          | inr idle ↦ elim (Result-cases (save_user u (record u { is_active = true }))) [
            | inr (x, g) ↦ absurd (ground arith)
            | inl (v, g) ↦
                let shape = save_user-shape u (record u { is_active = true }) v g in
                changed target u v f (λ same. absurd (ground (arith, admin)))
                  (unfold next_version in ground (arith, shape)) (ground arith)
          ]
        ]
      ]
]

password_shape :
    (p : Passwords) (u v : User) (password : Text)
    → set_validated_password p u password ≡ ok v
    → v ≡ record u { password = p.hash password }
unfolding set_validated_password
password_shape p u v password h = ground arith

reset-Wrote :
    (p : Passwords) (actor target : ℕ) (password : Text) (db db' : Db)
    → reset_user_password p actor target password db ≡ ok db'
    → Wrote (reset actor target password) db db'
unfolding reset_user_password after_user record_event
reset-Wrote p actor target password db db' h =
    elim (Result-cases (require_administrator actor db)) [
      | inr (x, e) ↦ absurd (ground arith)
      | inl (a, e) ↦
          let admin = require_facts actor db a e in
          elim (Option-cases (lookup target db.users)) [
            | inl f ↦ absurd (ground arith)
            | inr (u, f) ↦ elim (Result-cases (set_validated_password p u password)) [
              | inr (x, g) ↦ absurd (ground arith)
              | inl (w, g) ↦
                  let hashed = password_shape p u w password g in
                  let row : User = record w { auth_version = u.auth_version + 1 } in
                  elim (Result-cases (save_user u row)) [
                    | inr (x, k) ↦ absurd (ground arith)
                    | inl (v, k) ↦
                        let shape = save_user-shape u row v k in
                        changed target u v f
                          (λ same. unfold next_version in ground (arith, shape, hashed, admin))
                          (unfold next_version in ground (arith, shape, hashed)) (ground arith)
                  ]
            ]
          ]
    ]

save_new_user-shape : (db : Db) (u v : User) → save_new_user db u ≡ ok v → v ≡ u
unfolding save_new_user
save_new_user-shape db u v h = ground arith

provision-Wrote :
    (p : Passwords) (new_id actor : ℕ) (soeid password : Text) (is_administrator : Bool)
    (db db' : Db)
    → lookup new_id db.users ≡ none
    → provision_user p new_id actor soeid password is_administrator db ≡ ok db'
    → Wrote (provision new_id actor soeid password is_administrator) db db'
unfolding provision_user after_user record_event
provision-Wrote p new_id actor soeid password is_administrator db db' fresh h =
    elim (Result-cases (canonicalize_soeid soeid)) [
      | inr (x, c) ↦ absurd (ground arith)
      | inl (s, c) ↦ elim (Result-cases (require_administrator actor db)) [
        | inr (x, e) ↦ absurd (ground arith)
        | inl (a, e) ↦
            elim (Result-cases (set_validated_password p (new_user s is_administrator) password)) [
              | inr (x, g) ↦ absurd (ground arith)
              | inl (w, g) ↦ elim (Result-cases (save_new_user db w)) [
                | inr (x, k) ↦ absurd (ground arith)
                | inl (v, k) ↦
                    let hashed = password_shape p (new_user s is_administrator) w password g in
                    let shape = save_new_user-shape db w v k in
                    added new_id v fresh (ground (arith, hashed, shape)) (ground arith)
              ]
            ]
      ]
    ]

pub call_service-Wrote :
    (p : Passwords) (call : Call) (db db' : Db)
    → IsFresh call db
    → call_service p call db ≡ ok db'
    → Wrote call db db'
unfolding call_service
call_service-Wrote p (disable actor target) db db' f h = disable-Wrote actor target db db' h
call_service-Wrote p (enable actor target) db db' f h = enable-Wrote actor target db db' h
call_service-Wrote p (reset actor target password) db db' f h =
    reset-Wrote p actor target password db db' h
call_service-Wrote p (provision new_id actor soeid password is_administrator) db db' f h =
    provision-Wrote p new_id actor soeid password is_administrator db db' f h

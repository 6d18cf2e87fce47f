-- ===== src/Base/Results.antt =====
-- Results of fallible code, and database transactions.
use mathlib.Core.Path.{◌≡◌, refl}
use mathlib.Core.Logic.{◌⊎◌, inl, inr}
use mathlib.Core.Bool.{Bool, true, false}
use mathlib.Core.Option.{Option, none, some}

-- The exceptions that the modelled services raise.
pub data Error : Type 0 where
  access_denied : Error
  invalid_input : Error
  validation_failed : Error
  immutable_record : Error
  invalid_soeid unknown_user disabled_user self_grant already_granted : Error
  project_denied : Error
  render_denied render_unavailable : Error
  bootstrap_complete duplicate_soeid last_administrator not_administrator : Error
  password_policy self_disable user_not_found : Error
  invalid_name revision_rejected invalid_query invalid_cursor type_error database_failed : Error
  storage_failed storage_collision storage_committed storage_cleanup : Error

pub data Result {ℓ} (A : Type ℓ) : Type ℓ where
  ok : A → Result A
  err : Error → Result A

pub Result-cases {ℓ} :
    {A : Type ℓ} (r : Result A) → ((a : A) × (r ≡ ok a)) ⊎ ((e : Error) × (r ≡ err e))
Result-cases (ok a) = inl (a, refl)
Result-cases (err e) = inr (e, refl)

-- A statement whose value nobody reads, and one that binds its value.
infixl 5 ◌>>◌ ◌>>=◌
abbrev pub ◌>>◌ {ℓ} : {B : Type ℓ} → Result (Unit {0}) → Result B → Result B
err e >> k = err e
ok done >> k = k

abbrev pub ◌>>=◌ {ℓ κ} : {A : Type ℓ} {B : Type κ} → Result A → (A → Result B) → Result B
err e >>= f = err e
ok value >>= f = f value

-- `if test: raise e`
abbrev pub raise_if : Bool → Error → Result (Unit {0})
raise_if true e = err e
raise_if false e = ok tt

abbrev pub or_raise {ℓ} : {A : Type ℓ} → Option A → Error → Result A
or_raise (some a) e = ok a
or_raise none e = err e

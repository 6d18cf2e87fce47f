-- ===== src/Base/Rows.antt =====
-- Laws of the table operations: what a query finds, and what a write changes.
use Prim.Native.Nat.{ℕ}
use mathlib.Core.Path.{◌≡◌, refl}
use mathlib.Core.Logic.{◌≢◌, inl, inr}
use mathlib.Core.Bool.{Bool, true, false}
use mathlib.Core.Option.{none, some}
use mathlib.Core.List.{[], ◌∷◌}
use native.Mathlib.Omega.{arith}
use prj_app.Base.Tests.{is_some, Option-cases}
use prj_app.Base.Tables.{Table, lookup, insert, find_row, any_row, lookup-insert}

module _ {ℓ} {V : Type ℓ} where
  -- No key stands twice.
  abbrev pub Distinct : Table V → Type ℓ
  Distinct [] = Unit
  Distinct ((k, v) ∷ t) = (lookup k t ≡ none) × Distinct t

  pub insert-Distinct : (k : ℕ) (v : V) (t : Table V) → Distinct t → Distinct (insert k v t)
  unfolding insert lookup
  insert-Distinct k v [] d = ground arith
  insert-Distinct k v ((j, w) ∷ t) d =
      ground (arith, insert-Distinct k v t d.1, lookup-insert k j v t)

  pub lookup-insert_ne :
      (k j : ℕ) (v : V) (t : Table V) → k ≢ j → lookup j (insert k v t) ≡ lookup j t
  lookup-insert_ne k j v t h = ground (arith, lookup-insert k j v t)

  -- A row that a filter finds is stored, and passes the filter.
  pub find_row_sound :
      (p : V → Bool) (t : Table V) {k : ℕ} {v : V}
      → Distinct t
      → find_row p t ≡ some (k, v)
      → (lookup k t ≡ some v) × (p v ≡ true)
  unfolding find_row lookup
  find_row_sound p [] d h = ground arith
  find_row_sound p ((j, w) ∷ t) {k} {v} d h = ground (arith, find_row_sound p t {k = k} {v = v} d.1)

  -- Where it finds none, no stored row passes it.
  pub find_row-none :
      (p : V → Bool) (t : Table V) (k : ℕ) {v : V}
      → find_row p t ≡ none
      → lookup k t ≡ some v
      → p v ≡ false
  unfolding find_row lookup
  find_row-none p [] k h e = ground arith
  find_row-none p ((j, w) ∷ t) k {v} h e = ground (arith, find_row-none p t k {v = v})

  pub any_row-find_row : (p : V → Bool) (t : Table V) → any_row p t ≡ is_some (find_row p t)
  unfolding find_row any_row
  any_row-find_row p [] = refl
  any_row-find_row p ((j, w) ∷ t) = ground (arith, any_row-find_row p t)

  pub any_row_none :
      (p : V → Bool) (t : Table V) (k : ℕ) {v : V}
      → any_row p t ≡ false
      → lookup k t ≡ some v
      → p v ≡ false
  any_row_none p t k {v} h e = ground (arith, any_row-find_row p t, find_row-none p t k {v = v})

  pub any_row_complete :
      (p : V → Bool) (t : Table V) (k : ℕ) {v : V}
      → lookup k t ≡ some v
      → p v ≡ true
      → any_row p t ≡ true
  unfolding lookup any_row
  any_row_complete p [] k e h = ground arith
  any_row_complete p ((j, w) ∷ t) k {v} e h = ground (arith, any_row_complete p t k {v = v})

  -- No row passes a filter that every stored row fails.
  pub any_row-false :
      (p : V → Bool) (t : Table V)
      → Distinct t
      → ((k : ℕ) (v : V) → lookup k t ≡ some v → p v ≡ false)
      → any_row p t ≡ false
  any_row-false p t d h = elim (Option-cases (find_row p t)) [
    | inl e ↦ rw (any_row-find_row p t, e)
    | inr ((k, v), e) ↦
        let found = find_row_sound p t {k = k} {v = v} d e in ground (arith, h k v found.0)
  ]

  pub any_row-insert-false :
      (p : V → Bool) (t : Table V) (k : ℕ) (v : V)
      → any_row p t ≡ false
      → p v ≡ false
      → any_row p (insert k v t) ≡ false
  unfolding insert any_row
  any_row-insert-false p [] k v h n = ground arith
  any_row-insert-false p ((j, w) ∷ t) k v h n = ground (arith, any_row-insert-false p t k v)

  pub any_row-insert-true :
      (p : V → Bool) (t : Table V) (k : ℕ) (v : V)
      → lookup k t ≡ none
      → any_row p t ≡ true
      → any_row p (insert k v t) ≡ true
  unfolding lookup insert any_row
  any_row-insert-true p [] k v f h = ground arith
  any_row-insert-true p ((j, w) ∷ t) k v f h = ground (arith, any_row-insert-true p t k v)

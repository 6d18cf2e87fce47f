-- ===== src/Base/Tables.antt =====
-- A database table as the list of its rows, each under its primary key.
use Prim.Native.Nat.{ℕ, suc}
use mathlib.Core.Path.{◌≡◌, refl}
use mathlib.Core.Bool.{Bool, false, ◌||◌}
use mathlib.Core.Option.{Option, none, some}
use mathlib.Core.List.{List, [], ◌∷◌}
use native.Mathlib.Omega.{arith}
use prj_app.Base.Tests.{◌==◌, if◌then◌else◌}

abbrev pub Table {ℓ} : Type ℓ → Type ℓ
Table V = List (ℕ × V)

module _ {ℓ} {V : Type ℓ} where
  -- `filter(id=key)`, for an exact primary key
  unfoldable pub lookup : ℕ → Table V → Option V
  lookup k [] = none
  lookup k ((j, v) ∷ t) = if j == k then some v else lookup k t

  -- Inserts a row, or updates the row under that key.
  unfoldable pub insert : ℕ → V → Table V → Table V
  insert k v [] = (k, v) ∷ []
  insert k v ((j, w) ∷ t) = if j == k then (k, v) ∷ t else (j, w) ∷ insert k v t

  -- the first row that a filter selects, with its key
  unfoldable pub find_row : (V → Bool) → Table V → Option (ℕ × V)
  find_row p [] = none
  find_row p ((j, v) ∷ t) = if p v then some (j, v) else find_row p t

  -- `filter(…).exists()`
  unfoldable pub any_row : (V → Bool) → Table V → Bool
  any_row p [] = false
  any_row p ((j, v) ∷ t) = p v || any_row p t

  -- `filter(…).count()`
  unfoldable pub count_rows : (V → Bool) → Table V → ℕ
  count_rows p [] = 0
  count_rows p ((j, v) ∷ t) = let rest = count_rows p t in if p v then suc rest else rest

  pub lookup-insert :
      (k j : ℕ) (v : V) (t : Table V)
      → lookup j (insert k v t) ≡ (if k == j then some v else lookup j t)
  unfolding lookup insert
  lookup-insert k j v [] = refl
  lookup-insert k j v ((i, w) ∷ t) = ground (arith, lookup-insert k j v t)

  pub lookup-insert_self : (k : ℕ) (v : V) (t : Table V) → lookup k (insert k v t) ≡ some v
  lookup-insert_self k v t = ground (arith, lookup-insert k k v t)

  pub any_row-count_rows : (p : V → Bool) (t : Table V) → any_row p t ≡ false → count_rows p t ≡ 0
  unfolding any_row count_rows
  any_row-count_rows p [] h = refl
  any_row-count_rows p ((j, v) ∷ t) h = ground (arith, any_row-count_rows p t)

  -- `filter(id=key).delete()`
  unfoldable pub erase : ℕ → Table V → Table V
  erase k [] = []
  erase k ((j, v) ∷ t) = let rest = erase k t in if j == k then rest else (j, v) ∷ rest

  pub lookup-erase :
      (k j : ℕ) (t : Table V) → lookup j (erase k t) ≡ (if k == j then none else lookup j t)
  unfolding lookup erase
  lookup-erase k j [] = ground arith
  lookup-erase k j ((i, v) ∷ t) = ground (arith, lookup-erase k j t)

  pub erase-insert : (k : ℕ) (v : V) (t : Table V) → erase k (insert k v t) ≡ erase k t
  unfolding insert erase
  erase-insert k v [] = ground arith
  erase-insert k v ((j, w) ∷ t) = ground (arith, erase-insert k v t)

  pub insert-insert : (k : ℕ) (v w : V) (t : Table V) → insert k w (insert k v t) ≡ insert k w t
  unfolding insert
  insert-insert k v w [] = ground arith
  insert-insert k v w ((j, x) ∷ t) = ground (arith, insert-insert k v w t)

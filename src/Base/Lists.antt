-- ===== src/Base/Lists.antt =====
-- Lists over the native numbers: lengths, tests of every element, and their laws.
use Prim.Native.Nat.{ℕ, zero, suc, ◌+◌, ◌≤◌}
use mathlib.Core.Path.{◌≡◌, refl}
use mathlib.Core.Bool.{Bool, true, false, ◌&&◌}
use mathlib.Core.Option.{Option, none, some}
use prj_app.Base.Tests.{if◌then◌else◌, ltb, Option-cases}
use mathlib.Core.Logic.{inl, inr}
use mathlib.Core.List.{List, [], ◌∷◌, ◌++◌, reverse, reverse-cons, reverse-reverse}
use native.Mathlib.Omega.{arith}

module _ {ℓ} {A : Type ℓ} where
  abbrev pub length : List A → ℕ
  length [] = 0
  length (x ∷ xs) = suc (length xs)

  unfoldable pub all : (A → Bool) → List A → Bool
  all p [] = true
  all p (x ∷ xs) = p x && all p xs

  pub length-append : (xs ys : List A) → length (xs ++ ys) ≡ length xs + length ys
  length-append [] ys = omega arith
  length-append (x ∷ xs) ys = omega (arith, length-append xs ys)

  pub all-append : (p : A → Bool) (xs ys : List A) → all p (xs ++ ys) ≡ (all p xs && all p ys)
  unfolding all
  all-append p [] ys = ground arith
  all-append p (x ∷ xs) ys = ground (arith, all-append p xs ys)

  pub all-reverse : (p : A → Bool) (xs : List A) → all p (reverse xs) ≡ all p xs
  unfolding all
  all-reverse p [] = refl
  all-reverse p (x ∷ xs) =
      ground (arith, reverse-cons x xs, all-append p (reverse xs) (x ∷ []), all-reverse p xs)

  -- Drops the elements at the front that pass a test.
  unfoldable pub drop_while : (A → Bool) → List A → List A
  drop_while p [] = []
  drop_while p (x ∷ xs) = elim (p x) [ true ↦ drop_while p xs | false ↦ x ∷ xs ]

  -- The same at both ends.
  unfoldable pub strip : (A → Bool) → List A → List A
  strip p xs = reverse (drop_while p (reverse (drop_while p xs)))

  drop_while-all_not :
      (p q : A → Bool) (xs : List A)
      → ((x : A) → q x ≡ true → p x ≡ false)
      → all q xs ≡ true
      → drop_while p xs ≡ xs
  unfolding all drop_while
  drop_while-all_not p q [] h a = refl
  drop_while-all_not p q (x ∷ xs) h a = ground (arith, h x)

  -- Where no element passes the test, nothing is stripped.
  pub strip-all_not :
      (p q : A → Bool) (xs : List A)
      → ((x : A) → q x ≡ true → p x ≡ false)
      → all q xs ≡ true
      → strip p xs ≡ xs
  unfolding strip
  strip-all_not p q xs h a = ground (
    arith,
    drop_while-all_not p q xs h a,
    all-reverse q xs,
    drop_while-all_not p q (reverse xs) h,
    reverse-reverse xs,
  )

  unfoldable pub take : ℕ → List A → List A
  take zero xs = []
  take (suc n) [] = []
  take (suc n) (x ∷ xs) = x ∷ take n xs

  unfoldable pub drop : ℕ → List A → List A
  drop zero xs = xs
  drop (suc n) [] = []
  drop (suc n) (x ∷ xs) = drop n xs

  unfoldable pub filter : (A → Bool) → List A → List A
  filter p [] = []
  filter p (x ∷ xs) = let rest = filter p xs in if p x then x ∷ rest else rest

  unfoldable pub first_of : List A → Option A
  first_of [] = none
  first_of (x ∷ xs) = some x

  unfoldable pub last_of : List A → Option A
  last_of [] = none
  last_of (x ∷ xs) = let rest = last_of xs in elim rest [ none ↦ some x | some y ↦ some y ]

  pub take-drop : (n : ℕ) (xs : List A) → take n xs ++ drop n xs ≡ xs
  unfolding take drop
  take-drop zero xs = refl
  take-drop (suc n) [] = refl
  take-drop (suc n) (x ∷ xs) = ground (arith, take-drop n xs)

  pub take_all : (n : ℕ) (xs : List A) → ltb n (length xs) ≡ false → take n xs ≡ xs
  unfolding take
  take_all zero [] h = refl
  take_all zero (x ∷ xs) h = absurd (ground arith)
  take_all (suc n) [] h = refl
  take_all (suc n) (x ∷ xs) h = ground (arith, take_all n xs)

  pub length-drop : (n : ℕ) (xs : List A) → length (drop (suc n) xs) ≤ length xs
  unfolding drop
  length-drop n [] = ground arith
  length-drop zero (x ∷ xs) = ground arith
  length-drop (suc n) (x ∷ xs) = ground (arith, length-drop n xs)

  last_of-none : (xs : List A) → last_of xs ≡ none → xs ≡ []
  unfolding last_of
  last_of-none [] h = refl
  last_of-none (x ∷ xs) h = absurd (ground arith)

  pub last_of-append :
      (xs : List A) (b : A) → last_of xs ≡ some b → (init : List A) × (xs ≡ init ++ (b ∷ []))
  unfolding last_of
  last_of-append [] b h = absurd (ground arith)
  last_of-append (x ∷ xs) b h = elim (Option-cases (last_of xs)) [
    | inl e ↦ ([], ground (arith, last_of-none xs))
    | inr (y, e) ↦ let (init, same) = last_of-append xs b (ground arith) in (x ∷ init, ground arith)
  ]

  pub take-take : (m n : ℕ) (xs : List A) → m ≤ n → take m (take n xs) ≡ take m xs
  unfolding take
  take-take zero n xs h = refl
  take-take (suc m) zero xs h = absurd (ground arith)
  take-take (suc m) (suc n) [] h = refl
  take-take (suc m) (suc n) (x ∷ xs) h = ground (arith, take-take m n xs)

  -- One more than a page is fetched where there is more than a page.
  pub length-take_more :
      (n : ℕ) (xs : List A) → ltb n (length (take (n + 1) xs)) ≡ ltb n (length xs)
  unfolding take
  length-take_more n [] = ground arith
  length-take_more zero (x ∷ xs) = ground arith
  length-take_more (suc n) (x ∷ xs) = ground (arith, length-take_more n xs)

  pub filter-append :
      (p : A → Bool) (xs ys : List A) → filter p (xs ++ ys) ≡ filter p xs ++ filter p ys
  unfolding filter
  filter-append p [] ys = refl
  filter-append p (x ∷ xs) ys = ground (arith, filter-append p xs ys)

  pub append_assoc : (xs ys zs : List A) → (xs ++ ys) ++ zs ≡ xs ++ (ys ++ zs)
  append_assoc [] ys zs = refl
  append_assoc (x ∷ xs) ys zs = ground (arith, append_assoc xs ys zs)

  pub append_nil : (xs : List A) → xs ++ [] ≡ xs
  append_nil [] = refl
  append_nil (x ∷ xs) = ground (arith, append_nil xs)

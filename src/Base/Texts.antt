-- ===== src/Base/Texts.antt =====
-- Literal texts, and the text operations of Python that several parts use.
use Prim.Native.Nat.{ℕ}
use Prim.Native.Char.{code}
use Prim.Native.String.{String}
use mathlib.Core.Bool.{Bool, true, false, ◌&&◌, ◌||◌}
use mathlib.Core.Option.{Option, none, some}
use mathlib.Core.List.{List, [], ◌∷◌, reverse}
use prj_app.Base.Tests.{Text, ◌==◌, if◌then◌else◌, text_eq}
use prj_app.Base.Lists.{drop_while}

-- A literal as a list of code points.
abbrev pub lit : String → Text
lit String.[] = []
lit (String.◌∷◌ c s) = code c ∷ lit s

-- `s in (…)`, for a tuple or a set of texts
unfoldable pub one_of : Text → List Text → Bool
one_of s [] = false
one_of s (t ∷ ts) = text_eq s t || one_of s ts

-- `s.startswith(p)`
unfoldable pub starts_with : Text → Text → Bool
starts_with s [] = true
starts_with [] (c ∷ p) = false
starts_with (x ∷ s) (c ∷ p) = x == c && starts_with s p

-- `s.endswith(…)`, for a test of the last character
unfoldable pub ends_with_one : (ℕ → Bool) → Text → Bool
ends_with_one p [] = false
ends_with_one p (c ∷ []) = p c
ends_with_one p (c ∷ d ∷ s) = ends_with_one p (d ∷ s)

-- `s.rstrip(…)`
unfoldable pub strip_right : (ℕ → Bool) → Text → Text
strip_right p s = reverse (drop_while p (reverse s))

-- `s.partition(separator)` where the separator occurs
unfoldable pub partition : ℕ → Text → Option (Text × Text)
partition separator [] = none
partition separator (c ∷ s) =
    if c == separator
    then some ([], s)
    else elim (partition separator s) [ none ↦ none | some (a, b) ↦ some (c ∷ a, b) ]

-- `s.split(separator)`; never empty.
unfoldable pub split_on : ℕ → Text → List Text
split_on separator [] = [] ∷ []
split_on separator (c ∷ s) =
    let rest = split_on separator s in
    if c == separator then [] ∷ rest else elim rest [ [] ↦ (c ∷ []) ∷ [] | p ∷ ps ↦ (c ∷ p) ∷ ps ]

-- The part before the first separator, or all of it.
unfoldable pub head_part : ℕ → Text → Text
head_part separator [] = []
head_part separator (c ∷ s) = if c == separator then [] else c ∷ head_part separator s

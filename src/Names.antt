-- ===== src/Names.antt =====
-- core/names.py: canonical SOEIDs and dashboard tags.
pub mod Soeid
pub mod Logical
use prj_app.Base.{
  ℕ, ◌+◌, ◌-◌, Bool, true, false, not, ◌&&◌, ◌||◌, Option, none, some, List, [], ◌∷◌, ◌++◌, map,
  Text, ltb, leb, ◌==◌, if◌then◌else◌, Result, ok, err, Error, ◌>>=◌, ◌>>◌, raise_if, length, all,
  strip,
}
use prj_app.Unicode.{Unicode, is_other}

-- `_ASCII_WHITESPACE`
unfoldable pub is_ascii_space : ℕ → Bool
is_ascii_space c = c == 32 || (leb 9 c && leb c 13)

-- `str.upper` on ASCII
unfoldable pub upper : ℕ → ℕ
upper c = if leb b'a' c && leb c b'z' then c - 32 else c

unfoldable pub is_alphanumeric : ℕ → Bool
is_alphanumeric c = (leb b'A' c && leb c b'Z') || (leb b'0' c && leb c b'9')

unfoldable pub is_soeid_char : ℕ → Bool
unfolding is_alphanumeric
is_soeid_char c = is_alphanumeric c || c == b'.' || c == b'_' || c == b'-'

-- `SOEID_PATTERN.fullmatch`
unfoldable pub matches_soeid : Text → Bool
matches_soeid [] = false
matches_soeid (c ∷ s) = is_alphanumeric c && all is_soeid_char s && leb (length s) 63

abbrev pub is_ascii : ℕ → Bool
is_ascii c = ltb c 128

unfoldable pub canonicalize_soeid : Text → Result Text
canonicalize_soeid value = do
  let stripped = strip is_ascii_space value
  raise_if (not (all is_ascii stripped)) Error.invalid_soeid
  let canonical = map upper stripped
  raise_if (not (matches_soeid canonical)) Error.invalid_soeid
  ok canonical

-- `str.split`, by the given test for white space.
module _ (is_space : ℕ → Bool) where
  abbrev pub extend_word : ℕ → List Text → List Text
  extend_word c [] = (c ∷ []) ∷ []
  extend_word c (w ∷ ws) = (c ∷ w) ∷ ws

  -- A character before the rest of the text, whose words are known.
  abbrev pub start_word : ℕ → Text → List Text → List Text
  start_word c [] ws = (c ∷ []) ∷ ws
  start_word c (x ∷ s) ws = if is_space x then (c ∷ []) ∷ ws else extend_word c ws

  unfoldable pub split : Text → List Text
  split [] = []
  split (c ∷ s) = let ws = split s in if is_space c then ws else start_word c s ws

-- `" ".join`
unfoldable pub join : List Text → Text
join [] = []
join (w ∷ []) = w
join (w ∷ v ∷ ws) = w ++ (32 ∷ join (v ∷ ws))

pub record TagName : Type 0 where
  pub display : Text
  pub key : Text

-- `normalize_dashboard_tag`
unfoldable pub normalize_dashboard_tag : Unicode → Text → Result TagName
normalize_dashboard_tag u value = do
  let compatible = u.nfkc value
  raise_if (not (all (λ c. is_other (u.category c)) compatible)) Error.invalid_input
  let display = join (split u.is_space compatible)
  raise_if (length display == 0 || ltb 40 (length display)) Error.invalid_input
  let key = u.nfkc (u.casefold display)
  raise_if (ltb 80 (length key)) Error.invalid_input
  ok (record { display = display; key = key })

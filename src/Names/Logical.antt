-- ===== src/Names/Logical.antt =====
-- `normalize_logical_name` of core/names.py: the names of a revision's artifacts.
use prj_app.Base.{
  ℕ, ◌+◌, Bool, not, ◌||◌, List, [], ◌∷◌, Text, ltb, ◌==◌, if◌then◌else◌, Result, ok, Error, ◌>>◌,
  raise_if, length, all, text_eq, lit, one_of, ends_with_one, strip_right, head_part,
}
use prj_app.Unicode.{Unicode, is_other}

pub record LogicalName : Type 0 where
  pub display : Text
  pub comparison_key : Text

-- `_RESERVED_WINDOWS_STEMS`
abbrev pub reserved_stems : List Text
reserved_stems =
    lit "CON"
    ∷ lit "PRN"
    ∷ lit "AUX"
    ∷ lit "NUL"
    ∷ lit "COM1"
    ∷ lit "COM2"
    ∷ lit "COM3"
    ∷ lit "COM4"
    ∷ lit "COM5"
    ∷ lit "COM6"
    ∷ lit "COM7"
    ∷ lit "COM8"
    ∷ lit "COM9"
    ∷ lit "LPT1"
    ∷ lit "LPT2"
    ∷ lit "LPT3"
    ∷ lit "LPT4"
    ∷ lit "LPT5"
    ∷ lit "LPT6"
    ∷ lit "LPT7"
    ∷ lit "LPT8"
    ∷ lit "LPT9"
    ∷ []

-- `endswith((" ", "."))`, and the characters that `rstrip(" .")` drops
abbrev pub is_space_or_dot : ℕ → Bool
is_space_or_dot c = c == b' ' || c == b'.'

-- One of `.` and `..`, or with such an end.
unfoldable pub is_reserved_form : Text → Bool
is_reserved_form s =
    text_eq s (lit ".") || (text_eq s (lit "..") || ends_with_one is_space_or_dot s)

abbrev pub is_separator : ℕ → Bool
is_separator c = c == b'/' || (c == b'\\' || c == b':')

-- The bytes of a code point in UTF-8.
abbrev pub utf8_width : ℕ → ℕ
utf8_width c = if ltb c 128 then 1 else if ltb c 2048 then 2 else if ltb c 65536 then 3 else 4

unfoldable pub utf8_length : Text → ℕ
utf8_length [] = 0
utf8_length (c ∷ s) = utf8_width c + utf8_length s

-- `compatible.split(".", maxsplit=1)[0].upper().rstrip(" .")`
unfoldable pub stem : Unicode → Text → Text
stem u compatible = strip_right is_space_or_dot (u.upper (head_part b'.' compatible))

unfoldable pub normalize_logical_name : Unicode → Text → Result LogicalName
normalize_logical_name u value = do
  let display = u.nfc value
  raise_if (length display == 0 || ltb 255 (length display)) Error.invalid_name
  let compatible = u.nfkc display
  raise_if (is_reserved_form display) Error.invalid_name
  raise_if (is_reserved_form compatible) Error.invalid_name
  raise_if (not (all (λ c. not (is_separator c)) compatible)) Error.invalid_name
  raise_if (not (all (λ c. is_other (u.category c)) display)) Error.invalid_name
  raise_if (one_of (stem u compatible) reserved_stems) Error.invalid_name
  let comparison_key = u.nfkc (u.casefold compatible)
  raise_if (ltb 1024 (utf8_length comparison_key)) Error.invalid_name
  ok (record { display = display; comparison_key = comparison_key })

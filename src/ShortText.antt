-- ===== src/ShortText.antt =====
-- `_normalize_short_text` of core/enhancements.py: single-spaced texts without controls.
pub mod Words
pub mod Idempotent
use prj_app.Base.{
  ℕ, Bool, true, not, ◌||◌, ◌&&◌, Text, ◌==◌, ltb, Result, ok, Error, ◌>>=◌, ◌>>◌, raise_if, length,
  all,
}
use prj_app.Unicode.{Unicode, is_other, is_control}
use prj_app.Names.{split, join}

-- Not a control character, but for tab, carriage return and line feed.
unfoldable pub is_permitted : Unicode → ℕ → Bool
is_permitted u c =
    is_other (u.category c) || (is_control (u.category c) && (c == 9 || (c == 13 || c == 10)))

unfoldable pub normalize_short_text : Unicode → ℕ → Text → Result Text
normalize_short_text u maximum value = do
  raise_if (not (all (is_permitted u) value)) Error.invalid_input
  let normalized = join (split u.is_space value)
  raise_if (ltb maximum (length normalized)) Error.invalid_input
  ok normalized

abbrev pub max_publication_note : ℕ
max_publication_note = 240

abbrev pub max_request_message : ℕ
max_request_message = 500

-- `normalize_access_request_message`
unfoldable pub normalize_access_request_message : Unicode → Text → Result Text
normalize_access_request_message u value = normalize_short_text u max_request_message value

-- ===== src/MediaType.antt =====
-- The media types of artifacts: `ARTIFACT_MEDIA_TYPES` of core/models.py, and
-- `_authoritative_media_type` of core/services.py.
use prj_app.Base.{
  Bool, false, not, ◌&&◌, Option, none, some, List, [], ◌∷◌, Text, ◌==◌, if◌then◌else◌, Result, ok,
  err, Error, ◌>>◌, raise_if, length, all, map, strip, text_eq, lit, one_of, starts_with, partition,
  split_on,
}
use prj_app.Unicode.{Unicode}

-- `Artifact.Kind`
pub data Kind : Type 0 where
  html csv css image font : Kind

-- `ARTIFACT_MEDIA_TYPES`
unfoldable pub media_types : Kind → List Text
media_types Kind.html = lit "text/html" ∷ []
media_types Kind.csv = lit "text/csv" ∷ []
media_types Kind.css = lit "text/css" ∷ []
media_types Kind.image =
    lit "image/png" ∷ lit "image/jpeg" ∷ lit "image/gif" ∷ lit "image/webp" ∷ []
media_types Kind.font = lit "font/woff" ∷ lit "font/woff2" ∷ []

-- The one type of a kind, where it has one.
unfoldable pub only_type : Kind → Result Text
unfolding media_types
only_type kind = elim (media_types kind) [
  | [] ↦ err Error.revision_rejected
  | t ∷ ts ↦ if length ts == 0 then ok t else err Error.revision_rejected
]

-- A parameter that only repeats the UTF-8 charset of a text.
unfoldable pub is_utf8_charset : Unicode → Text → Text → Bool
is_utf8_charset u base parameter = elim (partition b'=' parameter) [
  | none ↦ false
  | some (key, value) ↦
      text_eq (u.casefold key) (lit "charset")
      && (text_eq (u.casefold (strip (λ c. c == b'"') (strip u.is_space value))) (lit "utf-8")
          && starts_with base (lit "text/"))
]

-- The pieces of a supplied type, and their checks.
unfoldable pub checked_type : Unicode → Kind → List Text → Result Text
checked_type u kind [] = err Error.revision_rejected
checked_type u kind (first ∷ parameters) = do
  raise_if (not (one_of (u.casefold first) (media_types kind))) Error.revision_rejected
  raise_if (not (all (is_utf8_charset u (u.casefold first)) parameters)) Error.revision_rejected
  ok (u.casefold first)

-- `_authoritative_media_type`
unfoldable pub authoritative_media_type : Unicode → Kind → Option Text → Result Text
authoritative_media_type u kind none = only_type kind
authoritative_media_type u kind (some supplied) = do
  raise_if (length (strip u.is_space supplied) == 0) Error.revision_rejected
  checked_type u kind (map (strip u.is_space) (split_on b';' supplied))

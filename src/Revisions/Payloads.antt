-- ===== src/Revisions/Payloads.antt =====
-- The payloads of a revision, and `_validate_payload_set` of core/services.py.
use prj_app.Base.{
  ℕ, suc, ◌+◌, Bool, true, false, not, Option, List, [], ◌∷◌, Text, ◌==◌, if◌then◌else◌, Result, ok,
  Error, ◌>>=◌, ◌>>◌, raise_if, one_of,
}
use prj_app.Unicode.{Unicode}
use prj_app.Names.Logical.{LogicalName, normalize_logical_name}
use prj_app.MediaType.{Kind, authoritative_media_type}
use prj_app.Disk.{WriteFaults, is_digest}

-- `ArtifactPayload`, with a kind and a size that its type already checks.
pub record Payload : Type 0 where
  pub kind : Kind
  pub logical_name : Text
  pub chunks : List Text
  pub expected_size : ℕ
  pub expected_sha256 : Text
  pub media_type : Option Text

-- What the clock, the random sources and the operating system give to the storage of one payload:
-- the identifiers and keys that are drawn for its reservation, its expiry, the faults of the write,
-- whether the database fails when the key is reserved or the outcome of the write recorded, and the
-- identifier of the artifact.
pub record Supply : Type 0 where
  pub draw_id : ℕ → ℕ
  pub draw_key : ℕ → ℕ
  pub expires_at : ℕ
  pub faults : WriteFaults
  pub reserve_fails : Bool
  pub mark_fails : Bool
  pub artifact_id : ℕ

abbrev pub is_html : Kind → Bool
is_html Kind.html = true
is_html _ = false

unfoldable pub count_html : List Payload → ℕ
count_html [] = 0
count_html (p ∷ ps) = if is_html p.kind then count_html ps + 1 else count_html ps

-- The loop of `_validate_payload_set`; `seen` are the comparison keys so far.
unfoldable pub validate_names : Unicode → List Text → List Payload → Result (List LogicalName)
validate_names u seen [] = ok []
validate_names u seen (p ∷ ps) = do
  raise_if (not (is_digest p.expected_sha256)) Error.revision_rejected
  media_type ← authoritative_media_type u p.kind p.media_type
  name ← normalize_logical_name u p.logical_name
  raise_if (one_of name.comparison_key seen) Error.revision_rejected
  names ← validate_names u (name.comparison_key ∷ seen) ps
  ok (name ∷ names)

-- `_validate_payload_set`
unfoldable pub validate_payload_set : Unicode → List Payload → Result (List LogicalName)
validate_payload_set u payloads = do
  raise_if (not (count_html payloads == 1)) Error.revision_rejected
  validate_names u [] payloads

-- The payloads of a call, each with its normalized name and its supply.
abbrev pub Item : Type 0
Item = Payload × LogicalName × Supply

-- `zip(payloads, normalized, strict=True)`, and the supplies from the n-th on
unfoldable pub zip_items : List Payload → List LogicalName → (ℕ → Supply) → ℕ → List Item
zip_items (p ∷ ps) (name ∷ names) supplies n =
    (p, name, supplies n) ∷ zip_items ps names supplies (suc n)
zip_items _ _ supplies n = []

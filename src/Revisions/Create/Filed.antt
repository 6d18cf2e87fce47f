-- ===== src/Revisions/Create/Filed.antt =====
-- The artifacts of a commit are those of its payloads.
use mathlib.Core.Path.{◌∙◌}
use prj_app.Base.{
  ℕ, suc, ◌≡◌, refl, some, List, [], ◌∷◌, Text, Table, lookup, insert, arith, Result-cases, inl,
  inr, ok, lookup-insert, length,
}
use prj_app.Unicode.{Unicode}
use prj_app.Model.{Revision}
use prj_app.Names.Logical.{LogicalName, normalize_logical_name}
use prj_app.MediaType.{authoritative_media_type}
use prj_app.Disk.{Disk, bytes_of}
use prj_app.Vault.{Vault, Artifact, save_new_artifact}
use prj_app.Revisions.Payloads.{Payload, Supply, validate_names, zip_items}
use prj_app.Revisions.Rounds.{Prepared}
use prj_app.Revisions.Rounds.Kept.{AllKept}
use prj_app.Revisions.Rounds.Filled.{payloads_of}
use prj_app.Revisions.Commit.{save_artifacts, artifact_row}
use prj_app.Revisions.Commit.Adopted.{save_new_artifact-ok}

-- Later artifacts leave the earlier ones as they are.
save_artifacts_kept :
    (u : Unicode) (id : ℕ) (revision : Revision) (ps : List Prepared)
    (before after : Table Artifact) (i : ℕ) (a : Artifact)
    → save_artifacts u id revision ps before ≡ ok after
    → lookup i before ≡ some a
    → lookup i after ≡ some a
unfolding save_artifacts
save_artifacts_kept u id revision [] before after i a h e = ground arith
save_artifacts_kept u id revision (p ∷ ps) before after i a h e =
    elim (Result-cases (save_new_artifact u revision before (artifact_row id p))) [
      | inr (x, q) ↦ absurd (ground arith)
      | inl (b, q) ↦
          save_artifacts_kept u id revision ps (insert p.artifact_id b before) after i a
            (ground arith) (ground (arith, lookup-insert p.artifact_id i b before))
    ]

module _ (u : Unicode) (digest : Text → Text) where
  -- An artifact of the revision has the kind, the size, the digest and the media type of the
  -- payload, and its key those very bytes.
  pub record Filed (id : ℕ) (disk : Disk) (artifacts : Table Artifact) (p : Payload) : Type 0 where
    pub index : ℕ
    pub artifact : Artifact
    pub row : lookup index artifacts ≡ some artifact
    pub revision : artifact.revision ≡ id
    pub kind : artifact.kind ≡ p.kind
    pub media_type : authoritative_media_type u p.kind p.media_type ≡ ok artifact.media_type
    pub file : lookup artifact.storage_key disk.files ≡ some (bytes_of p.chunks)
    pub sized :
        (artifact.byte_size ≡ p.expected_size) × (length (bytes_of p.chunks) ≡ p.expected_size)
    pub hashed :
        (artifact.sha256 ≡ p.expected_sha256) × (digest (bytes_of p.chunks) ≡ p.expected_sha256)

  abbrev pub AllFiled : ℕ → Disk → Table Artifact → List Payload → Type 0
  AllFiled id disk artifacts [] = Unit
  AllFiled id disk artifacts (p ∷ ps) = Filed id disk artifacts p × AllFiled id disk artifacts ps

  pub save_artifacts-AllFiled :
      (id : ℕ) (revision : Revision) (ps : List Payload) (qs : List Prepared)
      (before after : Table Artifact) (v : Vault)
      → AllKept u digest v ps qs
      → save_artifacts u id revision qs before ≡ ok after
      → AllFiled id v.disk after ps
  unfolding save_artifacts
  save_artifacts-AllFiled id revision [] qs before after v a h = tt
  save_artifacts-AllFiled id revision (p ∷ ps) [] before after v a h = absurd a
  save_artifacts-AllFiled id revision (p ∷ ps) (q ∷ qs) before after v (k, a) h =
      elim (Result-cases (save_new_artifact u revision before (artifact_row id q))) [
        | inr (x, e) ↦ absurd (ground arith)
        | inl (b, e) ↦
            let (key, size, sha, rev, kind, media) =
              save_new_artifact-ok u revision before (artifact_row id q) b e in
            let next = insert q.artifact_id b before in
            let rest : save_artifacts u id revision qs next ≡ ok after = ground arith in
            let row = lookup-insert q.artifact_id q.artifact_id b before in
            let media' = k.media_type in
            let file = k.file in
            (
              record {
                index = q.artifact_id;
                artifact = b;
                row =
                    save_artifacts_kept u id revision qs next after q.artifact_id b rest
                      (ground (arith, row));
                revision = rev;
                kind = kind ∙ k.kind;
                media_type = rw media media';
                file = rw key file;
                sized = (size ∙ k.size_receipt, k.sized);
                hashed = (sha ∙ k.sha256_receipt, k.hashed);
              },
              save_artifacts-AllFiled id revision ps qs next after v a rest,
            )
      ]

pub validate_names-payloads_of :
    (u : Unicode) (seen : List Text) (ps : List Payload) (names : List LogicalName)
    (supplies : ℕ → Supply) (n : ℕ)
    → validate_names u seen ps ≡ ok names
    → payloads_of (zip_items ps names supplies n) ≡ ps
unfolding validate_names zip_items
validate_names-payloads_of u seen [] names supplies n h = refl
validate_names-payloads_of u seen (p ∷ ps) names supplies n h =
    elim (Result-cases (normalize_logical_name u p.logical_name)) [
      | inr (x, e) ↦ absurd (ground arith)
      | inl (name, e) ↦ elim (Result-cases (validate_names u (name.comparison_key ∷ seen) ps)) [
        | inr (x, r) ↦ absurd (ground arith)
        | inl (rest, r) ↦
            let all : names ≡ name ∷ rest = ground arith in
            let again =
              validate_names-payloads_of u (name.comparison_key ∷ seen) ps rest supplies (suc n)
                r in
            rw (all, again) refl
      ]
    ]

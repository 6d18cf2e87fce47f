-- ===== src/Revisions/Commit/Checked.antt =====
-- What the checks of a commit establish of its prepared artifacts.
use mathlib.Core.Path.{◌∙◌}
use prj_app.Base.{
  sym, ℕ, Bool, ◌≡◌, false, some, List, [], ◌∷◌, Text, Table, lookup, insert, erase, ◌==◌, arith,
  lookup-erase, any_row-insert-false, Option-cases, inl, inr, ok, opt_eq_sound, text_eq_sound,
}
use prj_app.Unicode.{Unicode}
use prj_app.Disk.{Disk, bytes_of}
use prj_app.Disk.Contents.{Holds}
use prj_app.Vault.{Vault, Artifact, Reservation}
use prj_app.Vault.Safe.{Safe}
use prj_app.Reservations.{has_artifact}
use prj_app.Revisions.Payloads.{Payload}
use prj_app.Revisions.Rounds.{Prepared}
use prj_app.Revisions.Rounds.Kept.{AllKept}
use prj_app.Revisions.Commit.{check_prepared, is_repeated, check_all}

pub record Checked (v : Vault) (p : Prepared) : Type 0 where
  pub r : Reservation
  pub row : lookup p.reservation_id v.reservations ≡ some r
  pub at_key : r.storage_key ≡ p.key
  pub sized : r.verified_size ≡ some p.receipt.byte_size
  pub hashed : r.verified_sha256 ≡ p.receipt.sha256
  pub clean : r.cleanup_required ≡ false
  pub free : has_artifact p.key v ≡ false

abbrev pub AllChecked : Vault → List Prepared → Type 0
AllChecked v [] = Unit
AllChecked v (p ∷ ps) = Checked v p × (is_repeated p.reservation_id ps ≡ false) × AllChecked v ps

check_prepared-Checked : (v : Vault) (p : Prepared) → check_prepared v p ≡ ok tt → Checked v p
unfolding check_prepared
check_prepared-Checked v p h = elim (Option-cases (lookup p.reservation_id v.reservations)) [
  | inl gone ↦ absurd (ground arith)
  | inr (r, e) ↦ record {
    r = r;
    row = e;
    at_key = ground arith;
    sized = ground (arith, opt_eq_sound r.verified_size (some p.receipt.byte_size));
    hashed = ground (arith, text_eq_sound r.verified_sha256 p.receipt.sha256);
    clean = ground arith;
    free = ground arith;
  }
]

pub check_all-AllChecked :
    (v : Vault) (ps : List Prepared) → check_all v ps ≡ ok tt → AllChecked v ps
unfolding check_all
check_all-AllChecked v [] h = tt
check_all-AllChecked v (p ∷ ps) h = (
  check_prepared-Checked v p (ground arith),
  ground arith,
  check_all-AllChecked v ps (ground arith),
)

-- The bytes of every prepared artifact lie on the disk.
abbrev pub AllHeld : (Text → Text) → Disk → List Prepared → Type 0
AllHeld digest disk [] = Unit
AllHeld digest disk (p ∷ ps) =
    Holds digest disk p.key p.receipt.byte_size p.receipt.sha256 × AllHeld digest disk ps

pub AllKept-AllHeld :
    (u : Unicode) (digest : Text → Text) (v : Vault) (ps : List Payload) (qs : List Prepared)
    → AllKept u digest v ps qs
    → AllHeld digest v.disk qs
AllKept-AllHeld u digest v [] [] a = tt
AllKept-AllHeld u digest v [] (q ∷ qs) a = absurd a
AllKept-AllHeld u digest v (p ∷ ps) [] a = absurd a
AllKept-AllHeld u digest v (p ∷ ps) (q ∷ qs) (k, a) = (
  record {
    bytes = bytes_of p.chunks;
    file = k.file;
    sized = k.sized ∙ sym k.size_receipt;
    hashed = k.hashed ∙ sym k.sha256_receipt;
  },
  AllKept-AllHeld u digest v ps qs a,
)

module _ (digest : Text → Text) (foreign : Table Text) (lost : ℕ → Bool) where
  -- Another artifact's adoption leaves the checks true.
  pub AllChecked-adopt :
      (v : Vault) (p : Prepared) (a : Artifact) (ps : List Prepared)
      → Safe digest foreign lost v
      → Checked v p
      → a.storage_key ≡ p.key
      → is_repeated p.reservation_id ps ≡ false
      → AllChecked v ps
      → AllChecked
          (record v {
            artifacts = insert p.artifact_id a v.artifacts;
            reservations = erase p.reservation_id v.reservations;
          })
          ps
  unfolding is_repeated has_artifact
  AllChecked-adopt v p a [] s c key fresh all = tt
  AllChecked-adopt v p a (q ∷ ps) s c key fresh (d, once, all) =
      let differs : (q.reservation_id == p.reservation_id) ≡ false = ground arith in
      let row = d.row in
      let first = c.row in
      let at_p = c.at_key in
      let at_q = d.at_key in
      let free = d.free in
      (
        record {
          r = d.r;
          row = ground (arith, lookup-erase p.reservation_id q.reservation_id v.reservations);
          at_key = d.at_key;
          sized = d.sized;
          hashed = d.hashed;
          clean = d.clean;
          free =
              any_row-insert-false (λ b. b.storage_key == q.key) v.artifacts p.artifact_id a free
                (ground (arith, s.unique p.reservation_id q.reservation_id c.r d.r));
        },
        once,
        AllChecked-adopt v p a ps s c key (ground arith) all,
      )

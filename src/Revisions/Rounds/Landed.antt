-- ===== src/Revisions/Rounds/Landed.antt =====
-- What a write under a reserved key leaves.
use mathlib.Core.Path.{ap, ◌∙◌}
use prj_app.Base.{
  Bool, ℕ, ◌≡◌, refl, sym, none, some, Text, Table, List, lookup, arith, Option-cases, inl, inr,
}
use prj_app.Disk.{Disk, WriteFaults, Receipt, Written, bytes_of, write}
use prj_app.Disk.Contents.{Holds, receipt_in, write-Installed, write_kept, write_others}
use prj_app.Vault.{Vault, valid_reservation}
use prj_app.Vault.Safe.{Safe, Safe-files}
use prj_app.Reservations.{fresh_reservation}
use prj_app.Reservations.Bytes.{Safe-disk}
use prj_app.Revisions.Rounds.Reserved.{Reserved}

module _ (digest : Text → Text) (foreign : Table Text) (lost : ℕ → Bool) where
  pub record Landed (key : ℕ) (outcome : Written) (v : Vault) : Type 0 where
    pub safe : Safe digest foreign lost v
    pub mine :
        (receipt : Receipt)
        → receipt_in digest outcome ≡ some receipt
        → (lookup key foreign ≡ none) × Holds digest v.disk key receipt.byte_size receipt.sha256
    pub strange :
        (bytes : Text)
        → receipt_in digest outcome ≡ none
        → lookup key v.disk.files ≡ some bytes
        → lookup key foreign ≡ some bytes

  not_foreign :
      (key : ℕ) (v : Vault)
      → Safe digest foreign lost v
      → lookup key v.disk.files ≡ none
      → lookup key foreign ≡ none
  not_foreign key v s free = elim (Option-cases (lookup key foreign)) [
    | inl fine ↦ fine
    | inr (bytes, e) ↦ absurd (ground (arith, s.kept key bytes e))
  ]

  pub write-Landed :
      (faults : WriteFaults) (id key expires_at : ℕ) (chunks : List Text) (size : ℕ) (sha256 : Text)
      (v w : Vault) (outcome : Written) (disk : Disk)
      → Reserved digest foreign lost id key expires_at v w
      → write digest faults key chunks size sha256 w.disk ≡ (outcome, disk)
      → Landed key outcome (record w { disk = disk })
  unfolding valid_reservation
  write-Landed faults id key expires_at chunks size sha256 v w outcome disk h e =
      let row = fresh_reservation key expires_at in
      let others =
        λ (k : ℕ). write_others digest faults key k chunks size sha256 w.disk outcome disk e in
      elim (Option-cases (receipt_in digest outcome)) [
        | inl nothing ↦
            let same =
              write_kept digest faults key chunks size sha256 w.disk outcome disk e nothing in
            record {
              safe = Safe-files digest foreign lost w disk h.safe same;
              mine = λ receipt r. absurd (ground arith);
              strange = λ bytes n f. h.strange bytes (sym (ap (lookup key) same) ∙ f);
            }
        | inr (receipt, there) ↦
            let x =
              write-Installed digest faults key chunks size sha256 w.disk outcome receipt disk e
                there in
            let mine = not_foreign key w h.safe x.unused in
            record {
              safe =
                  Safe-disk digest foreign lost id key row w disk h.safe h.row refl others mine
                    (record {
                      valid = refl;
                      own = λ o. absurd (ground arith);
                      verified = λ g o c. absurd (ground arith);
                      strange = λ bytes c. absurd (ground arith);
                    });
              mine = λ r t. (
                mine,
                record {
                  bytes = bytes_of chunks;
                  file = x.file;
                  sized = ground (arith, x.sized, x.size_receipt);
                  hashed = ground (arith, x.hashed, x.sha256_receipt);
                },
              );
              strange = λ bytes n f. absurd (ground arith);
            }
      ]

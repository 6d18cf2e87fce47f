-- ===== src/Revisions/Rounds/Kept.antt =====
-- Prepared artifacts stand for the payloads, byte by byte, until the loop ends.
use mathlib.Core.Path.{◌∙◌}
use prj_app.Base.{
  Bool, ℕ, ◌≡◌, refl, false, none, some, [], ◌∷◌, Text, Table, List, lookup, insert, ◌==◌, arith,
  inl, inr, ok, Result-cases, lookup-insert, any_row_none, length,
}
use prj_app.Unicode.{Unicode}
use prj_app.Names.Logical.{LogicalName}
use prj_app.MediaType.{authoritative_media_type}
use prj_app.Disk.{Disk, Receipt, Written, stored, committed, collision, failed, write, bytes_of}
use prj_app.Disk.{cleanup_required as residue}
use prj_app.Disk.Contents.{write-Installed, write_others}
use prj_app.Vault.{Vault, Reservation, StorageState, save_reservation}
use prj_app.Vault.Safe.{Safe}
use prj_app.Reservations.{
  key_attempts, fresh_reservation, reserve_round, has_reservation, mark_verified, transaction,
  transaction-ok, update_reservation, Candidate,
}
use prj_app.Reservations.Steps.{save_reservation-ok}
use prj_app.Revisions.Payloads.{Payload, Supply}
use prj_app.Revisions.Rounds.{Prepared, ready, after_write, store_payload}
use prj_app.Revisions.Rounds.Reserved.{reserve_round-Reserved}

module _ (u : Unicode) (digest : Text → Text) where
  -- A prepared artifact stands for a payload: a reservation has its key, under which the bytes of
  -- the payload lie, of the size and the digest that the caller expects.
  pub record Kept (v : Vault) (p : Payload) (q : Prepared) : Type 0 where
    pub kind : q.kind ≡ p.kind
    pub media_type : authoritative_media_type u p.kind p.media_type ≡ ok q.media_type
    pub r : Reservation
    pub row : lookup q.reservation_id v.reservations ≡ some r
    pub at_key : r.storage_key ≡ q.key
    pub file : lookup q.key v.disk.files ≡ some (bytes_of p.chunks)
    pub sized : length (bytes_of p.chunks) ≡ p.expected_size
    pub hashed : digest (bytes_of p.chunks) ≡ p.expected_sha256
    pub size_receipt : q.receipt.byte_size ≡ p.expected_size
    pub sha256_receipt : q.receipt.sha256 ≡ p.expected_sha256

  abbrev pub AllKept : Vault → List Payload → List Prepared → Type 0
  AllKept v [] [] = Unit
  AllKept v (p ∷ ps) (q ∷ qs) = Kept v p q × AllKept v ps qs
  AllKept v _ _ = ⊥

  -- What a finished round has done.
  pub record Finished (p : Payload) (name : LogicalName) (s : Supply) (v w : Vault) (q : Prepared)
      : Type 0 where
    outcome : Receipt
    disk : Disk
    id : ℕ
    key : ℕ
    n : Reservation
    unused : lookup id v.reservations ≡ none
    alone : has_reservation key v ≡ false
    written :
        write digest s.faults key p.chunks p.expected_size p.expected_sha256 v.disk
        ≡ (stored outcome, disk)
    prepared : (q.reservation_id ≡ id) × (q.key ≡ key) × (q.kind ≡ p.kind) × (q.receipt ≡ outcome)
    media_type : authoritative_media_type u p.kind p.media_type ≡ ok q.media_type
    at_key : n.storage_key ≡ key
    reservations :
        w.reservations ≡ insert id n (insert id (fresh_reservation key s.expires_at) v.reservations)
    files : w.disk ≡ disk

  -- What the end of a round says of the write.
  record Marked (p : Payload) (id key : ℕ) (outcome : Written) (v w : Vault) (q : Prepared)
      : Type 0 where
    receipt : Receipt
    written : outcome ≡ stored receipt
    marked : mark_verified id key receipt v ≡ ok w
    media_type : authoritative_media_type u p.kind p.media_type ≡ ok q.media_type
    prepared : (q.reservation_id ≡ id) × (q.key ≡ key) × (q.kind ≡ p.kind) × (q.receipt ≡ receipt)

  after_write-Marked :
      (p : Payload) (name : LogicalName) (s : Supply) (id key : ℕ) (outcome : Written) (v w : Vault)
      (c : Candidate) (q : Prepared)
      → after_write u digest (p, name, s) id key outcome v ≡ ready c q w
      → Marked p id key outcome v w q
  unfolding after_write
  after_write-Marked p name s id key collision v w c q h = absurd (ground arith)
  after_write-Marked p name s id key (committed receipt) v w c q h = absurd (ground arith)
  after_write-Marked p name s id key residue v w c q h = absurd (ground arith)
  after_write-Marked p name s id key failed v w c q h = absurd (ground arith)
  after_write-Marked p name s id key (stored receipt) v w c q h =
      elim (Result-cases (transaction s.mark_fails (mark_verified id key receipt v))) [
        | inr (x, m) ↦ absurd (ground arith)
        | inl (x, m) ↦ elim (Result-cases (authoritative_media_type u p.kind p.media_type)) [
          | inr (y, t) ↦ absurd (ground arith)
          | inl (y, t) ↦ record {
            receipt = receipt;
            written = refl;
            marked = transaction-ok s.mark_fails (mark_verified id key receipt v) w (ground arith);
            media_type = ground arith;
            prepared = (ground arith, ground arith, ground arith, ground arith);
          }
        ]
      ]

  mark_verified-rows :
      (id key : ℕ) (receipt : Receipt) (r : Reservation) (v w : Vault)
      → lookup id v.reservations ≡ some r
      → mark_verified id key receipt v ≡ ok w
      → (n : Reservation) × (n.storage_key ≡ key)
        × (w.reservations ≡ insert id n v.reservations)
        × (w.disk ≡ v.disk)
  unfolding mark_verified update_reservation
  mark_verified-rows id key receipt r v w e h =
      let n : Reservation = record r {
        verified_size = some receipt.byte_size;
        verified_sha256 = receipt.sha256;
        storage_state = StorageState.owned;
        cleanup_required = false;
      } in
      elim (Result-cases (save_reservation r n)) [
        | inr (x, p) ↦ absurd (ground arith)
        | inl (saved, p) ↦
            let (same, k, valid) = save_reservation-ok r n saved p in
            (n, ground arith, ground arith, ground arith)
      ]

  -- A round that is ready has stored its payload.
  pub store_payload-Finished :
      (foreign : Table Text) (lost : ℕ → Bool) (p : Payload) (name : LogicalName) (s : Supply)
      (v w : Vault) (c : Candidate) (q : Prepared)
      → Safe digest foreign lost v
      → store_payload u digest (p, name, s) v ≡ ready c q w
      → Finished p name s v w q
  unfolding store_payload
  store_payload-Finished foreign lost p name s v w c q safe h =
      elim (Result-cases (
        transaction s.reserve_fails
          (reserve_round key_attempts s.draw_id s.draw_key s.expires_at v))) [
            | inr (x, e) ↦ absurd (ground arith)
            | inl ((id, key, x), e) ↦
                let made =
                  reserve_round-Reserved digest foreign lost key_attempts s.draw_id s.draw_key
                    s.expires_at v x id key safe
                    (transaction-ok s.reserve_fails
                      (reserve_round key_attempts s.draw_id s.draw_key s.expires_at v) (id, key, x)
                      e) in
                let out =
                  write digest s.faults key p.chunks p.expected_size p.expected_sha256 x.disk in
                let next : Vault = record x { disk = out.1 } in
                let end = after_write-Marked p name s id key out.0 next w c q (ground arith) in
                let (n, at_key, rows, disk) =
                  mark_verified-rows id key end.receipt (fresh_reservation key s.expires_at) next w
                    made.row end.marked in
                let before = made.rows in
                let same = made.same_disk in
                let written = end.written in
                record {
                  outcome = end.receipt;
                  disk = out.1;
                  id = id;
                  key = key;
                  n = n;
                  unused = made.unused;
                  alone = made.alone;
                  written = rw (← same) (ground arith);
                  prepared = end.prepared;
                  media_type = end.media_type;
                  at_key = at_key;
                  reservations = ground arith;
                  files = disk;
                }
          ]

  -- The payload of a finished round is kept.
  pub Finished-Kept :
      (p : Payload) (name : LogicalName) (s : Supply) (v w : Vault) (q : Prepared)
      → Finished p name s v w q
      → Kept w p q
  Finished-Kept p name s v w q f =
      let x =
        write-Installed digest s.faults f.key p.chunks p.expected_size p.expected_sha256 v.disk
          (stored f.outcome) f.outcome f.disk f.written refl in
      let (id, key, kind, receipt) = f.prepared in
      let fresh = fresh_reservation f.key s.expires_at in
      let rows = f.reservations in
      let files = f.files in
      let file = x.file in
      let at_key = f.at_key in
      let size = x.size_receipt in
      let sha = x.sha256_receipt in
      record {
        kind = kind;
        media_type = f.media_type;
        r = f.n;
        row = ground (arith, lookup-insert f.id f.id f.n (insert f.id fresh v.reservations));
        at_key = ground arith;
        file = rw (key, files) file;
        sized = x.sized;
        hashed = x.hashed;
        size_receipt = ground arith;
        sha256_receipt = ground arith;
      }

  -- What was kept before the round is kept after it.
  pub Finished-others :
      (p' : Payload) (q' : Prepared) (p : Payload) (name : LogicalName) (s : Supply) (v w : Vault)
      (q : Prepared)
      → Finished p name s v w q
      → Kept v p' q'
      → Kept w p' q'
  unfolding has_reservation
  Finished-others p' q' p name s v w q f k =
      let row = k.row in
      let at_key = k.at_key in
      let rows = f.reservations in
      let files = f.files in
      let file = k.file in
      let unused = f.unused in
      let fresh = fresh_reservation f.key s.expires_at in
      let other =
        any_row_none (λ r. r.storage_key == f.key) v.reservations q'.reservation_id {v = k.r}
          f.alone row in
      let id_differs : (f.id == q'.reservation_id) ≡ false = ground arith in
      let key_differs : (f.key == q'.key) ≡ false = ground arith in
      let same =
        write_others digest s.faults f.key q'.key p.chunks p.expected_size p.expected_sha256 v.disk
          (stored f.outcome) f.disk f.written key_differs in
      record {
        kind = k.kind;
        media_type = k.media_type;
        r = k.r;
        row = ground (
          arith,
          lookup-insert f.id q'.reservation_id f.n (insert f.id fresh v.reservations),
          lookup-insert f.id q'.reservation_id fresh v.reservations,
        );
        at_key = at_key;
        file = rw files (same ∙ file);
        sized = k.sized;
        hashed = k.hashed;
        size_receipt = k.size_receipt;
        sha256_receipt = k.sha256_receipt;
      }

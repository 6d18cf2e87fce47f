-- ===== src/Disk/Contents.antt =====
-- What a write and a delete do to the files under their final names.
use prj_app.Base.{
  ℕ, ◌+◌, ◌≡◌, refl, true, false, Option, none, some, List, [], ◌∷◌, Text, lookup, insert, ◌==◌,
  length, length-append, text_eq_sound, arith, lookup-insert, lookup-erase,
}
use prj_app.Disk.{
  Disk, WriteFaults, Receipt, Written, stored, committed, is_digest, bytes_of, sizes_match, accepts,
  abandon, install, write, DeleteFault, nowhere, at_final, at_pending, at_sync, delete,
}

sizes_match_sound :
    (expected size : ℕ) (chunks : List Text)
    → sizes_match expected size chunks ≡ true
    → size + length (bytes_of chunks) ≡ expected
unfolding sizes_match bytes_of
sizes_match_sound expected size [] h = ground arith
sizes_match_sound expected size (c ∷ cs) h =
    ground (arith, sizes_match_sound expected (size + length c) cs, length-append c (bytes_of cs))

module _ (digest : Text → Text) where
  -- The file under this key has this size and digest.
  pub record Holds (disk : Disk) (key size : ℕ) (sha256 : Text) : Type 0 where
    pub bytes : Text
    pub file : lookup key disk.files ≡ some bytes
    pub sized : length bytes ≡ size
    pub hashed : digest bytes ≡ sha256

  accepts_sound :
      (chunks : List Text) (size : ℕ) (sha256 : Text)
      → accepts digest chunks size sha256 ≡ true
      → (length (bytes_of chunks) ≡ size)
        × (digest (bytes_of chunks) ≡ sha256)
        × (is_digest sha256 ≡ true)
  unfolding accepts
  accepts_sound chunks size sha256 h = (
    ground (arith, sizes_match_sound size 0 chunks),
    ground (arith, text_eq_sound (digest (bytes_of chunks)) sha256),
    ground arith,
  )

  -- What a write leaves under its key, by its outcome: the verified bytes, where there were none, or
  -- what was there.
  pub record Installed (key : ℕ) (chunks : List Text) (size : ℕ) (sha256 : Text) (disk : Disk)
      (receipt : Receipt) (disk' : Disk) : Type 0 where
    pub unused : lookup key disk.files ≡ none
    pub file : lookup key disk'.files ≡ some (bytes_of chunks)
    pub sized : length (bytes_of chunks) ≡ size
    pub hashed : digest (bytes_of chunks) ≡ sha256
    pub size_receipt : receipt.byte_size ≡ size
    pub sha256_receipt : receipt.sha256 ≡ sha256
    pub form : is_digest sha256 ≡ true

  -- The receipt of a write that leaves the file.
  abbrev pub receipt_in : Written → Option Receipt
  receipt_in (stored r) = some r
  receipt_in (committed r) = some r
  receipt_in _ = none

  install-Installed :
      (faults : WriteFaults) (key : ℕ) (chunks : List Text) (size : ℕ) (sha256 : Text) (disk : Disk)
      (w : Written) (r : Receipt) (disk' : Disk)
      → accepts digest chunks size sha256 ≡ true
      → install digest faults key (bytes_of chunks) disk ≡ (w, disk')
      → receipt_in w ≡ some r
      → Installed key chunks size sha256 disk r disk'
  unfolding install abandon
  install-Installed faults key chunks size sha256 disk w r disk' h e i =
      let (a, b, c) = accepts_sound chunks size sha256 h in
      let there = lookup-insert key key (bytes_of chunks) disk.files in
      record {
        unused = ground arith;
        file = ground (arith, there);
        sized = a;
        hashed = b;
        size_receipt = ground (arith, a);
        sha256_receipt = ground (arith, b);
        form = c;
      }

  install_kept :
      (faults : WriteFaults) (key : ℕ) (bytes : Text) (disk : Disk) (w : Written) (disk' : Disk)
      → install digest faults key bytes disk ≡ (w, disk')
      → receipt_in w ≡ none
      → disk'.files ≡ disk.files
  unfolding install abandon
  install_kept faults key bytes disk w disk' e i = ground arith

  install_others :
      (faults : WriteFaults) (key k : ℕ) (bytes : Text) (disk : Disk) (w : Written) (disk' : Disk)
      → install digest faults key bytes disk ≡ (w, disk')
      → (key == k) ≡ false
      → lookup k disk'.files ≡ lookup k disk.files
  unfolding install abandon
  install_others faults key k bytes disk w disk' e i =
      ground (arith, lookup-insert key k bytes disk.files)

  -- A write that leaves the file leaves the bytes of the chunks, of the expected size and digest,
  -- under a name that was free.
  pub write-Installed :
      (faults : WriteFaults) (key : ℕ) (chunks : List Text) (size : ℕ) (sha256 : Text) (disk : Disk)
      (w : Written) (r : Receipt) (disk' : Disk)
      → write digest faults key chunks size sha256 disk ≡ (w, disk')
      → receipt_in w ≡ some r
      → Installed key chunks size sha256 disk r disk'
  unfolding write abandon
  write-Installed faults key chunks size sha256 disk w r disk' e i =
      let opened : Disk = record disk { pending = insert key (bytes_of chunks) disk.pending } in
      let (a, b) : (accepts digest chunks size sha256 ≡ true)
          × (install digest faults key (bytes_of chunks) opened ≡ (w, disk')) =
        (ground arith, ground arith) in
      let x = install-Installed faults key chunks size sha256 opened w r disk' a b i in
      record {
        unused = x.unused;
        file = x.file;
        sized = x.sized;
        hashed = x.hashed;
        size_receipt = x.size_receipt;
        sha256_receipt = x.sha256_receipt;
        form = x.form;
      }

  -- Any other write leaves every file as it was.
  pub write_kept :
      (faults : WriteFaults) (key : ℕ) (chunks : List Text) (size : ℕ) (sha256 : Text) (disk : Disk)
      (w : Written) (disk' : Disk)
      → write digest faults key chunks size sha256 disk ≡ (w, disk')
      → receipt_in w ≡ none
      → disk'.files ≡ disk.files
  unfolding write abandon
  write_kept faults key chunks size sha256 disk w disk' e i =
      let opened : Disk = record disk { pending = insert key (bytes_of chunks) disk.pending } in
      ground (arith, install_kept faults key (bytes_of chunks) opened w disk')

  -- No write changes a file under another name.
  pub write_others :
      (faults : WriteFaults) (key k : ℕ) (chunks : List Text) (size : ℕ) (sha256 : Text)
      (disk : Disk) (w : Written) (disk' : Disk)
      → write digest faults key chunks size sha256 disk ≡ (w, disk')
      → (key == k) ≡ false
      → lookup k disk'.files ≡ lookup k disk.files
  unfolding write abandon
  write_others faults key k chunks size sha256 disk w disk' e i =
      let opened : Disk = record disk { pending = insert key (bytes_of chunks) disk.pending } in
      ground (arith, install_others faults key k (bytes_of chunks) opened w disk')

-- A delete touches no other file, and leaves none under its key where it succeeds.
pub delete_others :
    (fault : DeleteFault) (key k : ℕ) (disk : Disk)
    → (key == k) ≡ false
    → lookup k (delete fault key disk).1.files ≡ lookup k disk.files
unfolding delete
delete_others nowhere key k disk h = ground (arith, lookup-erase key k disk.files)
delete_others at_final key k disk h = refl
delete_others at_pending key k disk h = ground (arith, lookup-erase key k disk.files)
delete_others at_sync key k disk h = ground (arith, lookup-erase key k disk.files)

-- What a delete leaves under its key was there before.
pub delete_self :
    (fault : DeleteFault) (key : ℕ) (disk : Disk) (bytes : Text)
    → lookup key (delete fault key disk).1.files ≡ some bytes
    → ((delete fault key disk).0 ≡ false) × (lookup key disk.files ≡ some bytes)
unfolding delete
delete_self nowhere key disk bytes h = absurd (ground (arith, lookup-erase key key disk.files))
delete_self at_final key disk bytes h = (refl, h)
delete_self at_pending key disk bytes h = absurd (ground (arith, lookup-erase key key disk.files))
delete_self at_sync key disk bytes h = absurd (ground (arith, lookup-erase key key disk.files))

-- ===== src/Disk.antt =====
-- `FilesystemArtifactStorage` of core/storage.py: `write` and `delete`. A storage key is determined
-- by its token, here a number. Each call is given the faults that the operating system raises in it.
pub mod Contents
use prj_app.Base.{
  ℕ, ◌+◌, Bool, true, false, not, ◌&&◌, ◌||◌, Option, none, some, List, [], ◌∷◌, ◌++◌, Text, Table,
  ltb, leb, ◌==◌, if◌then◌else◌, is_some, text_eq, lookup, insert, erase, length, all,
}

-- The files under their final names, and those under their pending names. Nothing reads a pending
-- file: one that a fault leaves may hold fewer bytes than is said here.
pub record Disk : Type 0 where
  pub files : Table Text
  pub pending : Table Text

-- What fails in a write, and whether the removal of the pending file then fails too.
pub record WriteFaults : Type 0 where
  pub open_fails : Bool
  pub stream_fails : Bool
  pub link_fails : Bool
  pub finish_fails : Bool
  pub unlink_fails : Bool

abbrev pub no_faults : WriteFaults
no_faults = record {
  open_fails = false;
  stream_fails = false;
  link_fails = false;
  finish_fails = false;
  unlink_fails = false;
}

-- `StoredArtifact`, whose key is that of the call.
pub record Receipt : Type 0 where
  pub byte_size : ℕ
  pub sha256 : Text

-- A receipt, or the exception: `StorageCollision`, `StorageWriteCommitted`,
-- `StorageCleanupRequired`, or any other one.
pub data Written : Type 0 where
  stored committed : Receipt → Written
  collision cleanup_required failed : Written

-- `_DIGEST_RE`
abbrev pub is_hex : ℕ → Bool
is_hex c = (leb b'0' c && leb c b'9') || (leb b'a' c && leb c b'f')

unfoldable pub is_digest : Text → Bool
is_digest s = length s == 64 && all is_hex s

-- The bytes of the chunks.
unfoldable pub bytes_of : List Text → Text
bytes_of [] = []
bytes_of (c ∷ cs) = c ++ bytes_of cs

-- The running size against the expectation, chunk by chunk.
unfoldable pub sizes_match : ℕ → ℕ → List Text → Bool
sizes_match expected size [] = size == expected
sizes_match expected size (c ∷ cs) =
    let rest = sizes_match expected (size + length c) cs in
    if ltb expected (size + length c) then false else rest

module _ (digest : Text → Text) where
  abbrev pub receipt_of : Text → Receipt
  receipt_of bytes = record { byte_size = length bytes; sha256 = digest bytes }

  -- `_validate_expectations` and `_stream_and_verify`
  unfoldable pub accepts : List Text → ℕ → Text → Bool
  accepts chunks expected_size expected_sha256 =
      is_digest expected_sha256
      && (sizes_match expected_size 0 chunks && text_eq (digest (bytes_of chunks)) expected_sha256)

  -- `_unlink_pending_after_failure`, before an exception
  unfoldable pub abandon : Bool → ℕ → Written → Disk → Written × Disk
  abandon unlink_fails key exception disk =
      if unlink_fails
      then (cleanup_required, disk)
      else (exception, record disk { pending = erase key disk.pending })

  -- The link under the final name, and what follows it.
  unfoldable pub install : WriteFaults → ℕ → Text → Disk → Written × Disk
  install faults key bytes disk =
      if is_some (lookup key disk.files)
      then abandon faults.unlink_fails key collision disk
      else if faults.link_fails
      then abandon faults.unlink_fails key failed disk
      else let linked : Disk = record disk { files = insert key bytes disk.files } in
        let removed : Disk = record linked { pending = erase key disk.pending } in
        if faults.finish_fails
        then (committed (receipt_of bytes), if faults.unlink_fails then linked else removed)
        else (stored (receipt_of bytes), removed)

  -- `write`
  unfoldable pub write : WriteFaults → ℕ → List Text → ℕ → Text → Disk → Written × Disk
  write faults key chunks expected_size expected_sha256 disk =
      if not (is_digest expected_sha256)
      then (failed, disk)
      else if is_some (lookup key disk.pending)
      then (collision, disk)
      else if faults.open_fails
      then (failed, disk)
      else let opened : Disk = record disk {
        pending = insert key (bytes_of chunks) disk.pending;
      } in
        if faults.stream_fails || not (accepts chunks expected_size expected_sha256)
        then abandon faults.unlink_fails key failed opened
        else install faults key (bytes_of chunks) opened

-- Where a delete fails, if it does.
pub data DeleteFault : Type 0 where
  nowhere at_final at_pending at_sync : DeleteFault

-- `delete`: whether it succeeds, and what is left.
unfoldable pub delete : DeleteFault → ℕ → Disk → Bool × Disk
delete nowhere key disk =
    (true, record { files = erase key disk.files; pending = erase key disk.pending })
delete at_final key disk = (false, disk)
delete at_pending key disk = (false, record disk { files = erase key disk.files })
delete at_sync key disk =
    (false, record { files = erase key disk.files; pending = erase key disk.pending })

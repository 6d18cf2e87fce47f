-- ===== src/Tests/Storage.antt =====
-- Revisions and their storage, on the sample tables.
use prj_app.Base
use prj_app.Base.{
  ℕ, ◌≡◌, refl, lookup, is_some, Bool, true, false, none, some, List, [], ◌∷◌, Text, Table, lit,
  length, ok, err, ◌==◌, if◌then◌else◌, Result, Error,
}
use prj_app.Names.Logical
use prj_app.MediaType
use prj_app.MediaType.{Kind}
use prj_app.Disk
use prj_app.Disk.{Disk, WriteFaults, no_faults, DeleteFault, nowhere, at_final, bytes_of}
use prj_app.Vault
use prj_app.Vault.{Vault}
use prj_app.Vault.Safe.{Safe, initial-Safe}
use prj_app.Reservations
use prj_app.Reservations.{CleanupFault, CleanupResult, cleanup_expired_reservations}
use prj_app.Reservations.Cleanup.{cleanup_expired_reservations-Safe}
use prj_app.Revisions.Payloads
use prj_app.Revisions.Payloads.{Payload, Supply}
use prj_app.Revisions.Rounds
use prj_app.Revisions.Commit
use prj_app.Revisions.Create
use prj_app.Revisions.Create.{create_complete_revision}
use prj_app.Revisions.Create.Safety.{EndSafe, create_complete_revision-EndSafe}
use prj_app.Revisions.Create.Success.{Created, create_complete_revision-Created}
use prj_app.Tests.World.{ascii, world, opened}

-- Named on an `unfolding` line, it opens what a creation runs through.
unfoldable storing : Bool
unfolding opened Base.erase Base.one_of Base.starts_with Base.ends_with_one Base.strip_right
    Base.partition Base.split_on Base.head_part Logical.is_reserved_form Logical.utf8_length
    Logical.stem Logical.normalize_logical_name MediaType.media_types MediaType.only_type
    MediaType.is_utf8_charset MediaType.checked_type MediaType.authoritative_media_type
    Disk.is_digest Disk.bytes_of Disk.sizes_match Disk.accepts Disk.abandon Disk.install Disk.write
    Disk.delete Vault.valid_reservation Vault.save_reservation Vault.save_new_artifact
    Reservations.has_artifact Reservations.has_reservation Reservations.reserve_round
    Reservations.update_reservation Reservations.mark_verified Reservations.mark_collision
    Reservations.require_cleanup Reservations.mark_cleanup_required Reservations.delete_bytes
    Reservations.transaction Reservations.end_of Reservations.clean_stored
    Reservations.clean_candidate Reservations.cleanup_unowned Reservations.clean_expired_stored
    Reservations.insert_by_expiry Reservations.expired Reservations.clean_expired
    Reservations.cleanup_expired_reservations Payloads.count_html Payloads.validate_names
    Payloads.validate_payload_set Payloads.zip_items Rounds.after_write Rounds.store_payload
    Rounds.store_payloads Commit.check_prepared Commit.is_repeated Commit.check_all
    Commit.save_artifacts Commit.erase_reservations Commit.next_number Commit.save_new_revision
    Commit.write_revision Commit.commit_revision_metadata Create.finish Create.check_creation
    Create.create_complete_revision
storing = true

-- A stand-in for SHA-256 with the form of a digest: the length, in the last place of 64.
abbrev zeros : ℕ → Text → Text
zeros ℕ.zero s = s
zeros (ℕ.suc n) s = b'0' ∷ zeros n s

abbrev fingerprint : Text → Text
fingerprint s = zeros 63 ((if length s == 2 then b'2' else b'f') ∷ [])

-- A file that the program has not written.
abbrev foreign : Table Text
foreign = (9, lit "zz") ∷ []

abbrev empty_vault : Vault
empty_vault = record {
  db = world;
  artifacts = [];
  reservations = [];
  disk = record { files = foreign; pending = [] };
}

abbrev page : Payload
page = record {
  kind = Kind.html;
  logical_name = lit "a.html";
  chunks = lit "h" ∷ lit "i" ∷ [];
  expected_size = 2;
  expected_sha256 = fingerprint (lit "hi");
  media_type = none;
}

-- The keys 5 and 6, written without a fault or with one after the link.
abbrev supply : Bool → ℕ → Supply
supply fails n = record {
  draw_id = λ _. if n == 0 then 61 else 62;
  draw_key = λ _. if n == 0 then 5 else 6;
  expires_at = 500;
  reserve_fails = false;
  mark_fails = false;
  faults = if fails then record no_faults { finish_fails = true } else no_faults;
  artifact_id = if n == 0 then 71 else 72;
}

-- The transaction that cleans reservation 61 fails once the file is deleted.
abbrev faults : ℕ → CleanupFault
faults id = record { deletion = nowhere; rolls_back = id == 61 }

abbrev lost : ℕ → Bool
lost id = id == 61

abbrev after : Bool → Result (Unit {0}) × Vault
after fails =
    create_complete_revision ascii fingerprint faults false 200 80 10 1 (page ∷ []) (supply fails)
      empty_vault

create_complete_revision-Created_example :
    Created ascii fingerprint foreign lost faults false 200 80 10 1
      (page ∷ [])
      empty_vault
      (after false).1
unfolding storing
create_complete_revision-Created_example =
    create_complete_revision-Created ascii fingerprint foreign lost faults false 200 80 10 1
      (page ∷ []) (supply false) empty_vault (after false).1
      (initial-Safe fingerprint foreign lost world) refl

-- The write of this creation fails after the link, and the cleanup transaction after the deletion.
create_complete_revision-EndSafe_example :
    EndSafe ascii fingerprint foreign lost faults false 200 80 10 1 empty_vault (after true)
create_complete_revision-EndSafe_example =
    create_complete_revision-EndSafe ascii fingerprint foreign lost faults false 200 80 10 1
      (λ id h. h) (page ∷ []) (supply true) empty_vault
      (initial-Safe fingerprint foreign lost world)

abbrev left_over : Vault
left_over = (after true).1

-- Its reservation is left, owned and clean, and its file is gone.
left_over-61 :
    (lookup 5 left_over.disk.files ≡ none) × (is_some (lookup 61 left_over.reservations) ≡ true)
unfolding storing
left_over-61 = (refl, refl)

left_over-Safe : Safe fingerprint foreign lost left_over
unfolding storing
left_over-Safe =
    (create_complete_revision-EndSafe ascii fingerprint foreign lost faults false 200 80 10 1
      (λ id h. h) (page ∷ []) (supply true) empty_vault
      (initial-Safe fingerprint foreign lost world)).0

abbrev cleaned : CleanupResult × Vault
cleaned = elim (cleanup_expired_reservations (λ _. nowhere) 600 100 left_over) [
  | ok out ↦ out
  | err e ↦ (record { removed = 0; retained = 0 }, empty_vault)
]

-- The cleanup of expired reservations removes what that creation has left.
cleanup_expired_reservations-Safe_example : Safe fingerprint foreign lost cleaned.1
unfolding storing
cleanup_expired_reservations-Safe_example =
    cleanup_expired_reservations-Safe fingerprint foreign lost (λ _. nowhere) 600 100 left_over
      cleaned left_over-Safe refl

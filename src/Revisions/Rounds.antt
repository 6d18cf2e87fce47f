-- ===== src/Revisions/Rounds.antt =====
-- The storage loop of `create_complete_revision` of core/services.py.
pub mod Reserved
pub mod Landed
pub mod Marked
pub mod Loop
pub mod Kept
pub mod Filled
use prj_app.Base.{
  ℕ, ◌+◌, Bool, true, false, not, ◌&&◌, ◌||◌, Option, none, some, List, [], ◌∷◌, ◌++◌, map, Text,
  Table, ◌==◌, if◌then◌else◌, is_none, is_some, opt_eq, text_eq, lookup, insert, erase, any_row,
  Result, ok, err, Error, ◌>>=◌, ◌>>◌, raise_if, or_raise, length, one_of,
}
use prj_app.Model.{Db, User, Dashboard, Revision, Event}
use prj_app.Unicode.{Unicode}
use prj_app.Lifecycle.{save}
use prj_app.Store.{active_user, record_event}
use prj_app.Publication.{is_working}
use prj_app.Names.Logical.{LogicalName, normalize_logical_name}
use prj_app.MediaType.{Kind, authoritative_media_type}
use prj_app.Disk.{
  Receipt, WriteFaults, DeleteFault, Written, stored, committed, collision, failed, write,
  is_digest,
}
use prj_app.Disk.{cleanup_required as residue}
use prj_app.Vault.{Vault, Artifact, Reservation, save_new_artifact}
use prj_app.Reservations.{
  key_attempts, reserve_round, has_artifact, mark_verified, mark_collision, mark_cleanup_required,
  attempt, transaction, Candidate, cleanup_unowned,
}
use prj_app.Revisions.Payloads.{Payload, Supply, Item}

-- `_PreparedArtifact`, with its key and the identifier that the artifact will have.
pub record Prepared : Type 0 where
  pub reservation_id : ℕ
  pub artifact_id : ℕ
  pub key : ℕ
  pub name : LogicalName
  pub kind : Kind
  pub receipt : Receipt
  pub media_type : Text

-- One round of the storage loop ends with a prepared artifact, or with an exception; either way
-- with what cleanup has to know of its reservation, where it has got one.
pub data Round : Type 0 where
  ready : Candidate → Prepared → Vault → Round
  raised : List Candidate → Error → Vault → Round

abbrev pub candidate : ℕ → ℕ → Bool → Bool → Candidate
candidate id key owns_bytes uncertain_outcome = record {
  reservation_id = id;
  key = key;
  owns_bytes = owns_bytes;
  uncertain_outcome = uncertain_outcome;
}

module _ (u : Unicode) (digest : Text → Text) where
  -- The round after the write, by its outcome.
  unfoldable pub after_write : Item → ℕ → ℕ → Written → Vault → Round
  after_write (p, name, s) id key collision v =
      raised (candidate id key false false ∷ []) Error.storage_collision
        (attempt v (transaction s.mark_fails (mark_collision id v)))
  after_write (p, name, s) id key (committed receipt) v =
      raised (candidate id key true false ∷ []) Error.storage_committed
        (attempt v (transaction s.mark_fails (mark_verified id key receipt v)))
  after_write (p, name, s) id key residue v =
      raised (candidate id key false true ∷ []) Error.storage_cleanup
        (attempt v (transaction s.mark_fails (mark_cleanup_required id v)))
  after_write (p, name, s) id key failed v =
      raised (candidate id key false false ∷ []) Error.storage_failed v
  after_write (p, name, s) id key (stored receipt) v =
      elim (transaction s.mark_fails (mark_verified id key receipt v)) [
        | err e ↦ raised (candidate id key true false ∷ []) e v
        | ok w ↦ elim (authoritative_media_type u p.kind p.media_type) [
          | err e ↦ raised (candidate id key true false ∷ []) e w
          | ok media_type ↦
              ready (candidate id key true false)
                (record {
                  reservation_id = id;
                  artifact_id = s.artifact_id;
                  key = key;
                  name = name;
                  kind = p.kind;
                  receipt = receipt;
                  media_type = media_type;
                })
                w
        ]
      ]

  -- One round of the storage loop.
  unfoldable pub store_payload : Item → Vault → Round
  store_payload (p, name, s) v =
      elim (transaction s.reserve_fails
        (reserve_round key_attempts s.draw_id s.draw_key s.expires_at v)) [
          | err e ↦ raised [] e v
          | ok (id, key, w) ↦
              let (outcome, disk) =
                write digest s.faults key p.chunks p.expected_size p.expected_sha256 w.disk in
              after_write (p, name, s) id key outcome (record w { disk = disk })
        ]

  -- The storage loop: all prepared artifacts, or the exception that ends it.
  unfoldable pub store_payloads :
      List Item
      → List Candidate
      → List Prepared
      → Vault
      → List Candidate × Result (List Prepared) × Vault
  store_payloads [] candidates done v = (candidates, ok done, v)
  store_payloads (item ∷ items) candidates done v = elim (store_payload item v) [
    | raised cs e w ↦ (candidates ++ cs, err e, w)
    | ready c p w ↦ store_payloads items (candidates ++ (c ∷ [])) (done ++ (p ∷ [])) w
  ]

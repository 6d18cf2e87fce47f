-- ===== src/Revisions/Commit/Adopted.antt =====
-- A commit makes artifacts of reservations, and the vault stays safe.
use prj_app.Base.{
  Bool, ℕ, ◌≡◌, refl, true, false, ◌&&◌, none, some, List, [], ◌∷◌, Text, Table, lookup, insert,
  erase, any_row, ◌==◌, arith, Option-cases, Result-cases, inl, inr, ok, length,
}
use prj_app.Unicode.{Unicode}
use prj_app.Model.{Revision, Dashboard, Db, Event}
use prj_app.Lifecycle.{save, advance}
use prj_app.Store.{record_event}
use prj_app.Names.Logical.{normalize_logical_name}
use prj_app.Disk.Contents.{Holds}
use prj_app.Vault.{Vault, Artifact, save_new_artifact}
use prj_app.Vault.Safe.{Safe, Safe-adopt, Safe-db}
use prj_app.Revisions.Rounds.{Prepared}
use prj_app.Revisions.Commit.{
  next_number, new_revision, save_new_revision, artifact_row, save_artifacts, erase_reservations,
  write_revision, commit_revision_metadata,
}
use prj_app.Revisions.Commit.Checked.{AllChecked, AllHeld, check_all-AllChecked, AllChecked-adopt}

-- What a save keeps of an artifact.
pub save_new_artifact-ok :
    (u : Unicode) (revision : Revision) (stored : Table Artifact) (a b : Artifact)
    → save_new_artifact u revision stored a ≡ ok b
    → (b.storage_key ≡ a.storage_key)
      × (b.byte_size ≡ a.byte_size)
      × (b.sha256 ≡ a.sha256)
      × (b.revision ≡ a.revision)
      × (b.kind ≡ a.kind)
      × (b.media_type ≡ a.media_type)
unfolding save_new_artifact
save_new_artifact-ok u revision stored a b h =
    elim (Result-cases (normalize_logical_name u a.logical_name)) [
      | inr (x, p) ↦ absurd (ground arith)
      | inl (n, p) ↦
          (ground arith, ground arith, ground arith, ground arith, ground arith, ground arith)
    ]

save_latest :
    (clock : ℕ) (revisions : Table Revision) (id : ℕ) (o d e : Dashboard)
    → save clock revisions id o d ≡ ok e
    → e.latest_revision ≡ d.latest_revision
unfolding save advance
save_latest clock revisions id o d e h = ground arith

-- What a commit writes.
pub record Wrote (u : Unicode) (clock id dashboard_id creator : ℕ) (d : Dashboard)
    (ps : List Prepared) (v w : Vault) : Type 0 where
  pub artifacts : Table Artifact
  pub rows :
      save_artifacts u id
        (new_revision dashboard_id (next_number v.db.revisions d) creator)
        ps
        v.artifacts
      ≡ ok artifacts
  pub saved : Dashboard
  pub latest : saved.latest_revision ≡ some id
  pub unused : lookup id v.db.revisions ≡ none
  pub unused_number :
      any_row
        (λ o. o.dashboard == dashboard_id && o.number == next_number v.db.revisions d)
        v.db.revisions
      ≡ false
  pub db : Db
  pub revision_rows :
      db.revisions
      ≡ insert id
          (record (new_revision dashboard_id (next_number v.db.revisions d) creator) {
            artifacts_locked = true;
          })
          v.db.revisions
  pub dashboard_rows : db.dashboards ≡ insert dashboard_id saved v.db.dashboards
  pub result : w ≡ record v {
    db = db;
    artifacts = artifacts;
    reservations = erase_reservations ps v.reservations;
  }

pub write_revision-Wrote :
    (u : Unicode) (clock id dashboard_id creator : ℕ) (d : Dashboard) (ps : List Prepared)
    (v w : Vault)
    → write_revision u clock id dashboard_id creator d ps v ≡ ok w
    → Wrote u clock id dashboard_id creator d ps v w
unfolding write_revision save_new_revision record_event
write_revision-Wrote u clock id dashboard_id creator d ps v w h =
    let n = new_revision dashboard_id (next_number v.db.revisions d) creator in
    let revisions = insert id (record n { artifacts_locked = true }) v.db.revisions in
    let e : Dashboard = record d { latest_revision = some id } in
    elim (Result-cases (save_artifacts u id n ps v.artifacts)) [
      | inr (x, q) ↦ absurd (ground arith)
      | inl (artifacts, q) ↦ elim (Result-cases (save clock revisions dashboard_id d e)) [
        | inr (x, r) ↦ absurd (ground arith)
        | inl (saved, r) ↦ record {
          artifacts = artifacts;
          rows = q;
          saved = saved;
          latest = save_latest clock revisions dashboard_id d e saved r;
          unused = ground arith;
          unused_number = ground arith;
          db =
              record_event
                (record {
                  event = Event.revision_created (length ps) (next_number v.db.revisions d);
                  actor = some creator;
                  dashboard = some dashboard_id;
                  revision = some id;
                  target_user = none;
                })
                (record v.db {
                  revisions = revisions;
                  dashboards = insert dashboard_id saved v.db.dashboards;
                });
          revision_rows = refl;
          dashboard_rows = refl;
          result = ground arith;
        }
      ]
    ]

module _ (digest : Text → Text) (foreign : Table Text) (lost : ℕ → Bool) (u : Unicode) where
  save_artifacts-Safe :
      (id : ℕ) (revision : Revision) (ps : List Prepared) (artifacts : Table Artifact) (v : Vault)
      → Safe digest foreign lost v
      → AllChecked v ps
      → AllHeld digest v.disk ps
      → save_artifacts u id revision ps v.artifacts ≡ ok artifacts
      → Safe digest foreign lost
          (record v { artifacts = artifacts; reservations = erase_reservations ps v.reservations })
  unfolding save_artifacts erase_reservations
  save_artifacts-Safe id revision [] artifacts v s all held h =
      let same : artifacts ≡ v.artifacts = ground arith in rw same s
  save_artifacts-Safe id revision (p ∷ ps) artifacts v s (c, once, all) (held, rest) h =
      elim (Result-cases (save_new_artifact u revision v.artifacts (artifact_row id p))) [
        | inr (x, q) ↦ absurd (ground arith)
        | inl (a, q) ↦ elim (Option-cases (lookup p.artifact_id v.artifacts)) [
          | inr (b, used) ↦ absurd (ground arith)
          | inl fresh ↦
              let (key, size, sha, revised, kind, media) =
                save_new_artifact-ok u revision v.artifacts (artifact_row id p) a q in
              let held' : Holds digest v.disk a.storage_key a.byte_size a.sha256 =
                rw (key, size, sha) held in
              let at_key = c.at_key in
              let w : Vault = record v {
                artifacts = insert p.artifact_id a v.artifacts;
                reservations = erase p.reservation_id v.reservations;
              } in
              save_artifacts-Safe id revision ps artifacts w
                (Safe-adopt digest foreign lost p.reservation_id p.artifact_id c.r a v s c.row
                  (ground arith) held' fresh)
                (AllChecked-adopt digest foreign lost v p a ps s c key once all) rest (ground arith)
        ]
      ]

  write_revision-Safe :
      (clock id dashboard_id creator : ℕ) (d : Dashboard) (ps : List Prepared) (v w : Vault)
      → Safe digest foreign lost v
      → AllChecked v ps
      → AllHeld digest v.disk ps
      → write_revision u clock id dashboard_id creator d ps v ≡ ok w
      → Safe digest foreign lost w
  write_revision-Safe clock id dashboard_id creator d ps v w s all held h =
      let x = write_revision-Wrote u clock id dashboard_id creator d ps v w h in
      rw x.result (
        Safe-db digest foreign lost _ _ (
          save_artifacts-Safe id (new_revision dashboard_id (next_number v.db.revisions d) creator)
            ps x.artifacts v s all held x.rows))

  pub commit_revision_metadata-Safe :
      (clock id dashboard_id creator : ℕ) (ps : List Prepared) (v w : Vault)
      → Safe digest foreign lost v
      → AllHeld digest v.disk ps
      → commit_revision_metadata u clock id dashboard_id creator ps v ≡ ok w
      → Safe digest foreign lost w
  unfolding commit_revision_metadata
  commit_revision_metadata-Safe clock id dashboard_id creator ps v w s held h =
      elim (Option-cases (lookup dashboard_id v.db.dashboards)) [
        | inl gone ↦ absurd (ground arith)
        | inr (d, e) ↦
            write_revision-Safe clock id dashboard_id creator d ps v w s
              (check_all-AllChecked v ps (ground arith)) held (ground arith)
      ]

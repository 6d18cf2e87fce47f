-- ===== src/Revisions/Create/Success.antt =====
-- What a creation that succeeds has made.
use mathlib.Core.Path.{subst}
use prj_app.Base.{
  Bool, ℕ, ◌≡◌, refl, true, false, ◌&&◌, none, some, List, [], Text, Table, lookup, any_row, ◌==◌,
  arith, Result-cases, Option-cases, inl, inr, ok, err, Result, lookup-insert_self,
}
use prj_app.Unicode.{Unicode}
use prj_app.Model.{Dashboard}
use prj_app.Vault.{Vault}
use prj_app.Vault.Safe.{Safe}
use prj_app.Reservations.{Candidate, CleanupFault, transaction, transaction-ok}
use prj_app.Revisions.Payloads.{Payload, Supply, validate_names, validate_payload_set, zip_items}
use prj_app.Revisions.Rounds.{Prepared, store_payloads}
use prj_app.Revisions.Rounds.Marked.{SameTables}
use prj_app.Revisions.Rounds.Loop.{store_payloads-LoopSafe}
use prj_app.Revisions.Rounds.Kept.{AllKept}
use prj_app.Revisions.Rounds.Filled.{store_payloads-AllKept}
use prj_app.Revisions.Commit.{commit_revision_metadata, next_number, new_revision}
use prj_app.Revisions.Commit.Adopted.{write_revision-Wrote}
use prj_app.Revisions.Create.{finish, check_creation, create_complete_revision}
use prj_app.Revisions.Create.Filed.{AllFiled, save_artifacts-AllFiled, validate_names-payloads_of}

module _ (u : Unicode) (digest : Text → Text) (foreign : Table Text) (lost : ℕ → Bool)
    (fault : ℕ → CleanupFault) (commit_fails : Bool) (clock id dashboard_id creator : ℕ) where
  -- The revision of a creation: new, complete, locked, the next of its dashboard's and its latest.
  pub record Created (payloads : List Payload) (v w : Vault) : Type 0 where
    pub before : Dashboard
    pub owned : before.owner ≡ creator
    pub before_row : lookup dashboard_id v.db.dashboards ≡ some before
    pub unused : lookup id v.db.revisions ≡ none
    pub unused_number :
        any_row
          (λ o. o.dashboard == dashboard_id && o.number == next_number v.db.revisions before)
          v.db.revisions
        ≡ false
    pub revision_row :
        lookup id w.db.revisions
        ≡ some (record {
          dashboard = dashboard_id;
          number = next_number v.db.revisions before;
          created_by = creator;
          artifacts_locked = true;
        })
    pub after : Dashboard
    pub after_row : lookup dashboard_id w.db.dashboards ≡ some after
    pub latest : after.latest_revision ≡ some id
    pub filed : AllFiled u digest id w.disk w.artifacts payloads

  commit-Created :
      (payloads : List Payload) (ps : List Prepared) (v x w : Vault)
      → SameTables v x
      → AllKept u digest x payloads ps
      → commit_revision_metadata u clock id dashboard_id creator ps x ≡ ok w
      → Created payloads v w
  unfolding commit_revision_metadata
  commit-Created payloads ps v x w t a h =
      elim (Option-cases (lookup dashboard_id x.db.dashboards)) [
        | inl gone ↦ absurd (ground arith)
        | inr (d, e) ↦
            let out =
              write_revision-Wrote u clock id dashboard_id creator d ps x w (ground arith) in
            let n = new_revision dashboard_id (next_number x.db.revisions d) creator in
            let same = t.same_db in
            let result = out.result in
            let revisions = out.revision_rows in
            let dashboards = out.dashboard_rows in
            let made : Created payloads x w = record {
              before = d;
              owned = ground arith;
              before_row = e;
              unused = out.unused;
              unused_number = out.unused_number;
              revision_row =
                  rw (result, revisions)
                    (lookup-insert_self id (record n { artifacts_locked = true }) x.db.revisions);
              after = out.saved;
              after_row =
                  rw (result, dashboards)
                    (lookup-insert_self dashboard_id out.saved x.db.dashboards);
              latest = out.latest;
              filed = rw result (
                  save_artifacts-AllFiled u digest id n payloads ps x.artifacts out.artifacts x a
                    out.rows);
            } in
            record {
              before = d;
              owned = made.owned;
              before_row = rw (← same) made.before_row;
              unused = rw (← same) made.unused;
              unused_number = rw (← same) made.unused_number;
              revision_row = rw (← same) made.revision_row;
              after = made.after;
              after_row = made.after_row;
              latest = made.latest;
              filed = made.filed;
            }
      ]

  finish-Created :
      (payloads : List Payload) (v w : Vault) (cs : List Candidate) (r : Result (List Prepared))
      (x : Vault)
      → SameTables v x
      → ((ps : List Prepared) → r ≡ ok ps → AllKept u digest x payloads ps)
      → finish u digest fault commit_fails clock id dashboard_id creator (cs, r, x) ≡ (ok tt, w)
      → Created payloads v w
  unfolding finish
  finish-Created payloads v w cs (err e) x t a h = absurd (ground arith)
  finish-Created payloads v w cs (ok ps) x t a h =
      elim (Result-cases (
        transaction commit_fails (commit_revision_metadata u clock id dashboard_id creator ps x))) [
          | inr (y, q) ↦ absurd (ground arith)
          | inl (y, q) ↦
              let made =
                transaction-ok commit_fails
                  (commit_revision_metadata u clock id dashboard_id creator ps x) y q in
              commit-Created payloads ps v x w t (a ps refl) (ground arith)
        ]

  -- A creation that succeeds, over a safe vault, has made a new revision with the next number, locked
  -- and the latest of its dashboard; and for every payload an artifact of this revision with its
  -- kind, media type, expected size and expected digest, under whose key exactly its bytes lie.
  pub create_complete_revision-Created :
      (payloads : List Payload) (supplies : ℕ → Supply) (v w : Vault)
      → Safe digest foreign lost v
      → create_complete_revision u digest fault commit_fails clock id dashboard_id creator payloads
          supplies v
        ≡ (ok tt, w)
      → Created payloads v w
  unfolding create_complete_revision check_creation validate_payload_set
  create_complete_revision-Created payloads supplies v w s h =
      elim (Result-cases (validate_names u [] payloads)) [
        | inr (x, e) ↦ absurd (ground arith)
        | inl (names, e) ↦
            let items = zip_items payloads names supplies 0 in
            let out = store_payloads u digest items [] [] v in
            let same = validate_names-payloads_of u [] payloads names supplies 0 e in
            let checked : check_creation u dashboard_id creator payloads v ≡ ok names =
              ground arith in
            let safe = store_payloads-LoopSafe u digest foreign lost items [] [] v s tt in
            finish-Created payloads v w out.0 out.1 out.2 safe.1
              (λ ps r.
                subst (λ x. AllKept u digest out.2 x ps) same
                  (store_payloads-AllKept u digest foreign lost items [] [] [] v out.2 out.0 ps s tt
                    (ground arith)))
              (ground arith)
      ]

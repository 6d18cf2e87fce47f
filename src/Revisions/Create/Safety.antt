-- ===== src/Revisions/Create/Safety.antt =====
-- What every creation of a revision leaves, whatever fails in it.
use prj_app.Base.{
  ◌≡◌, true, Bool-cases, Bool, ℕ, refl, List, [], ◌∷◌, Text, Table, lookup, arith, Result-cases,
  Option-cases, inl, inr, ok, err, Result,
}
use prj_app.Unicode.{Unicode}
use prj_app.Disk.{DeleteFault}
use prj_app.Vault.{Vault, Reservation}
use prj_app.Vault.Safe.{Safe}
use prj_app.Reservations.{
  Candidate, cleanup_unowned, clean_candidate, clean_stored, require_cleanup, update_reservation,
  delete_bytes, CleanupFault, end_of, transaction, transaction-ok,
}
use prj_app.Reservations.Unowned.{cleanup_unowned-Safe}
use prj_app.Revisions.Payloads.{Payload, Supply, zip_items}
use prj_app.Revisions.Rounds.{Prepared, store_payloads}
use prj_app.Revisions.Rounds.Marked.{SameTables, SameTables-trans}
use prj_app.Revisions.Rounds.Loop.{LoopSafe, store_payloads-LoopSafe}
use prj_app.Revisions.Commit.{commit_revision_metadata}
use prj_app.Revisions.Commit.Checked.{AllHeld, AllKept-AllHeld}
use prj_app.Revisions.Rounds.Filled.{payloads_of, store_payloads-AllKept}
use prj_app.Revisions.Commit.Adopted.{commit_revision_metadata-Safe}
use prj_app.Revisions.Create.{finish, check_creation, create_complete_revision}

clean_stored-SameTables :
    (fault : DeleteFault) (c : Candidate) (r : Reservation) (v : Vault)
    → SameTables v (clean_stored fault c r v)
unfolding clean_stored require_cleanup update_reservation delete_bytes
clean_stored-SameTables fault c r v = record {
  same_db = ground arith;
  same_artifacts = ground arith;
}

clean_candidate-SameTables :
    (fault : CleanupFault) (c : Candidate) (r : Reservation) (v : Vault)
    → SameTables v (end_of fault.rolls_back v (clean_stored fault.deletion c r v))
unfolding end_of
clean_candidate-SameTables fault c r v = elim (Bool-cases fault.rolls_back) [
  | inr kept ↦ rw kept (clean_stored-SameTables fault.deletion c r v)
  | inl failed ↦ rw failed (record { same_db = refl; same_artifacts = refl })
]

cleanup_unowned-SameTables :
    (fault : ℕ → CleanupFault) (cs : List Candidate) (v : Vault)
    → SameTables v (cleanup_unowned fault cs v)
unfolding cleanup_unowned clean_candidate
cleanup_unowned-SameTables fault [] v = record { same_db = refl; same_artifacts = refl }
cleanup_unowned-SameTables fault (c ∷ cs) v =
    elim (Option-cases (lookup c.reservation_id v.reservations)) [
      | inl gone ↦
          rw (cleanup_unowned, clean_candidate, gone) (cleanup_unowned-SameTables fault cs v)
      | inr (r, e) ↦
          let f = fault c.reservation_id in
          let w = end_of f.rolls_back v (clean_stored f.deletion c r v) in
          rw (cleanup_unowned, clean_candidate, e)
            (SameTables-trans v w _ (clean_candidate-SameTables f c r v)
              (cleanup_unowned-SameTables fault cs w))
    ]

module _ (u : Unicode) (digest : Text → Text) (foreign : Table Text) (lost : ℕ → Bool)
    (fault : ℕ → CleanupFault) (commit_fails : Bool) (clock id dashboard_id creator : ℕ) where
  -- What the end of a creation leaves: a safe vault, with the tables as they were after a failure.
  abbrev pub EndSafe : Vault → Result (Unit {0}) × Vault → Type 0
  EndSafe v (ok _, w) = Safe digest foreign lost w
  EndSafe v (err e, w) = Safe digest foreign lost w × SameTables v w

  -- The reservations that a failing cleanup transaction may leave without their file.
  module _ (given_up : (id : ℕ) → (fault id).rolls_back ≡ true → lost id ≡ true) where
    finish-EndSafe :
        (v : Vault) (cs : List Candidate) (r : Result (List Prepared)) (w : Vault)
        → LoopSafe u digest foreign lost v (cs, r, w)
        → ((ps : List Prepared) → r ≡ ok ps → AllHeld digest w.disk ps)
        → EndSafe v (finish u digest fault commit_fails clock id dashboard_id creator (cs, r, w))
    unfolding finish
    finish-EndSafe v cs (err e) w (s, t, a) held = (
      cleanup_unowned-Safe digest foreign lost fault cs w given_up s a,
      SameTables-trans v w _ t (cleanup_unowned-SameTables fault cs w),
    )
    finish-EndSafe v cs (ok ps) w (s, t, a) held =
        let commit = commit_revision_metadata u clock id dashboard_id creator ps w in
        elim (Result-cases (transaction commit_fails commit)) [
          | inr (e, q) ↦
              rw (EndSafe, finish, q)
                (
                  cleanup_unowned-Safe digest foreign lost fault cs w given_up s a,
                  SameTables-trans v w _ t (cleanup_unowned-SameTables fault cs w),
                )
          | inl (x, q) ↦
              rw (EndSafe, finish, q)
                (commit_revision_metadata-Safe digest foreign lost u clock id dashboard_id creator
                  ps w x s (held ps refl) (transaction-ok commit_fails commit x q))
        ]

    -- Whatever writes, deletions and transactions fail in the creation of a revision, over a safe
    -- vault: every artifact still holds the bytes of its size and digest, and so does every clean
    -- owned reservation but one whose cleanup transaction fails; no file of somebody else is
    -- touched, and every other file has an artifact or a reservation that answers for it. A
    -- creation that fails leaves the tables and the artifacts as they were.
    pub create_complete_revision-EndSafe :
        (payloads : List Payload) (supplies : ℕ → Supply) (v : Vault)
        → Safe digest foreign lost v
        → EndSafe v (
            create_complete_revision u digest fault commit_fails clock id dashboard_id creator
              payloads supplies v)
    unfolding create_complete_revision
    create_complete_revision-EndSafe payloads supplies v s =
        elim (Result-cases (check_creation u dashboard_id creator payloads v)) [
          | inr (e, q) ↦
              rw (EndSafe, create_complete_revision, q)
                (s, record { same_db = refl; same_artifacts = refl })
          | inl (names, q) ↦
              let items = zip_items payloads names supplies 0 in
              let out = store_payloads u digest items [] [] v in
              rw (EndSafe, create_complete_revision, q)
                (finish-EndSafe v out.0 out.1 out.2
                  (store_payloads-LoopSafe u digest foreign lost items [] [] v s tt)
                  (λ ps r. AllKept-AllHeld u digest out.2 (payloads_of items) ps (
                    store_payloads-AllKept u digest foreign lost items [] [] [] v out.2 out.0 ps s
                      tt (ground arith))))
        ]

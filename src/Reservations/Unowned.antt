-- ===== src/Reservations/Unowned.antt =====
-- `_cleanup_unowned` keeps the vault safe.
use prj_app.Base.{
  Bool, ◌⊎◌, ℕ, ◌≡◌, sym, true, false, none, some, List, [], ◌∷◌, Text, Table, lookup, arith, ◌==◌,
  Bool-cases, Option-cases, inl, inr,
}
use prj_app.Disk.{DeleteFault, delete}
use prj_app.Vault.{Vault, Reservation, is_collided}
use prj_app.Vault.Safe.{Safe}
use prj_app.Reservations.{
  has_artifact, require_cleanup, update_reservation, attempt, drop_reservation, delete_bytes,
  CleanupFault, end_of, Candidate, clean_stored, clean_candidate, cleanup_unowned,
}
use prj_app.Reservations.Steps.{Safe-drop, Safe-require_cleanup}
use prj_app.Reservations.Bytes.{Safe-delete_bytes, Safe-lost, delete_shrinks, delete_bytes-disk}

module _ (digest : Text → Text) (foreign : Table Text) (lost : ℕ → Bool) where
  -- What a candidate says of the bytes under its key: they are the program's own, or nobody knows,
  -- or they are not.
  pub record Fits (c : Candidate) (v : Vault) : Type 0 where
    pub own : c.owns_bytes ≡ true → lookup c.key foreign ≡ none
    pub strange :
        (bytes : Text)
        → c.owns_bytes ≡ false
        → c.uncertain_outcome ≡ false
        → lookup c.key v.disk.files ≡ some bytes
        → lookup c.key foreign ≡ some bytes

  abbrev pub AllFit : List Candidate → Vault → Type 0
  AllFit [] v = Unit
  AllFit (c ∷ cs) v = Fits c v × AllFit cs v

  -- No file appears between two vaults.
  abbrev pub Shrinks : Vault → Vault → Type 0
  Shrinks v w =
      (k : ℕ) (bytes : Text)
      → lookup k w.disk.files ≡ some bytes
      → lookup k v.disk.files ≡ some bytes

  pub AllFit-Shrinks : (cs : List Candidate) (v w : Vault) → Shrinks v w → AllFit cs v → AllFit cs w
  AllFit-Shrinks [] v w less a = tt
  AllFit-Shrinks (c ∷ cs) v w less (f, a) = (
    record { own = f.own; strange = λ bytes o n e. f.strange bytes o n (less c.key bytes e) },
    AllFit-Shrinks cs v w less a,
  )

  require_cleanup-disk :
      (id : ℕ) (r : Reservation) (v : Vault) → (attempt v (require_cleanup id r v)).disk ≡ v.disk
  unfolding require_cleanup update_reservation
  require_cleanup-disk id r v = ground arith

  clean_stored-Safe :
      (fault : DeleteFault) (c : Candidate) (r : Reservation) (v : Vault)
      → Safe digest foreign lost v
      → Fits c v
      → lookup c.reservation_id v.reservations ≡ some r
      → Safe digest foreign lost (clean_stored fault c r v)
  unfolding clean_stored
  clean_stored-Safe fault c r v s fits e =
      let id = c.reservation_id in
      let now = clean_stored fault c r v in
      let due = Safe-require_cleanup digest foreign lost id r v s e in
      elim (Bool-cases (r.storage_key == c.key)) [
        | inr other ↦
            let step : now ≡ attempt v (require_cleanup id r v) = ground arith in rw step due
        | inl key ↦
            let same : r.storage_key ≡ c.key = ground arith in
            elim (Bool-cases (has_artifact c.key v)) [
              | inl kept ↦
                  let step : now ≡ drop_reservation id v = ground arith in
                  rw step (Safe-drop digest foreign lost id r v s e (λ bytes f. inr (rw same kept)))
              | inr free ↦ elim (Bool-cases (is_collided r.storage_state)) [
                | inl strange ↦
                    let step : now ≡ drop_reservation id v = ground arith in
                    rw step (
                      Safe-drop digest foreign lost id r v s e
                        (λ bytes f. inl ((s.honest id r e).strange bytes strange f)))
                | inr fair ↦ elim (Bool-cases r.cleanup_required) [
                  | inl late ↦ let step : now ≡ v = ground arith in rw step s
                  | inr soon ↦ elim (Bool-cases c.uncertain_outcome) [
                    | inl unsure ↦
                        let step : now ≡ attempt v (require_cleanup id r v) = ground arith in
                        rw step due
                    | inr sure ↦ elim (Bool-cases c.owns_bytes) [
                      | inl own ↦
                          let step : now ≡ delete_bytes fault id r v = ground arith in
                          rw step (
                            Safe-delete_bytes digest foreign lost fault id r v s e
                              (rw same (fits.own own)))
                      | inr none_own ↦
                          let step : now ≡ drop_reservation id v = ground arith in
                          rw step (
                            Safe-drop digest foreign lost id r v s e (λ bytes f.
                              inl (rw same (fits.strange bytes none_own sure (rw (sym same) f)))))
                    ]
                  ]
                ]
              ]
            ]
      ]

  clean_stored-Shrinks :
      (fault : DeleteFault) (c : Candidate) (r : Reservation) (v : Vault)
      → Shrinks v (clean_stored fault c r v)
  unfolding clean_stored
  clean_stored-Shrinks fault c r v k bytes h =
      let id = c.reservation_id in
      ground (
        arith,
        require_cleanup-disk id r v,
        delete_bytes-disk fault id r v,
        delete_shrinks fault r.storage_key k v.disk bytes,
      )

  -- What a transaction does to the disk: nothing, or it deletes bytes that the candidate owns.
  clean_stored-disk :
      (fault : DeleteFault) (c : Candidate) (r : Reservation) (v : Vault)
      → ((clean_stored fault c r v).disk ≡ v.disk)
        ⊎ (((clean_stored fault c r v).disk ≡ (delete fault r.storage_key v.disk).1)
            × (c.owns_bytes ≡ true)
            × (r.storage_key ≡ c.key))
  unfolding clean_stored
  clean_stored-disk fault c r v =
      let id = c.reservation_id in
      ground (arith, require_cleanup-disk id r v, delete_bytes-disk fault id r v)

  clean_candidate-Safe :
      (fault : CleanupFault) (c : Candidate) (r : Reservation) (v : Vault)
      → Safe digest foreign lost v
      → Fits c v
      → lookup c.reservation_id v.reservations ≡ some r
      → (fault.rolls_back ≡ true → lost c.reservation_id ≡ true)
      → Safe digest foreign lost (end_of fault.rolls_back v (clean_stored fault.deletion c r v))
  unfolding end_of
  clean_candidate-Safe fault c r v s f e given_up = elim (Bool-cases fault.rolls_back) [
    | inr kept ↦ rw kept (clean_stored-Safe fault.deletion c r v s f e)
    | inl failed ↦ elim (clean_stored-disk fault.deletion c r v) [
      | inl same ↦ rw (failed, same) s
      | inr (same, own, key) ↦
          rw (failed, same)
            (Safe-lost digest foreign lost fault.deletion c.reservation_id r v s e
              (rw key (f.own own)) (given_up failed))
    ]
  ]

  clean_candidate-Shrinks :
      (fault : CleanupFault) (c : Candidate) (r : Reservation) (v : Vault)
      → Shrinks v (end_of fault.rolls_back v (clean_stored fault.deletion c r v))
  unfolding end_of
  clean_candidate-Shrinks fault c r v = elim (Bool-cases fault.rolls_back) [
    | inr kept ↦ rw kept (clean_stored-Shrinks fault.deletion c r v)
    | inl failed ↦ rw failed (clean_stored-Shrinks fault.deletion c r v)
  ]

  pub cleanup_unowned-Safe :
      (fault : ℕ → CleanupFault) (cs : List Candidate) (v : Vault)
      → ((id : ℕ) → (fault id).rolls_back ≡ true → lost id ≡ true)
      → Safe digest foreign lost v
      → AllFit cs v
      → Safe digest foreign lost (cleanup_unowned fault cs v)
  unfolding cleanup_unowned clean_candidate
  cleanup_unowned-Safe fault [] v given_up s a = s
  cleanup_unowned-Safe fault (c ∷ cs) v given_up s (f, a) =
      elim (Option-cases (lookup c.reservation_id v.reservations)) [
        | inl gone ↦
            rw (cleanup_unowned, clean_candidate, gone)
              (cleanup_unowned-Safe fault cs v given_up s a)
        | inr (r, e) ↦
            let id = c.reservation_id in
            let w = end_of (fault id).rolls_back v (clean_stored (fault id).deletion c r v) in
            rw (cleanup_unowned, clean_candidate, e)
              (cleanup_unowned-Safe fault cs w given_up
                (clean_candidate-Safe (fault id) c r v s f e (given_up id))
                (AllFit-Shrinks cs v w (clean_candidate-Shrinks (fault id) c r v) a))
      ]

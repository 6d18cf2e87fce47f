-- ===== src/Revisions/Rounds/Loop.antt =====
-- The storage loop keeps the vault safe, and what it says to cleanup is true.
use mathlib.Core.Path.{ap, ◌∙◌}
use prj_app.Base.{
  Bool, ℕ, ◌≡◌, refl, sym, true, false, none, some, [], ◌∷◌, ◌++◌, Text, Table, List, lookup, arith,
  inl, inr, Result, Result-cases,
}
use prj_app.Unicode.{Unicode}
use prj_app.MediaType.{authoritative_media_type}
use prj_app.Disk.{Written, stored, committed, collision, failed, write}
use prj_app.Disk.{cleanup_required as residue}
use prj_app.Vault.{Vault, Reservation}
use prj_app.Vault.Safe.{Safe}
use prj_app.Reservations.{
  key_attempts, fresh_reservation, reserve_round, mark_verified, mark_collision, transaction,
  transaction-ok, Candidate,
}
use prj_app.Reservations.Unowned.{Fits, AllFit}
use prj_app.Revisions.Payloads.{Item}
use prj_app.Revisions.Rounds.{
  Prepared, Round, ready, raised, candidate, after_write, store_payload, store_payloads,
}
use prj_app.Revisions.Rounds.Reserved.{reserve_round-Reserved}
use prj_app.Revisions.Rounds.Landed.{Landed, write-Landed}
use prj_app.Revisions.Rounds.Marked.{
  SameTables, SameTables-trans, mark_verified-Safe, mark_collision-Safe, mark_cleanup_required-Safe,
}

module _ (u : Unicode) (digest : Text → Text) (foreign : Table Text) (lost : ℕ → Bool) where
  -- The candidates of finished rounds.
  abbrev pub AllOwn : List Candidate → Type 0
  AllOwn [] = Unit
  AllOwn (c ∷ cs) = (c.owns_bytes ≡ true) × (lookup c.key foreign ≡ none) × AllOwn cs

  abbrev pub RoundSafe : Vault → Round → Type 0
  RoundSafe v (ready c p w) = Safe digest foreign lost w × SameTables v w × AllOwn (c ∷ [])
  RoundSafe v (raised cs e w) =
      Safe digest foreign lost w × SameTables v w × AllFit digest foreign lost cs w

  AllOwn-append :
      (cs : List Candidate) (c : Candidate) → AllOwn cs → AllOwn (c ∷ []) → AllOwn (cs ++ (c ∷ []))
  AllOwn-append [] c a b = b
  AllOwn-append (d ∷ cs) c (o, m, a) b = (o, m, AllOwn-append cs c a b)

  pub AllOwn-AllFit :
      (cs : List Candidate) (v : Vault) → AllOwn cs → AllFit digest foreign lost cs v
  AllOwn-AllFit [] v a = tt
  AllOwn-AllFit (c ∷ cs) v (o, m, a) =
      (record { own = λ _. m; strange = λ bytes p. absurd (ground arith) }, AllOwn-AllFit cs v a)

  AllFit-append :
      (cs ds : List Candidate) (v : Vault)
      → AllFit digest foreign lost cs v
      → AllFit digest foreign lost ds v
      → AllFit digest foreign lost (cs ++ ds) v
  AllFit-append [] ds v a b = b
  AllFit-append (c ∷ cs) ds v (f, a) b = (f, AllFit-append cs ds v a b)

  untouched : (v : Vault) → SameTables v v
  untouched v = record { same_db = refl; same_artifacts = refl }

  RoundSafe-tables : (v w : Vault) (r : Round) → SameTables v w → RoundSafe w r → RoundSafe v r
  RoundSafe-tables v w (ready c p x) a (s, b, o) = (s, SameTables-trans v w x a b, o)
  RoundSafe-tables v w (raised cs e x) a (s, b, o) = (s, SameTables-trans v w x a b, o)

  is_own :
      (id key : ℕ) (v : Vault)
      → lookup key foreign ≡ none
      → Fits digest foreign lost (candidate id key true false) v
  is_own id key v mine = record { own = λ _. mine; strange = λ bytes o. absurd (ground arith) }

  not_own :
      (id key : ℕ) (v : Vault)
      → ((bytes : Text) → lookup key v.disk.files ≡ some bytes → lookup key foreign ≡ some bytes)
      → Fits digest foreign lost (candidate id key false false) v
  not_own id key v strange = record {
    own = λ o. absurd (ground arith);
    strange = λ bytes o n f. strange bytes f;
  }

  after_write-RoundSafe :
      (item : Item) (id key : ℕ) (r : Reservation) (outcome : Written) (v : Vault)
      → lookup id v.reservations ≡ some r
      → r.storage_key ≡ key
      → Landed digest foreign lost key outcome v
      → RoundSafe v (after_write u digest item id key outcome v)
  unfolding after_write
  after_write-RoundSafe (p, name, s) id key r collision v e at_key h =
      let strange : (bytes : Text)
          → lookup r.storage_key v.disk.files ≡ some bytes
          → lookup r.storage_key foreign ≡ some bytes =
        λ bytes. rw at_key (h.strange bytes refl) in
      elim (Result-cases (transaction s.mark_fails (mark_collision id v))) [
        | inr (x, q) ↦
            rw q (h.safe, untouched v, (not_own id key v (λ bytes f. h.strange bytes refl f), tt))
        | inl (w, q) ↦
            let (safe, same, disk) =
              mark_collision-Safe digest foreign lost id r v w h.safe e strange
                (transaction-ok s.mark_fails (mark_collision id v) w q) in
            rw q (
              safe,
              same,
              (
                not_own id key w
                    (λ bytes f. h.strange bytes refl (sym (ap (λ d. lookup key d.files) disk) ∙ f)),
                tt,
              ),
            )
      ]
  after_write-RoundSafe (p, name, s) id key r (committed receipt) v e at_key h =
      let (mine, held) = h.mine receipt refl in
      elim (Result-cases (transaction s.mark_fails (mark_verified id key receipt v))) [
        | inr (x, q) ↦ rw q (h.safe, untouched v, (is_own id key v mine, tt))
        | inl (w, q) ↦
            let (safe, same) =
              mark_verified-Safe digest foreign lost id key r receipt v w h.safe e at_key mine held
                (transaction-ok s.mark_fails (mark_verified id key receipt v) w q) in
            rw q (safe, same, (is_own id key w mine, tt))
      ]
  after_write-RoundSafe (p, name, s) id key r residue v e at_key h =
      let (safe, same) =
        mark_cleanup_required-Safe digest foreign lost s.mark_fails id r v h.safe e in
      (
        safe,
        same,
        (
          record { own = λ o. absurd (ground arith); strange = λ bytes o n. absurd (ground arith) },
          tt,
        ),
      )
  after_write-RoundSafe (p, name, s) id key r failed v e at_key h =
      (h.safe, untouched v, (not_own id key v (λ bytes f. h.strange bytes refl f), tt))
  after_write-RoundSafe (p, name, s) id key r (stored receipt) v e at_key h =
      let (mine, held) = h.mine receipt refl in
      elim (Result-cases (transaction s.mark_fails (mark_verified id key receipt v))) [
        | inr (x, q) ↦
            rw (RoundSafe, after_write, q) (h.safe, untouched v, (is_own id key v mine, tt))
        | inl (w, q) ↦
            let (safe, same) =
              mark_verified-Safe digest foreign lost id key r receipt v w h.safe e at_key mine held
                (transaction-ok s.mark_fails (mark_verified id key receipt v) w q) in
            elim (Result-cases (authoritative_media_type u p.kind p.media_type)) [
              | inr (y, m) ↦
                  rw (RoundSafe, after_write, q, m) (safe, same, (is_own id key w mine, tt))
              | inl (t, m) ↦ rw (RoundSafe, after_write, q, m) (safe, same, (refl, mine, tt))
            ]
      ]

  pub store_payload-RoundSafe :
      (item : Item) (v : Vault)
      → Safe digest foreign lost v
      → RoundSafe v (store_payload u digest item v)
  unfolding store_payload
  store_payload-RoundSafe (p, name, s) v safe =
      elim (Result-cases (
        transaction s.reserve_fails
          (reserve_round key_attempts s.draw_id s.draw_key s.expires_at v))) [
            | inr (x, q) ↦ rw (RoundSafe, store_payload, q) (safe, untouched v, tt)
            | inl ((id, key, w), q) ↦
                let made =
                  reserve_round-Reserved digest foreign lost key_attempts s.draw_id s.draw_key
                    s.expires_at v w id key safe
                    (transaction-ok s.reserve_fails
                      (reserve_round key_attempts s.draw_id s.draw_key s.expires_at v) (id, key, w)
                      q) in
                let out =
                  write digest s.faults key p.chunks p.expected_size p.expected_sha256 w.disk in
                let landed =
                  write-Landed digest foreign lost s.faults id key s.expires_at p.chunks
                    p.expected_size p.expected_sha256 v w out.0 out.1 made refl in
                let next : Vault = record w { disk = out.1 } in
                let row = fresh_reservation key s.expires_at in
                rw (RoundSafe, store_payload, q)
                  (RoundSafe-tables v next (after_write u digest (p, name, s) id key out.0 next)
                    (record { same_db = made.same_db; same_artifacts = made.same_artifacts })
                    (after_write-RoundSafe (p, name, s) id key row out.0 next made.row refl landed))
          ]

  -- The end of the loop: all rounds are done, or the last one has raised.
  abbrev pub LoopSafe : Vault → List Candidate × Result (List Prepared) × Vault → Type 0
  LoopSafe v (cs, r, w) =
      Safe digest foreign lost w × SameTables v w × AllFit digest foreign lost cs w

  pub store_payloads-LoopSafe :
      (items : List Item) (cs : List Candidate) (done : List Prepared) (v : Vault)
      → Safe digest foreign lost v
      → AllOwn cs
      → LoopSafe v (store_payloads u digest items cs done v)
  unfolding store_payloads
  store_payloads-LoopSafe [] cs done v safe own = (safe, untouched v, AllOwn-AllFit cs v own)
  store_payloads-LoopSafe (item ∷ items) cs done v safe own =
      go (store_payload u digest item v) refl (store_payload-RoundSafe item v safe) (λ c p w s' a.
        store_payloads-LoopSafe items (cs ++ (c ∷ [])) (done ++ (p ∷ [])) w s'
          (AllOwn-append cs c own a))
    where
      go :
          (r : Round)
          → store_payload u digest item v ≡ r
          → RoundSafe v r
          → ((c : Candidate) (p : Prepared) (w : Vault)
              → Safe digest foreign lost w
              → AllOwn (c ∷ [])
              → LoopSafe w (store_payloads u digest items (cs ++ (c ∷ [])) (done ++ (p ∷ [])) w))
          → LoopSafe v (store_payloads u digest (item ∷ items) cs done v)
      go (raised ds e w) q (s, t, a) again =
          rw (store_payloads, q) (s, t, AllFit-append cs ds w (AllOwn-AllFit cs w own) a)
      go (ready c p w) q (s, t, a) again =
          let (s', t', a') = again c p w s a in
          rw (store_payloads, q) (s', SameTables-trans v w _ t t', a')

-- ===== src/Revisions/Rounds/Filled.antt =====
-- The storage loop stores every payload.
use prj_app.Base.{
  ℕ, Bool, ◌≡◌, refl, [], ◌∷◌, ◌++◌, Text, Table, List, arith, ok, append_assoc, append_nil,
}
use prj_app.Unicode.{Unicode}
use prj_app.Names.Logical.{LogicalName}
use prj_app.Vault.{Vault}
use prj_app.Vault.Safe.{Safe}
use prj_app.Reservations.{Candidate}
use prj_app.Revisions.Payloads.{Payload, Supply, Item}
use prj_app.Revisions.Rounds.{Prepared, Round, ready, raised, store_payload, store_payloads}
use prj_app.Revisions.Rounds.Loop.{RoundSafe, store_payload-RoundSafe}
use prj_app.Revisions.Rounds.Kept.{
  AllKept, Finished, store_payload-Finished, Finished-Kept, Finished-others,
}

abbrev pub payloads_of : List Item → List Payload
payloads_of [] = []
payloads_of ((p, name, s) ∷ items) = p ∷ payloads_of items

module _ (u : Unicode) (digest : Text → Text) (foreign : Table Text) (lost : ℕ → Bool) where
  AllKept-Finished :
      (p : Payload) (name : LogicalName) (s : Supply) (v w : Vault) (q : Prepared)
      → Finished u digest p name s v w q
      → (ps : List Payload) (qs : List Prepared) → AllKept u digest v ps qs
      → AllKept u digest w (ps ++ (p ∷ [])) (qs ++ (q ∷ []))
  AllKept-Finished p name s v w q f [] [] a = (Finished-Kept u digest p name s v w q f, tt)
  AllKept-Finished p name s v w q f [] (r ∷ rs) a = absurd a
  AllKept-Finished p name s v w q f (x ∷ xs) [] a = absurd a
  AllKept-Finished p name s v w q f (x ∷ xs) (r ∷ rs) (k, a) =
      (Finished-others u digest x r p name s v w q f k, AllKept-Finished p name s v w q f xs rs a)

  pub store_payloads-AllKept :
      (items : List Item) (cs : List Candidate) (done : List Prepared) (before : List Payload)
      (v w : Vault) (cs' : List Candidate) (qs : List Prepared)
      → Safe digest foreign lost v
      → AllKept u digest v before done
      → store_payloads u digest items cs done v ≡ (cs', ok qs, w)
      → AllKept u digest w (before ++ payloads_of items) qs
  unfolding store_payloads
  store_payloads-AllKept [] cs done before v w cs' qs safe a h =
      let same : w ≡ v = ground arith in
      let all : qs ≡ done = ground arith in rw (append_nil before, same, all) a
  store_payloads-AllKept ((p, name, s) ∷ items) cs done before v w cs' qs safe a h =
      go (store_payload u digest (p, name, s) v) refl
        (store_payload-RoundSafe u digest foreign lost (p, name, s) v safe)
        (λ c q x safe' a'.
          store_payloads-AllKept items (cs ++ (c ∷ [])) (done ++ (q ∷ [])) (before ++ (p ∷ [])) x w
            cs' qs safe' a')
    where
      go :
          (r : Round)
          → store_payload u digest (p, name, s) v ≡ r
          → RoundSafe u digest foreign lost v r
          → ((c : Candidate) (q : Prepared) (x : Vault)
              → Safe digest foreign lost x
              → AllKept u digest x (before ++ (p ∷ [])) (done ++ (q ∷ []))
              → store_payloads u digest items (cs ++ (c ∷ [])) (done ++ (q ∷ [])) x
                ≡ (cs', ok qs, w)
              → AllKept u digest w ((before ++ (p ∷ [])) ++ payloads_of items) qs)
          → AllKept u digest w (before ++ (p ∷ payloads_of items)) qs
      go (raised ds e x) q b again = absurd (ground arith)
      go (ready c r x) q b again = rw (← append_assoc before (p ∷ []) (payloads_of items)) (
          again c r x b.0
            (AllKept-Finished p name s v x r
              (store_payload-Finished u digest foreign lost p name s v x c r safe q) before done a)
            (ground arith))

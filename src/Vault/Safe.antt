-- ===== src/Vault/Safe.antt =====
-- What holds of the vault between any two calls, and the steps that keep it.
use mathlib.Core.Path.{ap, sym, ◌∙◌}
use prj_app.Base.{
  Bool, ℕ, ◌≡◌, true, false, none, some, [], Text, Table, lookup, insert, erase, any_row, ◌==◌,
  arith, lookup-insert, lookup-erase, any_row_complete, any_row-insert-false, any_row-insert-true,
  Bool-cases, inl, inr,
}
use prj_app.Model.{Db}
use prj_app.Disk.{Disk}
use prj_app.Disk.Contents.{Holds}
use prj_app.Vault.{Vault, Artifact, Reservation, is_owned, is_collided, valid_reservation}

-- `foreign` are the files that the program has not written, `lost` the reservations whose file may
-- be gone although they do not say so.
module _ (digest : Text → Text) (foreign : Table Text) (lost : ℕ → Bool) where
  -- Who answers for a file.
  pub data Tracked (v : Vault) (key : ℕ) (bytes : Text) : Type 0 where
    by_others : lookup key foreign ≡ some bytes → Tracked v key bytes
    by_artifact : any_row (λ a. a.storage_key == key) v.artifacts ≡ true → Tracked v key bytes
    by_reservation :
        (id : ℕ) (r : Reservation)
        → lookup id v.reservations ≡ some r
        → r.storage_key ≡ key
        → Tracked v key bytes

  -- What a reservation promises: owned bytes are the program's own, and verified unless their
  -- cleanup is due or they are lost; collided bytes are somebody else's.
  pub record Honest (id : ℕ) (disk : Disk) (r : Reservation) : Type 0 where
    pub valid : valid_reservation r ≡ true
    pub own : is_owned r.storage_state ≡ true → lookup r.storage_key foreign ≡ none
    pub verified :
        lost id ≡ false
        → is_owned r.storage_state ≡ true
        → r.cleanup_required ≡ false
        → (size : ℕ) × (r.verified_size ≡ some size)
          × Holds digest disk r.storage_key size r.verified_sha256
    pub strange :
        (bytes : Text)
        → is_collided r.storage_state ≡ true
        → lookup r.storage_key disk.files ≡ some bytes
        → lookup r.storage_key foreign ≡ some bytes

  pub record Safe (v : Vault) : Type 0 where
    pub backed :
        (i : ℕ) (a : Artifact)
        → lookup i v.artifacts ≡ some a
        → Holds digest v.disk a.storage_key a.byte_size a.sha256
    pub honest : (i : ℕ) (r : Reservation) → lookup i v.reservations ≡ some r → Honest i v.disk r
    pub unique :
        (i j : ℕ) (r s : Reservation)
        → lookup i v.reservations ≡ some r
        → lookup j v.reservations ≡ some s
        → r.storage_key ≡ s.storage_key
        → i ≡ j
    pub apart :
        (i : ℕ) (r : Reservation)
        → lookup i v.reservations ≡ some r
        → any_row (λ a. a.storage_key == r.storage_key) v.artifacts ≡ false
    pub kept :
        (k : ℕ) (bytes : Text) → lookup k foreign ≡ some bytes → lookup k v.disk.files ≡ some bytes
    pub tracked : (k : ℕ) (bytes : Text) → lookup k v.disk.files ≡ some bytes → Tracked v k bytes

  -- Files elsewhere do not matter to what is held under a key.
  pub Holds-frame :
      (disk disk' : Disk) (key size : ℕ) (sha256 : Text)
      → lookup key disk'.files ≡ lookup key disk.files
      → Holds digest disk key size sha256
      → Holds digest disk' key size sha256
  Holds-frame disk disk' key size sha256 same h =
      let file = h.file in
      record { bytes = h.bytes; file = ground arith; sized = h.sized; hashed = h.hashed }

  pub Honest-frame :
      (id : ℕ) (disk disk' : Disk) (r : Reservation)
      → lookup r.storage_key disk'.files ≡ lookup r.storage_key disk.files
      → Honest id disk r
      → Honest id disk' r
  Honest-frame id disk disk' r same h = record {
    valid = h.valid;
    own = h.own;
    verified = λ g o c.
        let (size, s, held) = h.verified g o c in
        (size, s, Holds-frame disk disk' r.storage_key size r.verified_sha256 same held);
    strange = λ bytes c e. h.strange bytes c (ground arith);
  }

  -- A stored reservation is replaced by an honest one of the same key.
  pub Safe-update :
      (id : ℕ) (o r : Reservation) (v : Vault)
      → Safe v
      → lookup id v.reservations ≡ some o
      → r.storage_key ≡ o.storage_key
      → Honest id v.disk r
      → Safe (record v { reservations = insert id r v.reservations })
  Safe-update id o r v s e key h =
      let at = λ (j : ℕ). lookup-insert id j r v.reservations in
      record {
        backed = s.backed;
        honest = λ i x f. elim (Bool-cases (id == i)) [
          | inl hit ↦
              let same : x ≡ r = ground (arith, at i) in
              let there : i ≡ id = ground arith in rw (same, there) h
          | inr miss ↦ s.honest i x (ground (arith, at i))
        ];
        unique = λ i j x y f g k.
            ground (arith, at i, at j, s.unique i j x y, s.unique id j o y, s.unique i id x o);
        apart = λ i x f. elim (Bool-cases (id == i)) [
          | inl hit ↦
              let same : x.storage_key ≡ o.storage_key = ground (arith, at i) in
              rw same (s.apart id o e)
          | inr miss ↦ s.apart i x (ground (arith, at i))
        ];
        kept = s.kept;
        tracked = λ k bytes f. elim (s.tracked k bytes f) [
          | by_others x ↦ by_others x
          | by_artifact x ↦ by_artifact x
          | by_reservation i x g q ↦ elim (Bool-cases (id == i)) [
            | inl hit ↦ by_reservation id r (ground (arith, at id)) (ground arith)
            | inr miss ↦ by_reservation i x (ground (arith, at i)) q
          ]
        ];
      }

  -- What is pending on the disk does not matter.
  pub Safe-files :
      (v : Vault) (disk : Disk)
      → Safe v
      → disk.files ≡ v.disk.files
      → Safe (record v { disk = disk })
  Safe-files v disk s same =
      let at = λ (k : ℕ). ap (lookup k) same in
      record {
        backed = λ i a f.
            Holds-frame v.disk disk a.storage_key a.byte_size a.sha256 (at a.storage_key)
              (s.backed i a f);
        honest = λ i r f. Honest-frame i v.disk disk r (at r.storage_key) (s.honest i r f);
        unique = s.unique;
        apart = s.apart;
        kept = λ k bytes f. at k ∙ s.kept k bytes f;
        tracked = λ k bytes f. elim (s.tracked k bytes (sym (at k) ∙ f)) [
          | by_others x ↦ by_others x
          | by_artifact x ↦ by_artifact x
          | by_reservation i x g q ↦ by_reservation i x g q
        ];
      }

  -- Other tables do not matter.
  pub Safe-db : (v : Vault) (db : Db) → Safe v → Safe (record v { db = db })
  Safe-db v db s = record {
    backed = s.backed;
    honest = s.honest;
    unique = s.unique;
    apart = s.apart;
    kept = s.kept;
    tracked = λ k bytes f. elim (s.tracked k bytes f) [
      | by_others x ↦ by_others x
      | by_artifact x ↦ by_artifact x
      | by_reservation i x g q ↦ by_reservation i x g q
    ];
  }

  -- A reservation's file becomes that of a new artifact.
  pub Safe-adopt :
      (id aid : ℕ) (r : Reservation) (a : Artifact) (v : Vault)
      → Safe v
      → lookup id v.reservations ≡ some r
      → a.storage_key ≡ r.storage_key
      → Holds digest v.disk a.storage_key a.byte_size a.sha256
      → lookup aid v.artifacts ≡ none
      → Safe (record v {
        artifacts = insert aid a v.artifacts;
        reservations = erase id v.reservations;
      })
  Safe-adopt id aid r a v s e key held fresh =
      let at = λ (j : ℕ). lookup-erase id j v.reservations in
      let row = λ (j : ℕ). lookup-insert aid j a v.artifacts in
      record {
        backed = λ i b f. elim (Bool-cases (aid == i)) [
          | inl hit ↦ let same : b ≡ a = ground (arith, row i) in rw same held
          | inr miss ↦ s.backed i b (ground (arith, row i))
        ];
        honest = λ i x f. s.honest i x (ground (arith, at i));
        unique = λ i j x y f g k. ground (arith, at i, at j, s.unique i j x y);
        apart = λ i x f.
            let there : lookup i v.reservations ≡ some x = ground (arith, at i) in
            any_row-insert-false (λ b. b.storage_key == x.storage_key) v.artifacts aid a
              (s.apart i x there) (ground (arith, at i, s.unique i id x r));
        kept = s.kept;
        tracked = λ k bytes f. elim (s.tracked k bytes f) [
          | by_others x ↦ by_others x
          | by_artifact x ↦
              by_artifact (any_row-insert-true (λ b. b.storage_key == k) v.artifacts aid a fresh x)
          | by_reservation i x g q ↦ elim (Bool-cases (id == i)) [
            | inl hit ↦ by_artifact (
                any_row_complete (λ b. b.storage_key == k) (insert aid a v.artifacts) aid {v = a}
                  (ground (arith, row aid)) (ground arith))
            | inr miss ↦ by_reservation i x (ground (arith, at i)) q
          ]
        ];
      }

  -- Before anything is stored.
  pub initial-Safe :
      (db : Db)
      → Safe (record {
        db = db;
        artifacts = [];
        reservations = [];
        disk = record { files = foreign; pending = [] };
      })
  unfolding lookup
  initial-Safe db = record {
    backed = λ i a e. absurd (ground arith);
    honest = λ i r e. absurd (ground arith);
    unique = λ i j r s e. absurd (ground arith);
    apart = λ i r e. absurd (ground arith);
    kept = λ k bytes e. e;
    tracked = λ k bytes e. by_others e;
  }

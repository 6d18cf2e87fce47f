-- ===== src/Reservations/Bytes.antt =====
-- The deletion and the writing of bytes keep the vault safe.
use mathlib.Core.Path.{ap, ◌∙◌}
use prj_app.Base.{
  Bool, ℕ, ◌≡◌, refl, sym, true, false, none, some, Text, Table, lookup, insert, erase-insert,
  opt_eq_refl, text_eq_refl, ◌==◌, arith, lookup-insert, any_row_none, Bool-cases, inl, inr, ok,
}
use prj_app.Disk.{Disk, DeleteFault, delete}
use prj_app.Disk.Contents.{delete_others, delete_self}
use prj_app.Vault.{Vault, Reservation, valid_reservation, save_reservation}
use prj_app.Vault.Safe.{
  by_others, by_artifact, by_reservation, Honest, Safe, Holds-frame, Honest-frame, Safe-update,
}
use prj_app.Reservations.{update_reservation, require_cleanup, delete_bytes}
use prj_app.Reservations.Steps.{Safe-drop}

module _ (digest : Text → Text) (foreign : Table Text) (lost : ℕ → Bool) where
  -- The disk changes under one key only, which a stored reservation has.
  module _ (id key : ℕ) (r : Reservation) (v : Vault) (disk : Disk) (s : Safe digest foreign lost v)
      (e : lookup id v.reservations ≡ some r) (at_key : r.storage_key ≡ key)
      (others : (k : ℕ) → (key == k) ≡ false → lookup k disk.files ≡ lookup k v.disk.files)
      (mine : lookup key foreign ≡ none) where
    pub Safe-disk :
        Honest digest foreign lost id disk r → Safe digest foreign lost (record v { disk = disk })
    Safe-disk h = record {
      backed = λ i a f.
          let apart = s.apart id r e in
          let differs =
            any_row_none (λ a. a.storage_key == r.storage_key) v.artifacts i {v = a} apart f in
          Holds-frame digest foreign lost v.disk disk a.storage_key a.byte_size a.sha256
            (others a.storage_key (ground arith)) (s.backed i a f);
      honest = λ i x f. elim (Bool-cases (x.storage_key == key)) [
        | inl hit ↦
            let same : i ≡ id = s.unique i id x r f e (ground arith) in
            let row : x ≡ r = ground arith in rw (row, same) h
        | inr miss ↦
            Honest-frame digest foreign lost i v.disk disk x (others x.storage_key (ground arith))
              (s.honest i x f)
      ];
      unique = s.unique;
      apart = s.apart;
      kept = λ k bytes f. elim (Bool-cases (key == k)) [
        | inl hit ↦ absurd (ground arith)
        | inr miss ↦ ground (arith, others k miss, s.kept k bytes f)
      ];
      tracked = λ k bytes f. elim (Bool-cases (key == k)) [
        | inl hit ↦ by_reservation id r e (ground arith)
        | inr miss ↦ elim (s.tracked k bytes (ground (arith, others k miss))) [
          | by_others x ↦ by_others x
          | by_artifact x ↦ by_artifact x
          | by_reservation i x g q ↦ by_reservation i x g q
        ]
      ];
    }

  -- A cleanup that is due can always be recorded.
  save_cleanup :
      (r : Reservation)
      → valid_reservation r ≡ true
      → save_reservation r (record r { cleanup_required = true })
        ≡ ok (record r { cleanup_required = true })
  unfolding save_reservation valid_reservation
  save_cleanup r h = ground (arith, opt_eq_refl r.verified_size, text_eq_refl r.verified_sha256)

  -- Bytes are deleted that are the program's own and no artifact's.
  pub Safe-delete_bytes :
      (fault : DeleteFault) (id : ℕ) (r : Reservation) (v : Vault)
      → Safe digest foreign lost v
      → lookup id v.reservations ≡ some r
      → lookup r.storage_key foreign ≡ none
      → Safe digest foreign lost (delete_bytes fault id r v)
  unfolding delete_bytes require_cleanup update_reservation valid_reservation
  Safe-delete_bytes fault id r v s e mine =
      let h = s.honest id r e in
      let due : Reservation = record r { cleanup_required = true } in
      let marked : Vault = record v { reservations = insert id due v.reservations } in
      let disk = (delete fault r.storage_key v.disk).1 in
      let there = lookup-insert id id due v.reservations in
      let stored : lookup id marked.reservations ≡ some due = ground (arith, there) in
      let kept_row : Honest digest foreign lost id v.disk due = record {
        valid = h.valid;
        own = h.own;
        verified = λ g o c. absurd (ground arith);
        strange = h.strange;
      } in
      let first = Safe-update digest foreign lost id r due v s e refl kept_row in
      let second =
        Safe-disk id r.storage_key due marked disk first stored refl
          (λ k ne. delete_others fault r.storage_key k v.disk ne) mine
          (record {
            valid = h.valid;
            own = h.own;
            verified = λ g o c. absurd (ground arith);
            strange =
                λ bytes c f. h.strange bytes c (delete_self fault r.storage_key v.disk bytes f).1;
          }) in
      elim (Bool-cases (delete fault r.storage_key v.disk).0) [
        | inl done ↦
            let third =
              Safe-drop digest foreign lost id due (record marked { disk = disk }) second stored
                (λ bytes f.
                  let gone = delete_self fault r.storage_key v.disk bytes f in
                  absurd (ground arith)) in
            rw done (rw (← erase-insert id due v.reservations) third)
        | inr left ↦ rw (left, save_cleanup r h.valid) second
      ]

  -- Bytes are deleted, and the tables restored.
  pub Safe-lost :
      (fault : DeleteFault) (id : ℕ) (r : Reservation) (v : Vault)
      → Safe digest foreign lost v
      → lookup id v.reservations ≡ some r
      → lookup r.storage_key foreign ≡ none
      → lost id ≡ true
      → Safe digest foreign lost (record v { disk = (delete fault r.storage_key v.disk).1 })
  Safe-lost fault id r v s e mine given_up =
      let h = s.honest id r e in
      Safe-disk id r.storage_key r v (delete fault r.storage_key v.disk).1 s e refl
        (λ k ne. delete_others fault r.storage_key k v.disk ne) mine
        (record {
          valid = h.valid;
          own = h.own;
          verified = λ g. absurd (ground arith);
          strange =
              λ bytes c f. h.strange bytes c (delete_self fault r.storage_key v.disk bytes f).1;
        })

-- No delete makes a file.
pub delete_shrinks :
    (fault : DeleteFault) (key k : ℕ) (disk : Disk) (bytes : Text)
    → lookup k (delete fault key disk).1.files ≡ some bytes
    → lookup k disk.files ≡ some bytes
delete_shrinks fault key k disk bytes h = elim (Bool-cases (key == k)) [
  | inl hit ↦
      let same : k ≡ key = ground arith in
      let there = ap (λ x. lookup x (delete fault key disk).1.files) same in
      rw same (delete_self fault key disk bytes (sym there ∙ h)).1
  | inr miss ↦ ground (arith, delete_others fault key k disk miss)
]

pub delete_bytes-disk :
    (fault : DeleteFault) (id : ℕ) (r : Reservation) (v : Vault)
    → (delete_bytes fault id r v).disk ≡ (delete fault r.storage_key v.disk).1
unfolding delete_bytes require_cleanup update_reservation
delete_bytes-disk fault id r v = ground arith

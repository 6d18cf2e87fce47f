-- ===== src/Ownership/Epochs.antt =====
-- A confirmation of a transfer is bound to one ownership epoch.
use prj_app.Base.{
  ℕ, ◌≡◌, refl, true, none, some, Table, lookup, ok, err, Error, arith, lookup-insert, is_some,
  Option-cases, inl, inr, opt_eq_sound, Bool-cases, ◌==◌,
}
use prj_app.Model.{Db, Dashboard, OwnershipTransfer}
use prj_app.Access.Grants.{GrantsValid}
use prj_app.Requests.Invariant.{RequestsValid}
use prj_app.Ownership.{
  Expected, is_expected, handed_over, new_transfer, transfer_dashboard_ownership,
}
use prj_app.Ownership.Whole.{transfer_effect}

-- The marker of every ownership epoch is stored.
abbrev pub EpochsStored : Db → Type 0
EpochsStored db =
    (id : ℕ) (d : Dashboard) (m : ℕ)
    → lookup id db.dashboards ≡ some d
    → d.last_ownership_transfer ≡ some m
    → is_some (lookup m db.transfers) ≡ true

-- Later transfers of any dashboards, each under a fresh marker.
pub data Later (db : Db) : Db → Type 0 where
  here : Later db db
  next :
      {a b : Db} (new_id now dashboard_id actor_id incoming : ℕ) (expected : Expected)
      → Later db a
      → lookup new_id a.transfers ≡ none
      → transfer_dashboard_ownership new_id now dashboard_id actor_id incoming expected a ≡ ok b
      → Later db b

-- Relative to old markers: they are all still stored, and the dashboard has moved to a newer epoch.
record Beyond (old : Table OwnershipTransfer) (dashboard_id : ℕ) (db : Db) : Type 0 where
  grants : GrantsValid db
  requests : RequestsValid db
  kept : (m : ℕ) → is_some (lookup m old) ≡ true → is_some (lookup m db.transfers) ≡ true
  newer :
      (d : Dashboard)
      → lookup dashboard_id db.dashboards ≡ some d
      → (m : ℕ) × (d.last_ownership_transfer ≡ some m) × (lookup m old ≡ none)

not_kept :
    (old t : Table OwnershipTransfer) (m : ℕ)
    → (is_some (lookup m old) ≡ true → is_some (lookup m t) ≡ true)
    → lookup m t ≡ none
    → lookup m old ≡ none
not_kept old t m k e = elim (Option-cases (lookup m old)) [
  | inl free ↦ free
  | inr (x, s) ↦ absurd (ground arith)
]

module _ (old : Table OwnershipTransfer) (id : ℕ) where
  -- The transfer of a dashboard under a marker that is none of the old ones.
  moved-Beyond :
      (new_id now dashboard_id actor_id incoming : ℕ) (expected : Expected) (a b : Db)
      (d : Dashboard)
      → GrantsValid a
      → RequestsValid a
      → ((m : ℕ) → is_some (lookup m old) ≡ true → is_some (lookup m a.transfers) ≡ true)
      → lookup new_id a.transfers ≡ none
      → lookup dashboard_id a.dashboards ≡ some d
      → transfer_dashboard_ownership new_id now dashboard_id actor_id incoming expected a ≡ ok b
      → ((f : Dashboard)
          → (dashboard_id ≡ id → ⊥)
          → lookup id a.dashboards ≡ some f
          → (m : ℕ) × (f.last_ownership_transfer ≡ some m) × (lookup m old ≡ none))
      → Beyond old id b
  moved-Beyond new_id now dashboard_id actor_id incoming expected a b d v w k fresh e h rest =
      let t = transfer_effect new_id now dashboard_id actor_id incoming expected a b d v w e h in
      record {
        grants = t.8;
        requests = t.9;
        kept = λ m s. ground (
          arith,
          t.7,
          lookup-insert new_id m (new_transfer dashboard_id actor_id incoming d) a.transfers,
          k m,
        );
        newer = λ f g. elim (Bool-cases (dashboard_id == id)) [
          | inl same ↦ (
            new_id,
            ground (
              arith,
              t.6,
              lookup-insert dashboard_id id (handed_over new_id incoming d) a.dashboards,
            ),
            not_kept old a.transfers new_id (k new_id) fresh,
          )
          | inr apart ↦
              rest f (λ p. ground arith)
                (ground (
                  arith,
                  t.6,
                  lookup-insert dashboard_id id (handed_over new_id incoming d) a.dashboards,
                ))
        ];
      }

  transfer_found :
      (new_id now dashboard_id actor_id incoming : ℕ) (expected : Expected) (a b : Db)
      → transfer_dashboard_ownership new_id now dashboard_id actor_id incoming expected a ≡ ok b
      → (d : Dashboard) × (lookup dashboard_id a.dashboards ≡ some d)
  unfolding transfer_dashboard_ownership
  transfer_found new_id now dashboard_id actor_id incoming expected a b h =
      elim (Option-cases (lookup dashboard_id a.dashboards)) [
        | inl e ↦ absurd (ground arith)
        | inr x ↦ x
      ]

  Later-Beyond : {a b : Db} → Beyond old id a → Later a b → Beyond old id b
  Later-Beyond x here = x
  Later-Beyond x
        (next {a = c} {b = b} new_id now dashboard_id actor_id incoming expected l fresh h) =
      let y = Later-Beyond x l in
      let (d, e) = transfer_found new_id now dashboard_id actor_id incoming expected c b h in
      moved-Beyond new_id now dashboard_id actor_id incoming expected c b d y.grants y.requests
        y.kept fresh e h (λ f apart. y.newer f)

-- A confirmation that was bound to an epoch is refused for ever after a transfer of the dashboard,
-- whatever transfers follow, back to the first owner too.
pub stale_confirmation_denied :
    (new_id now dashboard_id actor_id incoming : ℕ) (expected : Expected) (db db₁ db₂ : Db)
    (d : Dashboard)
    → GrantsValid db
    → RequestsValid db
    → EpochsStored db
    → lookup dashboard_id db.dashboards ≡ some d
    → lookup new_id db.transfers ≡ none
    → transfer_dashboard_ownership new_id now dashboard_id actor_id incoming expected db ≡ ok db₁
    → Later db₁ db₂
    → (id when actor to : ℕ)
    → transfer_dashboard_ownership id when dashboard_id actor to
        (Expected.epoch d.last_ownership_transfer)
        db₂
      ≡ err Error.access_denied
unfolding transfer_dashboard_ownership is_expected
stale_confirmation_denied new_id now dashboard_id actor_id incoming expected db db₁ db₂ d v w stored
      e fresh h later id when actor to =
    let x =
      moved-Beyond db.transfers dashboard_id new_id now dashboard_id actor_id incoming expected db
        db₁ d v w (λ m s. s) fresh e h (λ f apart. absurd (apart refl)) in
    let y = Later-Beyond db.transfers dashboard_id x later in
    elim (Option-cases (lookup dashboard_id db₂.dashboards)) [
      | inl gone ↦ ground arith
      | inr (f, g) ↦
          let (m, last, new) = y.newer f g in
          ground (
            arith,
            opt_eq_sound f.last_ownership_transfer d.last_ownership_transfer,
            stored dashboard_id d m e,
          )
    ]

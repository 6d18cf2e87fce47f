-- ===== src/Lifecycle/Invariant.antt =====
-- What a stored dashboard row satisfies after `Dashboard.save`.
use prj_app.Base.{
  ℕ, ◌≡◌, ◌<◌, ◌≤◌, ◌+◌, refl, true, false, Option, none, some, Table, ok, arith, opt_eq_sound,
  is_some, text_eq_sound,
}
use prj_app.Model.{Dashboard, Revision, is_published, is_deleted}
use prj_app.Lifecycle.{
  save, advance, check_transition, check_first, check_advanced, check_kept, full_clean,
  freshness_valid, version_time, published_versioned, belongs, publication_state,
  publication_history, allowed, moved_back,
}

-- The database constraints that concern the publication of a dashboard, as propositions.
pub record IsConsistent (d : Dashboard) : Type 0 where
  pub pointer : is_published d.state ≡ is_some d.published_revision
  pub history : publication_history d ≡ true
  pub timed : version_time d ≡ true
  pub versioned : is_published d.state ≡ true → 0 < d.publication_version
  pub fresh :
      freshness_valid d.freshness_interval_seconds d.freshness_confirmed_at d.stale_after ≡ true

pub full_clean-IsConsistent :
    (revisions : Table Revision) (id : ℕ) (d : Dashboard)
    → full_clean revisions id d ≡ ok tt
    → IsConsistent d
unfolding full_clean publication_state published_versioned
full_clean-IsConsistent revisions id d h = record {
  pointer = ground arith;
  history = ground arith;
  timed = ground arith;
  versioned = ground arith;
  fresh = ground arith;
}

pub full_clean-belongs :
    (revisions : Table Revision) (id : ℕ) (d : Dashboard)
    → full_clean revisions id d ≡ ok tt
    → belongs revisions id d.published_revision ≡ true
unfolding full_clean
full_clean-belongs revisions id d h = ground arith

pub save-inversion :
    (now : ℕ) (revisions : Table Revision) (id : ℕ) (o d e : Dashboard)
    → save now revisions id o d ≡ ok e
    → (e ≡ advance now o d)
      × (check_transition o e ≡ ok tt)
      × (full_clean revisions id e ≡ ok tt)
      × (o.owner ≡ d.owner)
      × (o.last_ownership_transfer ≡ d.last_ownership_transfer)
unfolding save
save-inversion now revisions id o d e h = (
  ground arith,
  ground arith,
  ground arith,
  ground arith,
  opt_eq_sound o.last_ownership_transfer d.last_ownership_transfer (ground arith),
)

-- The facts that a lifecycle transition establishes, whatever values a save was given.
pub record IsTransition (o d : Dashboard) : Type 0 where
  pub alive : is_deleted o.state ≡ false
  pub table : allowed o.first_published_at o.state d.state ≡ true
  pub first : (t : ℕ) → o.first_published_at ≡ some t → d.first_published_at ≡ some t
  pub not_less : o.publication_version ≤ d.publication_version
  pub one_more : d.publication_version ≤ o.publication_version + 1
  pub forward : moved_back o.last_published_at d.last_published_at ≡ false
  pub kept :
      d.publication_version ≡ o.publication_version
      → (d.last_published_at ≡ o.last_published_at) × (d.publication_note ≡ o.publication_note)

moved_back_self : (o : Option ℕ) → moved_back o o ≡ false
unfolding moved_back
moved_back_self none = refl
moved_back_self (some t) = ground arith

pub check_transition-IsTransition :
    (o d : Dashboard) → check_transition o d ≡ ok tt → IsTransition o d
unfolding check_transition check_first check_advanced check_kept
check_transition-IsTransition o d h = record {
  alive = ground arith;
  table = ground arith;
  first = λ t e. ground (arith, opt_eq_sound d.first_published_at o.first_published_at);
  not_less = ground arith;
  one_more = ground arith;
  forward = ground (
    arith,
    opt_eq_sound d.last_published_at o.last_published_at,
    moved_back_self o.last_published_at,
  );
  kept = λ e. (
    ground (arith, opt_eq_sound d.last_published_at o.last_published_at),
    ground (arith, text_eq_sound d.publication_note o.publication_note),
  );
}

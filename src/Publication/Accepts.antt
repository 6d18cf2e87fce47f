-- ===== src/Publication/Accepts.antt =====
-- `Dashboard.save` refuses no row that the publication services write.
use prj_app.Base.{
  ℕ, ◌≡◌, ◌≤◌, ◌+◌, refl, true, false, Option, none, some, Table, Text, ok, arith, is_none,
  opt_eq_refl, length, text_eq_refl, if◌then◌else◌,
}
use prj_app.Model.{Dashboard, Revision, State, is_published}
use prj_app.Lifecycle.{
  save, advance, check_transition, check_first, check_advanced, check_kept, full_clean,
  valid_fields, freshness_valid, version_time, published_versioned, belongs, publication_state,
  publication_history, allowed, moved_back, max_interval,
}
use prj_app.Lifecycle.Invariant.{full_clean-IsConsistent}
use prj_app.Publication.{
  Timedelta, freshness_seconds, apply_freshness, is_working, complete_revision, published_row,
  is_backward,
}

-- An optional interval in seconds, within a year.
abbrev pub IsInterval : Option ℕ → Type 0
IsInterval none = Unit
IsInterval (some i) = (1 ≤ i) × (i ≤ max_interval)

pub freshness_seconds-IsInterval :
    (t : Option Timedelta) (i : Option ℕ) → freshness_seconds t ≡ ok i → IsInterval i
unfolding freshness_seconds
freshness_seconds-IsInterval none none h = tt
freshness_seconds-IsInterval none (some i) h = absurd (ground arith)
freshness_seconds-IsInterval (some (Timedelta.negsuc n)) i h = absurd (ground arith)
freshness_seconds-IsInterval (some (Timedelta.pos us)) none h = tt
freshness_seconds-IsInterval (some (Timedelta.pos us)) (some i) h = ground arith

pub apply_keeps :
    (i : Option ℕ) (c : ℕ) (d : Dashboard)
    → let e = apply_freshness i c d in
      (e.owner ≡ d.owner)
      × (e.name ≡ d.name)
      × (e.state ≡ d.state)
      × (e.latest_revision ≡ d.latest_revision)
      × (e.published_revision ≡ d.published_revision)
      × (e.first_published_at ≡ d.first_published_at)
      × (e.publication_version ≡ d.publication_version)
      × (e.last_published_at ≡ d.last_published_at)
      × (e.publication_note ≡ d.publication_note)
      × (e.last_ownership_transfer ≡ d.last_ownership_transfer)
unfolding apply_freshness
apply_keeps none c d = (refl, refl, refl, refl, refl, refl, refl, refl, refl, refl)
apply_keeps (some i) c d = (refl, refl, refl, refl, refl, refl, refl, refl, refl, refl)

apply_valid :
    (i : Option ℕ) (c : ℕ) (d : Dashboard)
    → IsInterval i
    → let e = apply_freshness i c d in
      freshness_valid e.freshness_interval_seconds e.freshness_confirmed_at e.stale_after ≡ true
unfolding apply_freshness freshness_valid
apply_valid none c d h = refl
apply_valid (some i) c d h = ground arith

-- The first publication time after a publication.
first_after : Option ℕ → ℕ → Option ℕ
first_after first now = if is_none first then some now else first

module _ (revisions : Table Revision) (id : ℕ) (d : Dashboard)
    (stored : full_clean revisions id d ≡ ok tt) where
  module _ (now clock revision_id : ℕ) (note : Text) (data_as_of interval : Option ℕ) (r : Revision)
      (working : is_working d.state ≡ true)
      (complete : complete_revision revision_id id revisions ≡ some r)
      (later : is_backward now d.last_published_at ≡ false) (short : length note ≤ 240)
      (range : IsInterval interval) where
    abbrev row : Dashboard
    row = published_row now revision_id note data_as_of interval d

    row_fields :
        (row.owner ≡ d.owner)
        × (row.name ≡ d.name)
        × (row.state ≡ State.published)
        × (row.latest_revision ≡ d.latest_revision)
        × (row.published_revision ≡ some revision_id)
        × (row.first_published_at ≡ first_after d.first_published_at now)
        × (row.publication_version ≡ d.publication_version + 1)
        × (row.last_published_at ≡ some now)
        × (row.publication_note ≡ note)
        × (row.last_ownership_transfer ≡ d.last_ownership_transfer)
    unfolding published_row first_after
    row_fields = apply_keeps interval now _

    row_fresh :
        freshness_valid row.freshness_interval_seconds row.freshness_confirmed_at row.stale_after
        ≡ true
    unfolding published_row
    row_fresh = apply_valid interval now _ range

    row_history : publication_history row ≡ true
    unfolding publication_history first_after
    row_history = ground (arith, row_fields)

    row_belongs : belongs revisions id row.published_revision ≡ true
    unfolding belongs complete_revision
    row_belongs = ground (arith, row_fields)

    row_clean : full_clean revisions id row ≡ ok tt
    unfolding full_clean valid_fields version_time published_versioned publication_state
    row_clean = ground (arith, row_fields, row_fresh, row_history, row_belongs)

    row_first : check_first d row ≡ ok tt
    unfolding check_first first_after publication_history
    row_first =
        let old = (full_clean-IsConsistent revisions id d stored).history in
        ground (arith, row_fields, opt_eq_refl d.first_published_at)

    row_advanced : check_advanced d row ≡ ok tt
    unfolding check_advanced moved_back is_backward
    row_advanced = ground (arith, row_fields)

    row_allowed : allowed d.first_published_at d.state row.state ≡ true
    unfolding allowed
    row_allowed = ground (arith, row_fields)

    row_transition : check_transition d row ≡ ok tt
    unfolding check_transition
    row_transition = ground (arith, row_fields, row_first, row_advanced, row_allowed)

    row-advance : advance clock d row ≡ row
    unfolding advance
    row-advance = ground (arith, row_fields)

    pub save-published_row : save clock revisions id d row ≡ ok row
    unfolding save
    save-published_row = ground (
      arith,
      row_clean,
      row_transition,
      row-advance,
      row_fields,
      opt_eq_refl d.last_ownership_transfer,
    )

  -- The row of a withdrawal.
  module _ (clock : ℕ) (public : is_published d.state ≡ true) where
    abbrev withdrawn : Dashboard
    withdrawn = record d { state = State.unpublished; published_revision = none }

    withdrawn_clean : full_clean revisions id withdrawn ≡ ok tt
    unfolding full_clean valid_fields version_time published_versioned publication_state
        publication_history belongs
    withdrawn_clean = ground arith

    withdrawn_transition : check_transition d withdrawn ≡ ok tt
    unfolding check_transition check_first check_kept allowed
    withdrawn_transition = ground (
      arith,
      opt_eq_refl d.first_published_at,
      opt_eq_refl d.last_published_at,
      text_eq_refl d.publication_note,
    )

    pub save-withdrawn : save clock revisions id d withdrawn ≡ ok withdrawn
    unfolding save advance
    save-withdrawn =
        ground (arith, withdrawn_clean, withdrawn_transition, opt_eq_refl d.last_ownership_transfer)

  -- The row of a freshness confirmation.
  module _ (clock confirmed_at : ℕ) (interval data_as_of : Option ℕ)
      (public : is_published d.state ≡ true) (range : IsInterval interval) where
    abbrev confirmed : Dashboard
    confirmed = apply_freshness interval confirmed_at (record d { data_as_of = data_as_of })

    confirmed_fields :
        (confirmed.owner ≡ d.owner)
        × (confirmed.name ≡ d.name)
        × (confirmed.state ≡ d.state)
        × (confirmed.latest_revision ≡ d.latest_revision)
        × (confirmed.published_revision ≡ d.published_revision)
        × (confirmed.first_published_at ≡ d.first_published_at)
        × (confirmed.publication_version ≡ d.publication_version)
        × (confirmed.last_published_at ≡ d.last_published_at)
        × (confirmed.publication_note ≡ d.publication_note)
        × (confirmed.last_ownership_transfer ≡ d.last_ownership_transfer)
    confirmed_fields = apply_keeps interval confirmed_at (record d { data_as_of = data_as_of })

    confirmed_fresh :
        freshness_valid confirmed.freshness_interval_seconds confirmed.freshness_confirmed_at
          confirmed.stale_after
        ≡ true
    confirmed_fresh = apply_valid interval confirmed_at (record d { data_as_of = data_as_of }) range

    confirmed_clean : full_clean revisions id confirmed ≡ ok tt
    unfolding full_clean valid_fields version_time published_versioned publication_state
        publication_history
    confirmed_clean = ground (arith, confirmed_fields, confirmed_fresh)

    confirmed_transition : check_transition d confirmed ≡ ok tt
    unfolding check_transition check_first check_kept allowed
    confirmed_transition = ground (
      arith,
      confirmed_fields,
      opt_eq_refl d.first_published_at,
      opt_eq_refl d.last_published_at,
      opt_eq_refl d.published_revision,
      text_eq_refl d.publication_note,
    )

    confirmed-advance : advance clock d confirmed ≡ confirmed
    unfolding advance
    confirmed-advance = ground (arith, confirmed_fields, opt_eq_refl d.published_revision)

    pub save-confirmed : save clock revisions id d confirmed ≡ ok confirmed
    unfolding save
    save-confirmed = ground (
      arith,
      confirmed_clean,
      confirmed_transition,
      confirmed-advance,
      confirmed_fields,
      opt_eq_refl d.last_ownership_transfer,
    )

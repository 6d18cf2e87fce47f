-- ===== src/Lifecycle.antt =====
-- `Dashboard.save` of core/models.py with the checks that it runs: the lifecycle transition and
-- `full_clean`. Of `full_clean` the length checks, `clean` and the check constraints are
-- modelled, and the existence of foreign keys only where `clean` follows them.
pub mod Invariant
pub mod History
use prj_app.Base.{
  ℕ, ◌+◌, Bool, true, false, not, ◌&&◌, ◌||◌, Option, none, some, Table, ltb, leb, ◌==◌,
  if◌then◌else◌, is_none, is_some, opt_eq, text_eq, lookup, Result, ok, err, Error, ◌>>=◌, ◌>>◌,
  raise_if, length,
}
use prj_app.Model.{
  Dashboard, Revision, State, is_published, is_draft, is_archived, is_deleted, seconds,
}

abbrev pub max_interval : ℕ
max_interval = 31536000

-- The declared lengths and the constraint that the name is not empty.
unfoldable pub valid_fields : Dashboard → Bool
valid_fields d =
    ltb 0 (length d.name) && leb (length d.name) 200 && leb (length d.publication_note) 240

-- The freshness checks of `Dashboard.clean`: three values set together, in range and consistent.
unfoldable pub freshness_valid : Option ℕ → Option ℕ → Option ℕ → Bool
freshness_valid none none none = true
freshness_valid (some interval) (some confirmed) (some stale) =
    leb 1 interval && leb interval max_interval && stale == confirmed + seconds interval
freshness_valid _ _ _ = false

-- A revision pointer is empty or names a revision of this dashboard.
unfoldable pub belongs : Table Revision → ℕ → Option ℕ → Bool
belongs revisions id none = true
belongs revisions id (some r) = elim (lookup r revisions) [
  | none ↦ false
  | some revision ↦ revision.dashboard == id
]

-- `agora_dashboard_publication_state`
unfoldable pub publication_state : Dashboard → Bool
publication_state d =
    if is_published d.state then is_some d.published_revision else is_none d.published_revision

-- `agora_dashboard_publication_history`
unfoldable pub publication_history : Dashboard → Bool
publication_history d = elim d.state [
  | State.draft ↦ is_none d.first_published_at
  | State.published ↦ is_some d.first_published_at
  | State.unpublished ↦ is_some d.first_published_at
  | _ ↦ true
]

-- `agora_dash_pub_version_time`, also a check of `clean`
unfoldable pub version_time : Dashboard → Bool
version_time d =
    if d.publication_version == 0 then is_none d.last_published_at else is_some d.last_published_at

-- `agora_dash_published_versioned`, also a check of `clean`
unfoldable pub published_versioned : Dashboard → Bool
published_versioned d = not (is_published d.state) || ltb 0 d.publication_version

unfoldable pub full_clean : Table Revision → ℕ → Dashboard → Result (Unit {0})
full_clean revisions id d = do
  raise_if (not (valid_fields d)) Error.validation_failed
  raise_if
      (not (freshness_valid d.freshness_interval_seconds d.freshness_confirmed_at d.stale_after))
      Error.validation_failed
  raise_if (not (version_time d)) Error.validation_failed
  raise_if (not (published_versioned d)) Error.validation_failed
  raise_if (not (belongs revisions id d.published_revision)) Error.validation_failed
  raise_if (not (belongs revisions id d.latest_revision)) Error.validation_failed
  raise_if (not (publication_state d)) Error.validation_failed
  raise_if (not (publication_history d)) Error.validation_failed

-- The table `allowed` of `_validate_lifecycle_transition`; `deleted` is refused above it.
unfoldable pub allowed : Option ℕ → State → State → Bool
allowed first State.draft State.draft = true
allowed first State.draft State.published = true
allowed first State.published State.published = true
allowed first State.published State.unpublished = true
allowed first State.unpublished State.unpublished = true
allowed first State.unpublished State.published = true
allowed first State.draft State.archived = true
allowed first State.published State.archived = true
allowed first State.unpublished State.archived = true
allowed first State.archived State.unpublished = is_some first
allowed first State.archived State.draft = is_none first
allowed first State.deleted to = false
allowed first from State.deleted = true
allowed first from to = false

-- `stable_fields` of an archived dashboard
unfoldable pub stable_fields : Dashboard → Dashboard → Bool
stable_fields original d =
    text_eq d.name original.name
    && text_eq d.description original.description
    && opt_eq d.latest_revision original.latest_revision
    && text_eq d.publication_note original.publication_note
    && opt_eq d.data_as_of original.data_as_of
    && opt_eq d.freshness_interval_seconds original.freshness_interval_seconds
    && opt_eq d.freshness_confirmed_at original.freshness_confirmed_at
    && opt_eq d.stale_after original.stale_after

-- The checks on the time of the first publication.
unfoldable pub check_first : Dashboard → Dashboard → Result (Unit {0})
check_first original d =
    if is_some original.first_published_at
    then raise_if (not (opt_eq d.first_published_at original.first_published_at))
        Error.immutable_record
    else raise_if
        (is_some d.first_published_at && not (is_draft original.state && is_published d.state))
        Error.validation_failed

-- `last < previous`, where a missing previous time is before every time
unfoldable pub moved_back : Option ℕ → Option ℕ → Bool
moved_back none last = false
moved_back (some t) none = true
moved_back (some t) (some u) = ltb u t

-- The checks where the publication version has advanced by one.
unfoldable pub check_advanced : Dashboard → Dashboard → Result (Unit {0})
check_advanced original d = do
  raise_if (not (is_published d.state) || is_none d.published_revision) Error.validation_failed
  raise_if
      (is_none d.last_published_at || moved_back original.last_published_at d.last_published_at)
      Error.validation_failed

-- The checks where it has not.
unfoldable pub check_kept : Dashboard → Dashboard → Result (Unit {0})
check_kept original d = do
  raise_if (not (opt_eq d.last_published_at original.last_published_at)) Error.immutable_record
  raise_if (not (text_eq d.publication_note original.publication_note)) Error.immutable_record
  raise_if
      (is_published d.state
        && is_published original.state
        && not (opt_eq d.published_revision original.published_revision))
      Error.validation_failed

-- `_validate_lifecycle_transition`
unfoldable pub check_transition : Dashboard → Dashboard → Result (Unit {0})
check_transition original d = do
  raise_if (is_deleted original.state) Error.immutable_record
  check_first original d
  raise_if (ltb d.publication_version original.publication_version) Error.immutable_record
  raise_if (ltb (original.publication_version + 1) d.publication_version) Error.validation_failed
  if d.publication_version == original.publication_version + 1
      then check_advanced original d
      else check_kept original d
  raise_if (not (allowed original.first_published_at original.state d.state))
      Error.validation_failed
  raise_if (is_archived original.state && not (stable_fields original d)) Error.validation_failed

-- A save that publishes another revision without a new version is given one.
unfoldable pub advance : ℕ → Dashboard → Dashboard → Dashboard
advance now original d =
    if is_published d.state
      && is_some d.published_revision
      && (not (is_published original.state)
          || not (opt_eq d.published_revision original.published_revision))
      && d.publication_version == original.publication_version
    then record d {
      publication_version = original.publication_version + 1;
      last_published_at = some now;
    }
    else d

-- `Dashboard.save` over a stored row: the row that is written, or the exception.
unfoldable pub save : ℕ → Table Revision → ℕ → Dashboard → Dashboard → Result Dashboard
save now revisions id original d = do
  raise_if
      (not (original.owner == d.owner)
        || not (opt_eq original.last_ownership_transfer d.last_ownership_transfer))
      Error.immutable_record
  check_transition original (advance now original d)
  full_clean revisions id (advance now original d)
  ok (advance now original d)

-- `Dashboard.save` of a new row.
unfoldable pub save_new : Table Revision → ℕ → Dashboard → Result Dashboard
save_new revisions id d = do
  raise_if
      (not (is_draft d.state)
        || is_some d.latest_revision
        || is_some d.published_revision
        || is_some d.first_published_at
        || not (d.publication_version == 0)
        || is_some d.last_published_at
        || is_some d.last_ownership_transfer)
      Error.validation_failed
  full_clean revisions id d
  ok d

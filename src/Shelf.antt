-- ===== src/Shelf.antt =====
-- Tags and favorites: `replace_dashboard_tags` and `set_dashboard_favorite` of core/enhancements.py,
-- and `DashboardTag.save` of core/models.py.
pub mod Tags
pub mod Favorites
use prj_app.Base.{
  ℕ, ◌+◌, Bool, true, false, not, ◌&&◌, ◌||◌, Option, none, some, List, [], ◌∷◌, ◌++◌, Text, ltb,
  leb, ◌==◌, if◌then◌else◌, is_none, is_some, text_eq, lookup, length, filter, one_of, Result, ok,
  err, Error, ◌>>=◌, ◌>>◌, raise_if, or_raise,
}
use prj_app.Model.{Db, User, Dashboard, Event, is_published, is_archived, is_deleted}
use prj_app.Unicode.{Unicode}
use prj_app.Names.{TagName, normalize_dashboard_tag}
use prj_app.Store.{active_user, active_grant, lock_current_owner, record_event}

-- `MAX_EFFECTIVE_TAGS`
abbrev pub max_tags : ℕ
max_tags = 5

-- `DashboardTag`
pub record Tag : Type 0 where
  pub dashboard : ℕ
  pub label : Text
  pub key : Text
  pub slot : ℕ

-- `DashboardFavorite`
pub record Favorite : Type 0 where
  pub user : ℕ
  pub dashboard : ℕ

-- The tables of both, beside the others.
pub record Shelf : Type 0 where
  pub db : Db
  pub tags : List Tag
  pub favorites : List Favorite

-- `filter(…).exists()`
unfoldable pub some_row {ℓ} : {A : Type ℓ} → (A → Bool) → List A → Bool
some_row p [] = false
some_row p (x ∷ xs) = p x || some_row p xs

-- The loop over the labels; `seen` are the keys so far.
unfoldable pub normalize_tags : Unicode → List Text → List Text → Result (List TagName)
normalize_tags u seen [] = ok []
normalize_tags u seen (label ∷ labels) = do
  tag ← normalize_dashboard_tag u label
  raise_if (one_of tag.key seen) Error.invalid_input
  rest ← normalize_tags u (tag.key ∷ seen) labels
  ok (tag ∷ rest)

-- `DashboardTag.save` of a new row: the normal form, its check in `clean`, and the constraints.
unfoldable pub save_new_tag : Unicode → List Tag → Tag → Result Tag
save_new_tag u rows t = do
  name ← normalize_dashboard_tag u t.label
  again ← normalize_dashboard_tag u name.display
  raise_if (not (text_eq name.display again.display && text_eq name.key again.key))
      Error.validation_failed
  raise_if (not (leb 1 t.slot && leb t.slot max_tags)) Error.validation_failed
  raise_if (length name.display == 0 || length name.key == 0) Error.validation_failed
  raise_if (some_row (λ o. o.dashboard == t.dashboard && text_eq o.key name.key) rows)
      Error.validation_failed
  raise_if (some_row (λ o. o.dashboard == t.dashboard && o.slot == t.slot) rows)
      Error.validation_failed
  ok (record t { label = name.display; key = name.key })

-- The tags are created in turn, in the slots from this one on.
unfoldable pub create_tags : Unicode → ℕ → ℕ → List TagName → List Tag → Result (List Tag)
create_tags u dashboard slot [] rows = ok rows
create_tags u dashboard slot (tag ∷ tags) rows = do
  row ←
      save_new_tag u rows
        (record { dashboard = dashboard; label = tag.display; key = tag.key; slot = slot })
  create_tags u dashboard (slot + 1) tags (rows ++ (row ∷ []))

-- `replace_dashboard_tags`
unfoldable pub replace_dashboard_tags : Unicode → ℕ → ℕ → List Text → Shelf → Result Shelf
replace_dashboard_tags u dashboard_id actor_id labels s = do
  names ← normalize_tags u [] labels
  raise_if (ltb max_tags (length names)) Error.invalid_input
  (d, actor) ← lock_current_owner dashboard_id actor_id s.db
  raise_if (is_archived d.state || is_deleted d.state) Error.access_denied
  rows ← create_tags u dashboard_id 1 names (filter (λ t. not (t.dashboard == dashboard_id)) s.tags)
  ok (record s {
    tags = rows;
    db =
        record_event
          (record {
            event = Event.tags_replaced (length names);
            actor = some actor_id;
            dashboard = some dashboard_id;
            revision = none;
            target_user = none;
          })
          s.db;
  })

abbrev pub is_favorite : ℕ → ℕ → Favorite → Bool
is_favorite user dashboard f = f.user == user && f.dashboard == dashboard

-- The checks before a favorite is set: the dashboard, then the user, then what lets the user see it.
unfoldable pub check_favorite : ℕ → ℕ → Db → Result (Unit {0})
check_favorite dashboard_id user_id db = do
  d ← or_raise (lookup dashboard_id db.dashboards) Error.access_denied
  raise_if (not (is_published d.state) || is_none d.published_revision) Error.access_denied
  u ← or_raise (active_user user_id db.users) Error.access_denied
  raise_if (not (d.owner == user_id) && is_none (active_grant dashboard_id user_id db.grants))
      Error.access_denied

-- `set_dashboard_favorite`
unfoldable pub set_dashboard_favorite : ℕ → ℕ → Bool → Shelf → Result Shelf
set_dashboard_favorite dashboard_id user_id false s = do
  u ← or_raise (active_user user_id s.db.users) Error.access_denied
  ok (record s { favorites = filter (λ f. not (is_favorite user_id dashboard_id f)) s.favorites })
set_dashboard_favorite dashboard_id user_id true s = do
  check_favorite dashboard_id user_id s.db
  ok (record s {
    favorites =
        if some_row (is_favorite user_id dashboard_id) s.favorites
        then s.favorites
        else (record { user = user_id; dashboard = dashboard_id }) ∷ s.favorites;
  })

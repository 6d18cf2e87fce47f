-- ===== src/Tests/Labels.antt =====
-- Tags and favorites, on the sample tables.
use prj_app.Base
use prj_app.Base.{ℕ, ◌≡◌, refl, Bool, true, false, List, [], ◌∷◌, Text, lit, Result, ok, err}
use prj_app.Names
use prj_app.Shelf
use prj_app.Shelf.{Shelf, Tag, replace_dashboard_tags, set_dashboard_favorite}
use prj_app.Shelf.Tags.{Replaced, replace_dashboard_tags-Replaced}
use prj_app.Shelf.Favorites.{FavoriteSet, set_dashboard_favorite-FavoriteSet}
use prj_app.Tests.World.{ascii, world, opened}

-- Named on an `unfolding` line, it opens what tags and favorites run through.
unfoldable labelling : Bool
unfolding opened Base.filter Base.one_of Names.normalize_dashboard_tag Shelf.some_row
    Shelf.normalize_tags Shelf.save_new_tag Shelf.create_tags Shelf.replace_dashboard_tags
    Shelf.check_favorite Shelf.set_dashboard_favorite
labelling = true

-- Dashboard 10 has the tag old, dashboard 11 the tag far.
abbrev shelf : Shelf
shelf = record {
  db = world;
  tags =
      (record { dashboard = 10; label = lit "old"; key = lit "old"; slot = 1 })
      ∷ (record { dashboard = 11; label = lit "far"; key = lit "far"; slot = 1 })
      ∷ [];
  favorites = (record { user = 3; dashboard = 10 }) ∷ [];
}

abbrev result : Result Shelf → Shelf
result (ok s) = s
result (err e) = shelf

abbrev tagged : Shelf
tagged = result (replace_dashboard_tags ascii 10 1 (lit " new  one" ∷ lit "old" ∷ []) shelf)

replace_dashboard_tags-Replaced_example :
    Replaced ascii 10 (lit " new  one" ∷ lit "old" ∷ []) shelf tagged
unfolding labelling
replace_dashboard_tags-Replaced_example =
    replace_dashboard_tags-Replaced ascii 10 1 (lit " new  one" ∷ lit "old" ∷ []) shelf tagged refl

-- User 2 views dashboard 10 under a grant.
abbrev marked : Shelf
marked = result (set_dashboard_favorite 10 2 true shelf)

set_dashboard_favorite-FavoriteSet_example : FavoriteSet 10 2 true shelf marked
unfolding labelling
set_dashboard_favorite-FavoriteSet_example =
    set_dashboard_favorite-FavoriteSet 10 2 true shelf marked refl

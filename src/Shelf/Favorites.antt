-- ===== src/Shelf/Favorites.antt =====
-- What setting and clearing a favorite leaves.
use prj_app.Base.{
  ℕ, ◌≡◌, refl, ◌∙◌, Bool, true, false, not, ◌&&◌, none, some, List, [], ◌∷◌, ◌==◌, lookup, filter,
  ok, arith, Bool-cases, Option-cases, Result-cases, inl, inr, any_row-find_row,
}
use prj_app.Model.{Db, User, Dashboard}
use prj_app.Store.{is_active_for, active_user, active_grant, has_active_grant}
use prj_app.Access.{user_can_view_published}
use prj_app.Shelf.{Favorite, Shelf, some_row, is_favorite, check_favorite, set_dashboard_favorite}

unfoldable pub has_favorite : ℕ → ℕ → Shelf → Bool
has_favorite user dashboard s = some_row (is_favorite user dashboard) s.favorites

-- A favorite is one that the user can see.
pub record Visible (dashboard_id user_id : ℕ) (db : Db) : Type 0 where
  pub d : Dashboard
  pub u : User
  pub dashboard_row : lookup dashboard_id db.dashboards ≡ some d
  pub user_row : lookup user_id db.users ≡ some u
  pub can_view : user_can_view_published dashboard_id d user_id u none db.grants ≡ true

some_row-filter :
    (p q : Favorite → Bool) (fs : List Favorite)
    → some_row q (filter (λ f. not (p f)) fs) ≡ some_row (λ f. q f && not (p f)) fs
unfolding some_row filter
some_row-filter p q [] = refl
some_row-filter p q (f ∷ fs) = ground (arith, some_row-filter p q fs)

cleared_twice :
    (p : Favorite → Bool) (fs : List Favorite)
    → filter (λ f. not (p f)) (filter (λ f. not (p f)) fs) ≡ filter (λ f. not (p f)) fs
unfolding filter
cleared_twice p [] = refl
cleared_twice p (f ∷ fs) = ground (arith, cleared_twice p fs)

never : (p : Favorite → Bool) (fs : List Favorite) → some_row (λ f. p f && not (p f)) fs ≡ false
unfolding some_row
never p [] = refl
never p (f ∷ fs) = ground (arith, never p fs)

-- Whose two tests cannot both hold.
apart :
    (a b c d : ℕ) (fs : List Favorite)
    → (a == c && b == d) ≡ false
    → some_row (λ f. is_favorite c d f && not (is_favorite a b f)) fs
      ≡ some_row (is_favorite c d) fs
unfolding some_row
apart a b c d [] h = refl
apart a b c d (f ∷ fs) h = ground (arith, apart a b c d fs)

check_favorite-Visible :
    (dashboard_id user_id : ℕ) (db : Db)
    → check_favorite dashboard_id user_id db ≡ ok tt
    → Visible dashboard_id user_id db
unfolding check_favorite active_user active_grant has_active_grant user_can_view_published
check_favorite-Visible dashboard_id user_id db h =
    elim (Option-cases (lookup dashboard_id db.dashboards)) [
      | inl gone ↦ absurd (ground arith)
      | inr (d, e) ↦ elim (Option-cases (lookup user_id db.users)) [
        | inl gone ↦ absurd (ground arith)
        | inr (u, f) ↦ record {
          d = d;
          u = u;
          dashboard_row = e;
          user_row = f;
          can_view =
              ground (arith, any_row-find_row (is_active_for dashboard_id user_id) db.grants);
        }
      ]
    ]

-- What a call leaves that sets a favorite or clears it.
pub record FavoriteSet (dashboard_id user_id : ℕ) (favorited : Bool) (before after : Shelf)
    : Type 0 where
  pub set : has_favorite user_id dashboard_id after ≡ favorited
  pub others :
      (user dashboard : ℕ)
      → (user_id == user && dashboard_id == dashboard) ≡ false
      → has_favorite user dashboard after ≡ has_favorite user dashboard before
  pub visible : favorited ≡ true → Visible dashboard_id user_id before.db
  pub again : set_dashboard_favorite dashboard_id user_id favorited after ≡ ok after

-- After a call the user's favorite stands exactly where it was to be set, a second call changes
-- nothing, and no other favorite changes. It is only set on a dashboard that the user can see.
pub set_dashboard_favorite-FavoriteSet :
    (dashboard_id user_id : ℕ) (favorited : Bool) (before after : Shelf)
    → set_dashboard_favorite dashboard_id user_id favorited before ≡ ok after
    → FavoriteSet dashboard_id user_id favorited before after
unfolding set_dashboard_favorite has_favorite some_row
set_dashboard_favorite-FavoriteSet dashboard_id user_id false before after h =
    elim (Option-cases (active_user user_id before.db.users)) [
      | inl gone ↦ absurd (ground arith)
      | inr (u, e) ↦
          let p = is_favorite user_id dashboard_id in
          let next : Shelf = record before {
            favorites = filter (λ f. not (p f)) before.favorites;
          } in
          let same : after ≡ next = ground arith in
          let made : FavoriteSet dashboard_id user_id false before next = record {
            set = some_row-filter p p before.favorites ∙ never p before.favorites;
            others = λ user dashboard ne.
                some_row-filter p (is_favorite user dashboard) before.favorites
                ∙ apart user_id dashboard_id user dashboard before.favorites ne;
            visible = λ h. absurd (ground arith);
            again = ground (arith, cleared_twice p before.favorites);
          } in
          rw same made
    ]
set_dashboard_favorite-FavoriteSet dashboard_id user_id true before after h =
    elim (Result-cases (check_favorite dashboard_id user_id before.db)) [
      | inr (x, e) ↦ absurd (ground arith)
      | inl (done, e) ↦
          elim (Bool-cases (some_row (is_favorite user_id dashboard_id) before.favorites)) [
            | inl there ↦
                let same : after ≡ before = ground arith in
                let made : FavoriteSet dashboard_id user_id true before before = record {
                  set = there;
                  others = λ user dashboard ne. refl;
                  visible = λ _. check_favorite-Visible dashboard_id user_id before.db e;
                  again = ground arith;
                } in
                rw same made
            | inr absent ↦
                let f : Favorite = record { user = user_id; dashboard = dashboard_id } in
                let next : Shelf = record before { favorites = f ∷ before.favorites } in
                let same : after ≡ next = ground arith in
                let made : FavoriteSet dashboard_id user_id true before next = record {
                  set = ground arith;
                  others = λ user dashboard ne. ground arith;
                  visible = λ _. check_favorite-Visible dashboard_id user_id before.db e;
                  again = ground arith;
                } in
                rw same made
          ]
    ]

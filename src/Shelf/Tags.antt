-- ===== src/Shelf/Tags.antt =====
-- What the replacement of a dashboard's tags leaves.
use prj_app.Base.{
  ℕ, ◌+◌, ◌≡◌, ◌≤◌, refl, sym, ap, ◌∙◌, Bool, false, not, ◌&&◌, List, [], ◌∷◌, ◌++◌, Text, ◌==◌,
  text_eq, text_eq_sound, length, filter, filter-append, append_assoc, append_nil, ok, Result-cases,
  inl, inr, arith,
}
use prj_app.Unicode.{Unicode}
use prj_app.Names.{TagName, normalize_dashboard_tag}
use prj_app.Store.{lock_current_owner}
use prj_app.Shelf.{
  Tag, Shelf, max_tags, some_row, normalize_tags, save_new_tag, create_tags, replace_dashboard_tags,
}

-- The tags stand for the labels in order, in the slots from this one on, with a label that is its own
-- normal form.
module _ (u : Unicode) (dashboard : ℕ) where
  pub record Stands (slot : ℕ) (name : TagName) (t : Tag) : Type 0 where
    pub of_dashboard : t.dashboard ≡ dashboard
    pub in_slot : t.slot ≡ slot
    pub from_label :
        normalize_dashboard_tag u name.display ≡ ok (record { display = t.label; key = t.key })
    pub normal : normalize_dashboard_tag u t.label ≡ ok (record { display = t.label; key = t.key })

  abbrev pub AllStand : ℕ → List TagName → List Tag → Type 0
  AllStand slot [] [] = Unit
  AllStand slot (n ∷ ns) (t ∷ ts) = Stands slot n t × AllStand (slot + 1) ns ts
  AllStand slot _ _ = ⊥

  -- No key stands twice: none is that of an earlier row.
  abbrev pub Fresh : List Tag → List Tag → Type 0
  Fresh rows [] = Unit
  Fresh rows (t ∷ ts) =
      (some_row (λ o. o.dashboard == t.dashboard && text_eq o.key t.key) rows ≡ false)
      × Fresh (rows ++ (t ∷ [])) ts

  some_row-append :
      (p : Tag → Bool) (xs ys : List Tag) → some_row p (xs ++ ys) ≡ false → some_row p ys ≡ false
  unfolding some_row
  some_row-append p [] ys h = h
  some_row-append p (x ∷ xs) ys h = ground (arith, some_row-append p xs ys)

  Fresh-append : (xs ys ts : List Tag) → Fresh (xs ++ ys) ts → Fresh ys ts
  Fresh-append xs ys [] f = tt
  Fresh-append xs ys (t ∷ ts) (h, f) = (
    some_row-append (λ o. o.dashboard == t.dashboard && text_eq o.key t.key) xs ys h,
    Fresh-append xs (ys ++ (t ∷ [])) ts (rw (← append_assoc xs ys (t ∷ [])) f),
  )

  save_new_tag-Stands :
      (slot : ℕ) (name : TagName) (rows : List Tag) (t : Tag)
      → save_new_tag u rows
          (record { dashboard = dashboard; label = name.display; key = name.key; slot = slot })
        ≡ ok t
      → Stands slot name t
        × (some_row (λ o. o.dashboard == t.dashboard && text_eq o.key t.key) rows ≡ false)
  unfolding save_new_tag
  save_new_tag-Stands slot name rows t h =
      elim (Result-cases (normalize_dashboard_tag u name.display)) [
        | inr (x, p) ↦ absurd (ground arith)
        | inl (n, p) ↦ elim (Result-cases (normalize_dashboard_tag u n.display)) [
          | inr (x, q) ↦ absurd (ground arith)
          | inl (m, q) ↦
              let display = text_eq_sound n.display m.display in
              let key = text_eq_sound n.key m.key in
              let row : Tag = record {
                dashboard = dashboard;
                label = n.display;
                key = n.key;
                slot = slot;
              } in
              let same : t ≡ row = ground arith in
              let free : some_row (λ o. o.dashboard == dashboard && text_eq o.key n.key) rows
                  ≡ false =
                ground arith in
              let again : m ≡ n = ground arith in
              let stands : Stands slot name row = record {
                of_dashboard = refl;
                in_slot = refl;
                from_label = p;
                normal = q ∙ ap ok again;
              } in
              rw same (stands, free)
        ]
      ]

  create_tags-AllStand :
      (slot : ℕ) (names : List TagName) (rows rows' : List Tag)
      → create_tags u dashboard slot names rows ≡ ok rows'
      → (made : List Tag) × (rows' ≡ rows ++ made) × AllStand slot names made × Fresh rows made
  unfolding create_tags
  create_tags-AllStand slot [] rows rows' h = ([], ground arith ∙ sym (append_nil rows), tt, tt)
  create_tags-AllStand slot (n ∷ ns) rows rows' h =
      elim (Result-cases (
        save_new_tag u rows
          (record { dashboard = dashboard; label = n.display; key = n.key; slot = slot }))) [
            | inr (x, p) ↦ absurd (ground arith)
            | inl (t, p) ↦
                let (stands, free) = save_new_tag-Stands slot n rows t p in
                let (made, same, all, fresh) =
                  create_tags-AllStand (slot + 1) ns (rows ++ (t ∷ [])) rows' (ground arith) in
                (t ∷ made, same ∙ append_assoc rows (t ∷ []) made, (stands, all), (free, fresh))
          ]

  abbrev pub is_mine : Tag → Bool
  is_mine t = t.dashboard == dashboard

  abbrev pub is_elsewhere : Tag → Bool
  is_elsewhere t = not (t.dashboard == dashboard)

  others_again :
      (ts : List Tag) → filter is_elsewhere (filter is_elsewhere ts) ≡ filter is_elsewhere ts
  unfolding filter
  others_again [] = refl
  others_again (t ∷ ts) = ground (arith, others_again ts)

  none_mine : (ts : List Tag) → filter is_mine (filter is_elsewhere ts) ≡ []
  unfolding filter
  none_mine [] = refl
  none_mine (t ∷ ts) = ground (arith, none_mine ts)

  AllStand-mine :
      (slot : ℕ) (names : List TagName) (ts : List Tag)
      → AllStand slot names ts
      → (filter is_mine ts ≡ ts) × (filter is_elsewhere ts ≡ [])
  unfolding filter
  AllStand-mine slot [] [] a = (refl, refl)
  AllStand-mine slot [] (t ∷ ts) a = absurd a
  AllStand-mine slot (n ∷ ns) [] a = absurd a
  AllStand-mine slot (n ∷ ns) (t ∷ ts) (s, a) =
      let (x, y) = AllStand-mine (slot + 1) ns ts a in
      let here = s.of_dashboard in (ground arith, ground arith)

  -- The names are those of the labels.
  abbrev pub AllNormal : List Text → List TagName → Type 0
  AllNormal [] [] = Unit
  AllNormal (l ∷ ls) (n ∷ ns) = (normalize_dashboard_tag u l ≡ ok n) × AllNormal ls ns
  AllNormal _ _ = ⊥

  normalize_tags-AllNormal :
      (seen labels : List Text) (names : List TagName)
      → normalize_tags u seen labels ≡ ok names
      → AllNormal labels names
  unfolding normalize_tags
  normalize_tags-AllNormal seen [] names h = let same : names ≡ [] = ground arith in rw same tt
  normalize_tags-AllNormal seen (l ∷ ls) names h =
      elim (Result-cases (normalize_dashboard_tag u l)) [
        | inr (x, p) ↦ absurd (ground arith)
        | inl (n, p) ↦ elim (Result-cases (normalize_tags u (n.key ∷ seen) ls)) [
          | inr (x, q) ↦ absurd (ground arith)
          | inl (ns, q) ↦
              let same : names ≡ n ∷ ns = ground arith in
              rw same (p, normalize_tags-AllNormal (n.key ∷ seen) ls ns q)
        ]
      ]

  -- The tags after a replacement.
  pub record Replaced (labels : List Text) (before after : Shelf) : Type 0 where
    pub names : List TagName
    pub normal : AllNormal labels names
    pub few : length names ≤ max_tags
    pub placed : AllStand 1 names (filter is_mine after.tags)
    pub unique : Fresh [] (filter is_mine after.tags)
    pub others : filter is_elsewhere after.tags ≡ filter is_elsewhere before.tags
    pub favorites : after.favorites ≡ before.favorites

  -- After a replacement the dashboard's tags are those of the labels and no others: at most five, in
  -- the order of the labels from slot 1 on, each with a label that is its own normal form, no key
  -- twice. The tags of other dashboards are as before.
  pub replace_dashboard_tags-Replaced :
      (actor_id : ℕ) (labels : List Text) (before after : Shelf)
      → replace_dashboard_tags u dashboard actor_id labels before ≡ ok after
      → Replaced labels before after
  unfolding replace_dashboard_tags
  replace_dashboard_tags-Replaced actor_id labels before after h =
      let cleared = filter is_elsewhere before.tags in
      elim (Result-cases (normalize_tags u [] labels)) [
        | inr (x, p) ↦ absurd (ground arith)
        | inl (names, p) ↦ elim (Result-cases (lock_current_owner dashboard actor_id before.db)) [
          | inr (x, q) ↦ absurd (ground arith)
          | inl (locked, q) ↦ elim (Result-cases (create_tags u dashboard 1 names cleared)) [
            | inr (x, r) ↦ absurd (ground arith)
            | inl (rows, r) ↦
                let (made, same, all, fresh) = create_tags-AllStand 1 names cleared rows r in
                let (mine, nothing) = AllStand-mine 1 names made all in
                let after_rows : after.tags ≡ cleared ++ made = ground arith in
                let placed : filter is_mine after.tags ≡ made =
                  ap (filter is_mine) after_rows
                  ∙ (filter-append is_mine cleared made
                      ∙ (ap (λ z. z ++ filter is_mine made) (none_mine before.tags) ∙ mine)) in
                let rest : filter is_elsewhere after.tags ≡ filter is_elsewhere before.tags =
                  ap (filter is_elsewhere) after_rows
                  ∙ (filter-append is_elsewhere cleared made
                      ∙ (ap (λ z. filter is_elsewhere cleared ++ z) nothing
                          ∙ (append_nil (filter is_elsewhere cleared)
                              ∙ others_again before.tags))) in
                record {
                  names = names;
                  normal = normalize_tags-AllNormal [] labels names p;
                  few = ground arith;
                  placed = rw placed all;
                  unique = rw placed (Fresh-append cleared [] made (rw (append_nil cleared) fresh));
                  others = rest;
                  favorites = ground arith;
                }
          ]
        ]
      ]

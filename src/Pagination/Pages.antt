-- ===== src/Pagination/Pages.antt =====
-- A page and its next cursor.
use prj_app.Base.{
  ℕ, zero, suc, ◌≡◌, refl, Bool, true, false, Option, none, some, List, [], ◌∷◌, Text, ltb, ok,
  length, arith, take, first_of, last_of, Option-cases, Result-cases, inl, inr, ◌⊎◌,
}
use prj_app.Pagination.{
  Value, Encoded, string, number, fields, Outside, Column, Direction, next, previous, Page,
  direction_text, cursor_salt, cursor_version, validated_value, encode_value, encode_values,
  encode_cursor, model_boundary, edge, cursor_towards, assemble,
}
use prj_app.Pagination.Cursors.{Admissible}
use prj_app.Pagination.Order.{boundary_of}

module _ {ℓ} {R : Type ℓ} (o : Outside) (cs : List (Column R)) (namespace context : Text) where
  -- A row whose values are of the columns' kinds, and whose cursors are of a length that is read.
  pub record Linkable (row : R) : Type ℓ where
    pub typed : model_boundary o cs row ≡ ok (boundary_of o cs row)
    pub short :
        (d : Direction) (cursor : Text)
        → encode_cursor o cs namespace context d (boundary_of o cs row) ≡ ok cursor
        → Admissible cursor

  abbrev pub AllLinkable : List R → Type ℓ
  AllLinkable [] = Unit
  AllLinkable (row ∷ rows) = Linkable row × AllLinkable rows

  -- A boundary is absent, or that of a row.
  abbrev pub IsEdge : Option (List Value) → Type ℓ
  IsEdge e = (e ≡ none) ⊎ ((row : R) × Linkable row × (e ≡ some (boundary_of o cs row)))

  encodes :
      (columns : List (Column R)) (row : R)
      → model_boundary o columns row ≡ ok (boundary_of o columns row)
      → (es : List Encoded) × (encode_values o columns (boundary_of o columns row) ≡ ok es)
  unfolding model_boundary encode_values encode_value
  encodes [] row h = ([], refl)
  encodes (c ∷ columns) row h = elim (Result-cases (validated_value (c.field row) c.kind)) [
    | inr (x, q) ↦ absurd (ground arith)
    | inl (v, q) ↦ elim (Result-cases (model_boundary o columns row)) [
      | inr (x, r) ↦ absurd (ground arith)
      | inl (vs, r) ↦ elim (Result-cases (encode_value o (c.field row) c.kind)) [
        | inr (x, t) ↦ absurd (ground arith)
        | inl (e, t) ↦ let (es, rest) = encodes columns row (ground arith) in (e ∷ es, ground arith)
      ]
    ]
  ]

  pub makes_cursor :
      (d : Direction) (row : R)
      → Linkable row
      → (cursor : Text) × (encode_cursor o cs namespace context d (boundary_of o cs row)
          ≡ ok cursor)
  unfolding encode_cursor
  makes_cursor d row l =
      let (es, e) = encodes cs row l.typed in
      (
        o.dumps (cursor_salt o namespace context)
            (fields (number cursor_version) (string (direction_text d)) (some es)),
        ground arith,
      )

  edge-IsEdge :
      (r : Option R) (boundary : Option (List Value))
      → ((row : R) → r ≡ some row → Linkable row)
      → IsEdge boundary
      → (e : Option (List Value)) × (edge o cs r boundary ≡ ok e) × IsEdge e
  unfolding edge
  edge-IsEdge none boundary l b = (boundary, refl, b)
  edge-IsEdge (some row) boundary l b =
      let typed = (l row refl).typed in
      (some (boundary_of o cs row), ground arith, inr (row, l row refl, refl))

  cursor_towards_total :
      (d : Direction) (has : Bool) (e : Option (List Value))
      → IsEdge e
      → (c : Option Text) × (cursor_towards o cs namespace context d has e ≡ ok c)
  unfolding cursor_towards
  cursor_towards_total d false e h = (none, refl)
  cursor_towards_total d true none h = (none, refl)
  cursor_towards_total d true (some vs) (inl absent) = absurd (ground arith)
  cursor_towards_total d true (some vs) (inr (row, l, same)) =
      let (cursor, made) = makes_cursor d row l in
      let values : vs ≡ boundary_of o cs row = ground arith in (some cursor, ground arith)

  -- The page of the first rows of `after`, and a next cursor exactly where there are more of them,
  -- made from its last row.
  pub record NextPage (page_size : ℕ) (after : List R) (page : Page R) : Type ℓ where
    pub items : page.items ≡ take page_size after
    pub finished : ltb page_size (length after) ≡ false → page.next_cursor ≡ none
    pub continued :
        ltb page_size (length after) ≡ true
        → (row : R) × (cursor : Text) × (last_of (take page_size after) ≡ some row)
          × (encode_cursor o cs namespace context next (boundary_of o cs row) ≡ ok cursor)
          × (page.next_cursor ≡ some cursor)

  pub AllLinkable-take : (n : ℕ) (rows : List R) → AllLinkable rows → AllLinkable (take n rows)
  unfolding take
  AllLinkable-take zero rows l = tt
  AllLinkable-take (suc n) [] l = tt
  AllLinkable-take (suc n) (row ∷ rows) (l, ls) = (l, AllLinkable-take n rows ls)

  AllLinkable-first_of :
      (rows : List R) (row : R) → AllLinkable rows → first_of rows ≡ some row → Linkable row
  unfolding first_of
  AllLinkable-first_of [] row l h = absurd (ground arith)
  AllLinkable-first_of (r ∷ rows) row (l, ls) h = let same : row ≡ r = ground arith in rw same l

  pub AllLinkable-last_of :
      (rows : List R) (row : R) → AllLinkable rows → last_of rows ≡ some row → Linkable row
  unfolding last_of
  AllLinkable-last_of [] row l h = absurd (ground arith)
  AllLinkable-last_of (r ∷ rows) row (l, ls) h = elim (Option-cases (last_of rows)) [
    | inl e ↦ let same : row ≡ r = ground arith in rw same l
    | inr (x, e) ↦ AllLinkable-last_of rows row ls (ground arith)
  ]

  pub last_of-take :
      (n : ℕ) (rows : List R)
      → ltb (suc n) (length rows) ≡ true
      → (row : R) × (last_of (take (suc n) rows) ≡ some row)
  unfolding take last_of
  last_of-take n [] h = absurd (ground arith)
  last_of-take n (r ∷ rows) h = elim (Option-cases (last_of (take n rows))) [
    | inl e ↦ (r, ground arith)
    | inr (x, e) ↦ (x, ground arith)
  ]

  -- A page is assembled from linkable rows, with a next cursor of its last row where there are more.
  pub record Assembled (items : List R) (has_previous has_next : Bool) (page : Page R)
      : Type ℓ where
    pub same_items : page.items ≡ items
    pub first_page : has_previous ≡ false → page.previous_cursor ≡ none
    pub last_page : has_next ≡ false → page.next_cursor ≡ none
    pub linked_back :
        (row : R)
        → has_previous ≡ true
        → first_of items ≡ some row
        → (cursor : Text) × (encode_cursor o cs namespace context previous (boundary_of o cs row)
            ≡ ok cursor)
          × (page.previous_cursor ≡ some cursor)
    pub linked :
        (row : R)
        → has_next ≡ true
        → last_of items ≡ some row
        → (cursor : Text) × (encode_cursor o cs namespace context next (boundary_of o cs row)
            ≡ ok cursor)
          × (page.next_cursor ≡ some cursor)

  pub assemble-Assembled :
      (items : List R) (boundary : Option (List Value)) (has_previous has_next : Bool)
      → AllLinkable items
      → IsEdge boundary
      → (page : Page R) × (assemble o cs namespace context items boundary has_previous has_next
          ≡ ok page)
        × Assembled items has_previous has_next page
  unfolding assemble edge cursor_towards
  assemble-Assembled items boundary has_previous has_next l b =
      let (first, e, is_first) =
        edge-IsEdge (first_of items) boundary (λ row. AllLinkable-first_of items row l) b in
      let (last, f, is_last) =
        edge-IsEdge (last_of items) boundary (λ row. AllLinkable-last_of items row l) b in
      let (before, g) = cursor_towards_total previous has_previous first is_first in
      let (after, h) = cursor_towards_total next has_next last is_last in
      let page : Page R = record { items = items; previous_cursor = before; next_cursor = after } in
      (
        page,
        ground arith,
        record {
          same_items = refl;
          first_page = λ n. ground arith;
          last_page = λ n. ground arith;
          linked_back = λ row n at.
              let x = AllLinkable-first_of items row l at in
              let typed = x.typed in
              let (cursor, made) = makes_cursor previous row x in
              let at_row : first ≡ some (boundary_of o cs row) = ground arith in
              (cursor, made, ground arith);
          linked = λ row n at.
              let x = AllLinkable-last_of items row l at in
              let typed = x.typed in
              let (cursor, made) = makes_cursor next row x in
              let at_row : last ≡ some (boundary_of o cs row) = ground arith in
              (cursor, made, ground arith);
        },
      )

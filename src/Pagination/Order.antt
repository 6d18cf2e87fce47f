-- ===== src/Pagination/Order.antt =====
-- The boundary filter selects the rows on one side of a boundary in the order of the columns.
use prj_app.Base.{
  ◌≡◌, refl, ◌∙◌, Bool, true, false, ◌&&◌, ◌||◌, List, [], ◌∷◌, ◌++◌, if◌then◌else◌, arith, filter,
  Bool-cases, inl, inr,
}
use prj_app.Pagination.{Value, Outside, Column, greater_than, boundary_loop, boundary_filter}

-- The database's comparison is a strict order with its equality.
pub record Ordered (o : Outside) : Type 0 where
  pub less_asym : (v w : Value) → o.less v w ≡ true → o.less w v ≡ false
  pub less_same : (v w : Value) → o.less v w ≡ true → o.same w v ≡ false
  pub same_less : (v w : Value) → o.same v w ≡ true → o.less w v ≡ false
  pub same_sym : (v w : Value) → o.same v w ≡ o.same w v

module _ {ℓ} {R : Type ℓ} (o : Outside) where
  -- The values of a row in the columns.
  abbrev pub boundary_of : List (Column R) → R → List Value
  boundary_of [] row = []
  boundary_of (c ∷ cs) row = c.field row ∷ boundary_of cs row

  -- One row comes before another: in the first column that tells them apart, in its direction.
  unfoldable pub precedes : List (Column R) → R → R → Bool
  precedes [] a b = false
  precedes (c ∷ cs) a b =
      (if c.descending then o.less (c.field b) (c.field a) else o.less (c.field a) (c.field b))
      || (o.same (c.field a) (c.field b) && precedes cs a b)

  module _ (ordered : Ordered o) where
    precedes_asym :
        (cs : List (Column R)) (a b : R) → precedes cs a b ≡ true → precedes cs b a ≡ false
    unfolding precedes
    precedes_asym [] a b h = refl
    precedes_asym (c ∷ cs) a b h =
        let x = c.field a in
        let y = c.field b in
        ground (
          arith,
          ordered.less_asym x y,
          ordered.less_asym y x,
          ordered.less_same x y,
          ordered.less_same y x,
          ordered.same_less x y,
          ordered.same_less y x,
          ordered.same_sym x y,
          precedes_asym cs a b,
        )

    pub precedes_irrefl : (cs : List (Column R)) (a : R) → precedes cs a a ≡ false
    precedes_irrefl cs a = elim (Bool-cases (precedes cs a a)) [
      | inl h ↦ precedes_asym cs a a h
      | inr h ↦ h
    ]

    boundary_loop_after :
        (cs : List (Column R)) (a b : R) (r p : Bool)
        → boundary_loop o false b r p cs (boundary_of cs a) ≡ (r || (p && precedes cs a b))
    unfolding boundary_loop precedes
    boundary_loop_after [] a b r p = ground arith
    boundary_loop_after (c ∷ cs) a b r p =
        let x = c.field a in
        let y = c.field b in
        boundary_loop_after cs a b
          (r || (p && (if greater_than c.descending false then o.less x y else o.less y x)))
          (p && o.same y x)
        ∙ ground (arith, ordered.same_sym x y)

    boundary_loop_before :
        (cs : List (Column R)) (a b : R) (r p : Bool)
        → boundary_loop o true b r p cs (boundary_of cs a) ≡ (r || (p && precedes cs b a))
    unfolding boundary_loop precedes
    boundary_loop_before [] a b r p = ground arith
    boundary_loop_before (c ∷ cs) a b r p =
        let x = c.field a in
        let y = c.field b in
        boundary_loop_before cs a b
          (r || (p && (if greater_than c.descending true then o.less x y else o.less y x)))
          (p && o.same y x)
        ∙ ground arith

    -- The filter on the values of a row selects exactly the rows after it, in the order of the first
    -- column that differs, or with the other direction those before it, where the comparison of the
    -- database is a strict order with its equality.
    pub boundary_filter-precedes :
        (cs : List (Column R)) (a b : R)
        → (boundary_filter o cs (boundary_of cs a) false b ≡ precedes cs a b)
          × (boundary_filter o cs (boundary_of cs a) true b ≡ precedes cs b a)
    unfolding boundary_filter
    boundary_filter-precedes cs a b = (
      boundary_loop_after cs a b false true ∙ ground arith,
      boundary_loop_before cs a b false true ∙ ground arith,
    )

    -- A row comes before all of these.
    abbrev pub Heads : List (Column R) → R → List R → Type 0
    Heads cs a [] = Unit
    Heads cs a (b ∷ bs) = (precedes cs a b ≡ true) × Heads cs a bs

    -- Rows in the order of the columns.
    abbrev pub Sorted : List (Column R) → List R → Type 0
    Sorted cs [] = Unit
    Sorted cs (a ∷ rest) = Heads cs a rest × Sorted cs rest

    filter_later :
        (cs : List (Column R)) (a : R) (bs : List R)
        → Heads cs a bs
        → (filter (boundary_filter o cs (boundary_of cs a) false) bs ≡ bs)
          × (filter (boundary_filter o cs (boundary_of cs a) true) bs ≡ [])
    unfolding filter
    filter_later cs a [] h = (refl, refl)
    filter_later cs a (b ∷ bs) (h, hs) =
        let (x, y) = filter_later cs a bs hs in
        let (f, g) = boundary_filter-precedes cs a b in
        (ground (arith, precedes_asym cs a b), ground (arith, precedes_asym cs a b))

    Heads-middle :
        (cs : List (Column R)) (b : R) (bs : List R) (a : R) (after : List R)
        → Heads cs b (bs ++ (a ∷ after))
        → precedes cs b a ≡ true
    Heads-middle cs b [] a after (h, hs) = h
    Heads-middle cs b (c ∷ bs) a after (h, hs) = Heads-middle cs b bs a after hs

    -- In sorted rows the filter on a row's values cuts the rows in two at this row.
    pub filter_at :
        (cs : List (Column R)) (before : List R) (a : R) (after : List R)
        → Sorted cs (before ++ (a ∷ after))
        → (filter (boundary_filter o cs (boundary_of cs a) false) (before ++ (a ∷ after)) ≡ after)
          × (filter (boundary_filter o cs (boundary_of cs a) true) (before ++ (a ∷ after)) ≡ before)
    unfolding filter
    filter_at cs [] a after (h, s) =
        let (x, y) = filter_later cs a after h in
        let (f, g) = boundary_filter-precedes cs a a in
        let never = precedes_irrefl cs a in (ground arith, ground arith)
    filter_at cs (b ∷ bs) a after (h, s) =
        let (x, y) = filter_at cs bs a after s in
        let (f, g) = boundary_filter-precedes cs a b in
        let first = Heads-middle cs b bs a after h in
        (ground (arith, precedes_asym cs b a), ground (arith, precedes_asym cs b a))

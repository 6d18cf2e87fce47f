-- ===== src/Pagination/Walk.antt =====
-- Whoever follows the next cursors reads every row once, in order, and comes to an end.
use mathlib.Core.Path.{subst}
use prj_app.Base.{
  ℕ, zero, suc, ◌≡◌, refl, ◌<◌, sym, ap, ◌∙◌, Option, none, some, List, [], ◌∷◌, ◌++◌, Text, ltb,
  ok, err, length, length-append, arith, take, drop, take-drop, append_assoc, take_all,
  last_of-append, Bool-cases, inl, inr,
}
use prj_app.Pagination.{Outside, Column, next, Page, encode_cursor, paginate_keyset}
use prj_app.Pagination.Cursors.{Faithful}
use prj_app.Pagination.Order.{Ordered, boundary_of, Sorted}
use prj_app.Pagination.Pages.{
  Linkable, AllLinkable, AllLinkable-take, AllLinkable-last_of, NextPage,
}
use prj_app.Pagination.Forward.{Admits, paginate-first, paginate-NextPage}

module _ {ℓ} {R : Type ℓ} (o : Outside) (cs : List (Column R)) (namespace context : Text)
    (max_age : ℕ) where
  -- The items in front of those of further pages.
  abbrev pub joined : List R → Option (List R) → Option (List R)
  joined items none = none
  joined items (some rest) = some (items ++ rest)

  -- The items of a page and of those that its next cursors lead to, where after at most so many
  -- pages one has no next cursor; nothing where none has, or where a page is refused.
  unfoldable pub walk : ℕ → ℕ → Option Text → List R → Option (List R)
  walk zero page_size cursor rows = none
  walk (suc fuel) page_size cursor rows =
      elim (paginate_keyset o cs namespace context page_size max_age cursor rows) [
        | err e ↦ none
        | ok page ↦ elim page.next_cursor [
          | none ↦ some page.items
          | some c ↦ joined page.items (walk fuel page_size (some c) rows)
        ]
      ]

  AllLinkable-drop :
      (n : ℕ) (rows : List R)
      → AllLinkable o cs namespace context rows
      → AllLinkable o cs namespace context (drop n rows)
  unfolding drop
  AllLinkable-drop zero rows l = l
  AllLinkable-drop (suc n) [] l = tt
  AllLinkable-drop (suc n) (row ∷ rows) (l, ls) = AllLinkable-drop n rows ls

  -- A walk goes on behind a page.
  walk_step :
      (fuel n : ℕ) (cursor : Option Text) (rows after : List R) (page : Page R)
      → paginate_keyset o cs namespace context (suc n) max_age cursor rows ≡ ok page
      → NextPage o cs namespace context (suc n) after page
      → AllLinkable o cs namespace context after
      → length after < suc fuel
      → ((init : List R) (row : R) (rest : List R) (c : Text)
          → after ≡ init ++ (row ∷ rest)
          → Linkable o cs namespace context row
          → AllLinkable o cs namespace context rest
          → encode_cursor o cs namespace context next (boundary_of o cs row) ≡ ok c
          → length rest < fuel
          → walk fuel (suc n) (some c) rows ≡ some rest)
      → walk (suc fuel) (suc n) cursor rows ≡ some after
  unfolding walk
  walk_step fuel n cursor rows after page made x l enough again =
      let items = x.items in
      elim (Bool-cases (ltb (suc n) (length after))) [
        | inr last ↦
            let all = take_all (suc n) after last in
            let ends = x.finished last in rw (walk, made, ends, items, all) refl
        | inl more ↦
            let (row, c, at, encoded, there) = x.continued more in
            let page_rows = take (suc n) after in
            let rest = drop (suc n) after in
            let (init, split) = last_of-append page_rows row at in
            let whole = take-drop (suc n) after in
            let cut : after ≡ init ++ (row ∷ rest) =
              sym whole ∙ (ap (λ z. z ++ rest) split ∙ append_assoc init (row ∷ []) rest) in
            let sizes = length-append init (row ∷ rest) in
            let shorter = ap (length {A = R}) cut in
            let linked =
              AllLinkable-last_of o cs namespace context page_rows row
                (AllLinkable-take o cs namespace context (suc n) after l) at in
            let onwards =
              again init row rest c cut linked (AllLinkable-drop (suc n) after l) encoded
                (ground arith) in
            rw (walk, made, there, items, onwards) (ap some whole)
      ]

  module _ (faithful : Faithful o max_age) (ordered : Ordered o) where
    walk_from :
        (fuel n : ℕ) (before : List R) (row : R) (after : List R) (cursor : Text)
        → Admits o cs namespace context (suc n)
        → Sorted o ordered cs (before ++ (row ∷ after))
        → Linkable o cs namespace context row
        → AllLinkable o cs namespace context after
        → encode_cursor o cs namespace context next (boundary_of o cs row) ≡ ok cursor
        → length after < fuel
        → walk fuel (suc n) (some cursor) (before ++ (row ∷ after)) ≡ some after
    walk_from zero n before row after cursor a s l ls e enough = absurd (ground arith)
    walk_from (suc fuel) n before row after cursor a s l ls e enough =
        let (page, made, x) =
          paginate-NextPage o cs namespace context max_age faithful ordered n before row after
            cursor a s l ls e in
        walk_step fuel n (some cursor) (before ++ (row ∷ after)) after page made x ls enough
          (λ init b rest c cut lb lr eb short.
            let same : before ++ (row ∷ after) ≡ (before ++ (row ∷ init)) ++ (b ∷ rest) =
              ap (λ z. before ++ (row ∷ z)) cut
              ∙ sym (append_assoc before (row ∷ init) (b ∷ rest)) in
            let s' = subst (Sorted o ordered cs) same s in
            subst (λ z. walk fuel (suc n) (some c) z ≡ some rest) (sym same)
              (walk_from fuel n (before ++ (row ∷ init)) b rest c a s' lb lr eb short))

    -- Whoever starts without a cursor and follows the next cursors, over rows in the order of the
    -- columns that do not change, gets every row once and in order, and is done after at most one page
    -- more than there are rows. The comparison of the database has to be a strict order, signatures
    -- and text forms have to be read back, the rows' values to be of the columns' kinds and their cursors
    -- of a length that is read, and the call one that is admitted: some columns, a page of 1 to 100
    -- rows, a namespace of 1 to 100 characters.
    pub walk_all :
        (n : ℕ) (rows : List R)
        → Admits o cs namespace context (suc n)
        → Sorted o ordered cs rows
        → AllLinkable o cs namespace context rows
        → walk (suc (length rows)) (suc n) none rows ≡ some rows
    walk_all n rows a s l =
        let (page, made, x) =
          paginate-first o cs namespace context max_age faithful ordered n rows a l in
        walk_step (length rows) n none rows rows page made x l (ground arith)
          (λ init b rest c cut lb lr eb short.
            let s' = subst (Sorted o ordered cs) cut s in
            subst (λ z. walk (length rows) (suc n) (some c) z ≡ some rest) (sym cut)
              (walk_from (length rows) n init b rest c a s' lb lr eb short))

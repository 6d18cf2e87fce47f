-- ===== src/Pagination/Forward.antt =====
-- The pages that lead on: the first one, and those of next cursors.
use prj_app.Base.{
  ℕ, suc, ◌+◌, ◌≡◌, refl, ◌∙◌, true, false, ◌&&◌, ◌||◌, Option, none, some, List, [], ◌∷◌, ◌++◌,
  Text, ltb, leb, ◌==◌, is_some, ok, length, arith, take, take-take, length-take_more, inl, inr,
}
use prj_app.Pagination.{
  Value, Outside, Column, Direction, next, Page, encode_cursor, decode_cursor, assemble, decoded,
  fetch, page_of, paginate_keyset,
}
use prj_app.Pagination.Cursors.{Faithful, Admissible, decode-encode_cursor}
use prj_app.Pagination.Order.{Ordered, boundary_of, Sorted, filter_at}
use prj_app.Pagination.Pages.{
  Linkable, AllLinkable, IsEdge, NextPage, AllLinkable-take, last_of-take, assemble-Assembled,
}

module _ {ℓ} {R : Type ℓ} (o : Outside) (cs : List (Column R)) (namespace context : Text) where
  -- The start of a page: no cursor, or a next cursor with a boundary.
  abbrev pub forward : Option (List Value) → Option (Direction × List Value)
  forward none = none
  forward (some values) = some (next, values)

  page_of-NextPage :
      (boundary : Option (List Value)) (n : ℕ) (after : List R)
      → IsEdge o cs namespace context boundary
      → AllLinkable o cs namespace context after
      → (page : Page R) × (page_of o cs namespace context
            (suc n)
            (forward boundary)
            (take (suc n + 1) after)
          ≡ ok page)
        × NextPage o cs namespace context (suc n) after page
  unfolding page_of
  page_of-NextPage boundary n after b l =
      let items = take (suc n) after in
      let more = ltb (suc n) (length after) in
      let kept = take-take (suc n) (suc n + 1) after (ground arith) in
      let sentinel = length-take_more (suc n) after in
      let (page, made, x) =
        assemble-Assembled o cs namespace context items boundary (is_some boundary) more
          (AllLinkable-take o cs namespace context (suc n) after l) b in
      (
        page,
        step boundary kept sentinel ∙ made,
        record {
          items = x.same_items;
          finished = x.last_page;
          continued = λ has.
              let (row, at) = last_of-take o cs namespace context n after has in
              let (cursor, encoded, there) = x.linked row has at in
              (row, cursor, at, encoded, there);
        },
      )
    where
      step :
          (boundary : Option (List Value))
          → take (suc n) (take (suc n + 1) after) ≡ take (suc n) after
          → ltb (suc n) (length (take (suc n + 1) after)) ≡ ltb (suc n) (length after)
          → page_of o cs namespace context (suc n) (forward boundary) (take (suc n + 1) after)
            ≡ assemble o cs namespace context
                (take (suc n) after)
                boundary
                (is_some boundary)
                (ltb (suc n) (length after))
      step none kept sentinel = rw (page_of, kept, sentinel) refl
      step (some values) kept sentinel = rw (page_of, kept, sentinel) refl

  -- What a call of the read path checks before it decodes a cursor.
  pub record Admits (page_size : ℕ) : Type ℓ where
    pub columns : (length cs == 0) ≡ false
    pub sized : (leb 1 page_size && leb page_size 100) ≡ true
    pub named : (length namespace == 0 || ltb 100 (length namespace)) ≡ false

  pub decoded-some :
      (max_age : ℕ) (cursor : Text) (out : Direction × List Value)
      → Admissible cursor
      → decode_cursor o cs namespace context max_age cursor ≡ ok out
      → decoded o cs namespace context max_age (some cursor) ≡ ok (some out)
  unfolding decoded
  decoded-some max_age [] out a h = absurd (ground arith)
  decoded-some max_age (c ∷ s) out a h = ground arith

  module _ (max_age : ℕ) (faithful : Faithful o max_age) (ordered : Ordered o) where
    -- The first page of a read path.
    pub paginate-first :
        (n : ℕ) (rows : List R)
        → Admits (suc n)
        → AllLinkable o cs namespace context rows
        → (page : Page R) × (paginate_keyset o cs namespace context (suc n) max_age none rows
            ≡ ok page)
          × NextPage o cs namespace context (suc n) rows page
    unfolding paginate_keyset decoded fetch
    paginate-first n rows a l =
        let (page, made, x) = page_of-NextPage none n rows (inl refl) l in
        let columns = a.columns in
        let sized = a.sized in let named = a.named in (page, ground arith, x)

    -- The page of a next cursor that was made from a row: the rows after it.
    pub paginate-NextPage :
        (n : ℕ) (before : List R) (row : R) (after : List R) (cursor : Text)
        → Admits (suc n)
        → Sorted o ordered cs (before ++ (row ∷ after))
        → Linkable o cs namespace context row
        → AllLinkable o cs namespace context after
        → encode_cursor o cs namespace context next (boundary_of o cs row) ≡ ok cursor
        → (page : Page R) × (paginate_keyset o cs namespace context
              (suc n)
              max_age
              (some cursor)
              (before ++ (row ∷ after))
            ≡ ok page)
          × NextPage o cs namespace context (suc n) after page
    unfolding paginate_keyset fetch
    paginate-NextPage n before row after cursor a s l ls e =
        let values = boundary_of o cs row in
        let (page, made, x) = page_of-NextPage (some values) n after (inr (row, l, refl)) ls in
        let columns = a.columns in
        let sized = a.sized in
        let named = a.named in
        let short = l.short next cursor e in
        let read =
          decoded-some max_age cursor (next, values) short
            (decode-encode_cursor o cs namespace context max_age next values cursor faithful short
              e) in
        let (later, earlier) = filter_at o ordered cs before row after s in (page, ground arith, x)

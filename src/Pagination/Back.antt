-- ===== src/Pagination/Back.antt =====
-- A page before a row, for a previous cursor.
use prj_app.Base.{
  ℕ, suc, ◌+◌, ◌≡◌, refl, true, false, none, some, List, [], ◌∷◌, ◌++◌, Text, ltb, ok, length,
  reverse, arith, take, first_of, take-take, length-take_more, inr,
}
use mathlib.Core.List.{reverse-cons}
use prj_app.Pagination.{
  Outside, Column, previous, Page, encode_cursor, fetch, page_of, paginate_keyset,
}
use prj_app.Pagination.Cursors.{Faithful, decode-encode_cursor}
use prj_app.Pagination.Order.{Ordered, boundary_of, Sorted, filter_at}
use prj_app.Pagination.Pages.{Linkable, AllLinkable, AllLinkable-take, assemble-Assembled}
use prj_app.Pagination.Forward.{Admits, decoded-some}

module _ {ℓ} {R : Type ℓ} (o : Outside) (cs : List (Column R)) (namespace context : Text) where
  AllLinkable-append :
      (xs ys : List R)
      → AllLinkable o cs namespace context xs
      → AllLinkable o cs namespace context ys
      → AllLinkable o cs namespace context (xs ++ ys)
  AllLinkable-append [] ys a b = b
  AllLinkable-append (x ∷ xs) ys (l, a) b = (l, AllLinkable-append xs ys a b)

  AllLinkable-reverse :
      (xs : List R)
      → AllLinkable o cs namespace context xs
      → AllLinkable o cs namespace context (reverse xs)
  AllLinkable-reverse [] a = tt
  AllLinkable-reverse (x ∷ xs) (l, a) =
      rw (reverse-cons x xs)
        (AllLinkable-append (reverse xs) (x ∷ []) (AllLinkable-reverse xs a) (l, tt))

  -- The page of the last rows of `before`, and a previous cursor exactly where there are more.
  pub record PreviousPage (page_size : ℕ) (before : List R) (page : Page R) : Type ℓ where
    pub items : page.items ≡ reverse (take page_size (reverse before))
    pub finished : ltb page_size (length (reverse before)) ≡ false → page.previous_cursor ≡ none
    pub continued :
        (row : R)
        → ltb page_size (length (reverse before)) ≡ true
        → first_of page.items ≡ some row
        → (cursor : Text) × (encode_cursor o cs namespace context previous (boundary_of o cs row)
            ≡ ok cursor)
          × (page.previous_cursor ≡ some cursor)

  -- The page of a previous cursor that was made from a row of sorted rows: the last rows before it, in
  -- their order, and a previous cursor, of its first row, exactly where there are more. The
  -- comparison of the database has to be a strict order, signatures and text forms have to be read
  -- back, the rows' values to be of the columns' kinds and their cursors of a length that is read, and
  -- the call one that is admitted.
  pub paginate-PreviousPage :
      (max_age : ℕ)
      → Faithful o max_age
      → (ordered : Ordered o) (n : ℕ) (before : List R) (row : R) (after : List R) (cursor : Text)
      → Admits o cs namespace context (suc n)
      → Sorted o ordered cs (before ++ (row ∷ after))
      → Linkable o cs namespace context row
      → AllLinkable o cs namespace context before
      → encode_cursor o cs namespace context previous (boundary_of o cs row) ≡ ok cursor
      → (page : Page R) × (paginate_keyset o cs namespace context
            (suc n)
            max_age
            (some cursor)
            (before ++ (row ∷ after))
          ≡ ok page)
        × PreviousPage (suc n) before page
  unfolding paginate_keyset fetch page_of
  paginate-PreviousPage max_age faithful ordered n before row after cursor a s l ls e =
      let values = boundary_of o cs row in
      let back = reverse before in
      let kept = take-take (suc n) (suc n + 1) back (ground arith) in
      let sentinel = length-take_more (suc n) back in
      let more = ltb (suc n) (length back) in
      let (page, made, x) =
        assemble-Assembled o cs namespace context (reverse (take (suc n) back)) (some values) more
          true
          (AllLinkable-reverse (take (suc n) back)
            (AllLinkable-take o cs namespace context (suc n) back (AllLinkable-reverse before ls)))
          (inr (row, l, refl)) in
      let columns = a.columns in
      let sized = a.sized in
      let named = a.named in
      let short = l.short previous cursor e in
      let read =
        decoded-some o cs namespace context max_age cursor (previous, values) short
          (decode-encode_cursor o cs namespace context max_age previous values cursor faithful short
            e) in
      let (later, earlier) = filter_at o ordered cs before row after s in
      let same = x.same_items in
      (
        page,
        ground arith,
        record {
          items = x.same_items;
          finished = x.first_page;
          continued = λ first has at. x.linked_back first has (ground arith);
        },
      )

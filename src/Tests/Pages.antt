-- ===== src/Tests/Pages.antt =====
-- Pages of a read path, on sample rows.
use prj_app.Base
use prj_app.Base.{
  ℕ, ◌≡◌, ◌⊎◌, refl, Bool, true, false, Option, none, some, List, [], ◌∷◌, Text, length, ok, err,
  Error, lit, arith,
}
use prj_app.Pagination
use prj_app.Pagination.{
  Page, paginate_keyset, Value, ValueKind, Column, Direction, next, previous, integer_value,
  uuid_value, encode_cursor, decode_cursor, boundary_filter,
}
use prj_app.Pagination.Cursors.{
  decode-encode_cursor, decode_cursor-IsBoundary, IsBoundary, Admissible,
}
use prj_app.Pagination.Order
use prj_app.Pagination.Order.{boundary_filter-precedes, boundary_of, precedes, Sorted}
use prj_app.Pagination.Pages.{Linkable}
use prj_app.Pagination.Back.{PreviousPage, paginate-PreviousPage}
use prj_app.Pagination.Walk
use prj_app.Pagination.Walk.{walk, walk_all}
use prj_app.Tests.Signing.{plain, plain-Faithful, plain-Ordered}

-- Named on an `unfolding` line, it opens what a page runs through.
unfoldable paging : Bool
unfolding Base.take Base.drop Base.filter Base.first_of Base.last_of Base.text_eq
    Pagination.validated_value Pagination.direction_of Pagination.encode_value
    Pagination.decode_value Pagination.is_version Pagination.payload_direction
    Pagination.cursor_salt Pagination.encode_values Pagination.decode_values
    Pagination.encode_cursor Pagination.decode_payload Pagination.decode_cursor
    Pagination.boundary_loop Pagination.boundary_filter Pagination.model_boundary Pagination.edge
    Pagination.cursor_towards Pagination.decoded Pagination.fetch Pagination.assemble
    Pagination.page_of Pagination.paginate_keyset Order.precedes Walk.walk
paging = true

-- Rows of a number and an identifier: the greater number first.
abbrev columns : List (Column (ℕ × ℕ))
columns =
    (record { field = λ r. integer_value r.0; kind = ValueKind.integer; descending = true })
    ∷ (record { field = λ r. uuid_value r.1; kind = ValueKind.uuid; descending = false })
    ∷ []

abbrev sample : List (ℕ × ℕ)
sample = (8, 2) ∷ (5, 1) ∷ (5, 4) ∷ (5, 6) ∷ (2, 3) ∷ []

-- The cursor of a row.
abbrev made_for : Text → ℕ → ℕ → Text
made_for d a b = plain.dumps [] (
    Pagination.fields (Pagination.number 1) (Pagination.string d)
      (some (Pagination.number a ∷ Pagination.string (b ∷ []) ∷ [])))

decode-encode_cursor_example :
    decode_cursor plain columns (lit "n") [] 60 (made_for (lit "next") 5 4)
    ≡ ok (next, boundary_of plain columns (5, 4))
unfolding paging
decode-encode_cursor_example =
    decode-encode_cursor plain columns (lit "n") [] 60 next (boundary_of plain columns (5, 4))
      (made_for (lit "next") 5 4) plain-Faithful refl refl

decode_cursor-IsBoundary_example :
    ((out : Direction × List Value) × (decode_cursor plain columns (lit "n") [] 60 (7 ∷ 7 ∷ [])
        ≡ ok out)
      × IsBoundary plain columns out.1)
    ⊎ ((decode_cursor plain columns (lit "n") [] 60 (7 ∷ 7 ∷ []) ≡ err Error.invalid_cursor)
        ⊎ ((decode_cursor plain columns (lit "n") [] 60 (7 ∷ 7 ∷ []) ≡ err Error.type_error)
            × (v : Pagination.Encoded) × (q : Option (List Pagination.Encoded)) × (plain.loads
                  (Pagination.cursor_salt plain (lit "n") [])
                  60
                  (7 ∷ 7 ∷ [])
                ≡ some (Pagination.fields v (Pagination.other Pagination.collection) q))
            × (Pagination.is_version v ≡ true)))
decode_cursor-IsBoundary_example =
    decode_cursor-IsBoundary plain columns (lit "n") [] 60 (7 ∷ 7 ∷ [])

boundary_filter-precedes_example :
    (boundary_filter plain columns (boundary_of plain columns (5, 4)) false (2, 3)
      ≡ precedes plain columns (5, 4) (2, 3))
    × (boundary_filter plain columns (boundary_of plain columns (5, 4)) true (2, 3)
        ≡ precedes plain columns (2, 3) (5, 4))
boundary_filter-precedes_example =
    boundary_filter-precedes plain plain-Ordered columns (5, 4) (2, 3)

is_short :
    (a b : ℕ) (d : Direction) (cursor : Text)
    → encode_cursor plain columns (lit "n") [] d (boundary_of plain columns (a, b)) ≡ ok cursor
    → Admissible cursor
unfolding paging
is_short a b next cursor h =
    let same : cursor ≡ made_for (lit "next") a b = ground arith in rw same refl
is_short a b previous cursor h =
    let same : cursor ≡ made_for (lit "previous") a b = ground arith in rw same refl

linkable : (a b : ℕ) → Linkable plain columns (lit "n") [] (a, b)
unfolding paging
linkable a b = record { typed = refl; short = is_short a b }

sample-Sorted : Sorted plain plain-Ordered columns sample
unfolding paging
sample-Sorted = (
  (refl, (refl, (refl, (refl, tt)))),
  ((refl, (refl, (refl, tt))), ((refl, (refl, tt)), ((refl, tt), (tt, tt)))),
)

walk_all_example : walk plain columns (lit "n") [] 60 6 2 none sample ≡ some sample
unfolding paging
walk_all_example =
    walk_all plain columns (lit "n") [] 60 plain-Faithful plain-Ordered 1 sample
      (record { columns = refl; sized = refl; named = refl }) sample-Sorted
      (linkable 8 2, (linkable 5 1, (linkable 5 4, (linkable 5 6, (linkable 2 3, tt)))))

paginate-PreviousPage_example :
    (page : Page (ℕ × ℕ)) × (paginate_keyset plain columns
        (lit "n")
        []
        2
        60
        (some (made_for (lit "previous") 5 6))
        sample
      ≡ ok page)
    × PreviousPage plain columns (lit "n") [] 2 ((8, 2) ∷ (5, 1) ∷ (5, 4) ∷ []) page
unfolding paging
paginate-PreviousPage_example =
    paginate-PreviousPage plain columns (lit "n") [] 60 plain-Faithful plain-Ordered 1
      ((8, 2) ∷ (5, 1) ∷ (5, 4) ∷ []) (5, 6) ((2, 3) ∷ []) (made_for (lit "previous") 5 6)
      (record { columns = refl; sized = refl; named = refl }) sample-Sorted (linkable 5 6)
      (linkable 8 2, (linkable 5 1, (linkable 5 4, tt))) refl

-- ===== src/Pagination.antt =====
-- core/pagination.py: pages of a read path in a fixed order, and the signed cursors between them.
-- A query set is the list of its rows in the order of its columns; the database's comparison of
-- values, the signer, and the text forms of dates and identifiers are parameters.
pub mod Cursors
pub mod Order
pub mod Pages
pub mod Forward
pub mod Walk
pub mod Back
use prj_app.Base.{
  ℕ, ◌+◌, Bool, true, false, not, ◌&&◌, ◌||◌, Option, none, some, List, [], ◌∷◌, ◌++◌, Text, ltb,
  leb, ◌==◌, if◌then◌else◌, is_some, text_eq, Result, ok, err, Error, ◌>>=◌, ◌>>◌, raise_if,
  or_raise, length, reverse, lit, take, filter, first_of, last_of,
}

-- `_CURSOR_MAX_LENGTH`, `_CURSOR_VERSION`
abbrev pub max_length : ℕ
max_length = 2048

abbrev pub cursor_version : ℕ
cursor_version = 1

-- `CursorValueKind`
pub data ValueKind : Type 0 where
  text integer datetime uuid : ValueKind

-- `CursorValue`
pub data Value : Type 0 where
  text_value : Text → Value
  integer_value datetime_value uuid_value : ℕ → Value

-- JSON that is no string and no whole number: a truth value, a number with a fraction or an
-- exponent with the whole number it equals, an array or object, or null.
pub data OtherJson : Type 0 where
  boolean : Bool → OtherJson
  real : Option ℕ → OtherJson
  collection null : OtherJson

-- A value of the signed JSON.
pub data Encoded : Type 0 where
  string : Text → Encoded
  number : ℕ → Encoded
  other : OtherJson → Encoded

-- What a signed cursor holds: an object of just the fields `v`, `d` and `p`, the last of them with
-- its values where it is an array, or any other JSON.
pub data SignedValue : Type 0 where
  fields : Encoded → Encoded → Option (List Encoded) → SignedValue
  malformed : SignedValue

-- What the code takes from Django, Python and the database.
pub record Outside : Type 0 where
  pub dumps : Text → SignedValue → Text
  pub loads : Text → ℕ → Text → Option SignedValue
  pub isoformat : ℕ → Text
  pub fromisoformat : Text → Option ℕ
  pub uuid_text : ℕ → Text
  pub uuid_of : Text → Option ℕ
  pub hexdigest : Text → Text
  pub less : Value → Value → Bool
  pub same : Value → Value → Bool

-- `CursorColumn`, its field as the function that reads it.
pub record Column {ℓ} (R : Type ℓ) : Type ℓ where
  pub field : R → Value
  pub kind : ValueKind
  pub descending : Bool

pub data Direction : Type 0 where
  next previous : Direction

-- `CursorPage`
pub record Page {ℓ} (R : Type ℓ) : Type ℓ where
  pub items : List R
  pub previous_cursor : Option Text
  pub next_cursor : Option Text

-- `_validated_value`
unfoldable pub validated_value : Value → ValueKind → Result Value
validated_value (text_value s) ValueKind.text = ok (text_value s)
validated_value (integer_value n) ValueKind.integer = ok (integer_value n)
validated_value (datetime_value t) ValueKind.datetime = ok (datetime_value t)
validated_value (uuid_value i) ValueKind.uuid = ok (uuid_value i)
validated_value _ _ = err Error.invalid_input

abbrev pub direction_text : Direction → Text
direction_text next = lit "next"
direction_text previous = lit "previous"

unfoldable pub direction_of : Text → Option Direction
direction_of s =
    if text_eq s (lit "next")
    then some next
    else if text_eq s (lit "previous")
    then some previous
    else none

-- `payload["v"] == _CURSOR_VERSION`, where `True` and `1.0` are equal to 1
unfoldable pub is_version : Encoded → Bool
is_version (number n) = n == cursor_version
is_version (other (boolean b)) = b
is_version (other (real (some n))) = n == cursor_version
is_version _ = false

-- `payload["d"] in {"next", "previous"}`: a list or a dict has no hash, and raises a `TypeError`.
unfoldable pub payload_direction : Encoded → Result Direction
payload_direction (string s) = or_raise (direction_of s) Error.invalid_cursor
payload_direction (other collection) = err Error.type_error
payload_direction _ = err Error.invalid_cursor

-- `column.descending == previous`
abbrev pub greater_than : Bool → Bool → Bool
greater_than descending back = if descending then back else not back

module _ (o : Outside) where
  -- `_encode_value`
  unfoldable pub encode_value : Value → ValueKind → Result Encoded
  encode_value value kind = do
    v ← validated_value value kind
    ok (elim v [
      | text_value s ↦ string s
      | integer_value n ↦ number n
      | datetime_value t ↦ string (o.isoformat t)
      | uuid_value i ↦ string (o.uuid_text i)
    ])

  -- `_decode_value`
  unfoldable pub decode_value : Encoded → ValueKind → Result Value
  decode_value (string s) ValueKind.text = ok (text_value s)
  decode_value (number n) ValueKind.integer = ok (integer_value n)
  decode_value (string s) ValueKind.datetime = elim (o.fromisoformat s) [
    | none ↦ err Error.invalid_input
    | some t ↦ ok (datetime_value t)
  ]
  decode_value (string s) ValueKind.uuid = elim (o.uuid_of s) [
    | none ↦ err Error.invalid_input
    | some i ↦ ok (uuid_value i)
  ]
  decode_value _ _ = err Error.invalid_input

  -- `_cursor_salt`
  unfoldable pub cursor_salt : Text → Text → Text
  cursor_salt namespace context =
      lit "agora.pagination.v1:" ++ (namespace ++ (lit ":" ++ o.hexdigest context))

module _ {ℓ} {R : Type ℓ} (o : Outside) where
  -- The values of the columns, encoded; a boundary has one for each.
  unfoldable pub encode_values : List (Column R) → List Value → Result (List Encoded)
  encode_values [] [] = ok []
  encode_values (c ∷ cs) (v ∷ vs) = do
    e ← encode_value o v c.kind
    es ← encode_values cs vs
    ok (e ∷ es)
  encode_values _ _ = err Error.invalid_input

  unfoldable pub decode_values : List (Column R) → List Encoded → Result (List Value)
  decode_values [] [] = ok []
  decode_values (c ∷ cs) (e ∷ es) = do
    v ← decode_value o e c.kind
    vs ← decode_values cs es
    ok (v ∷ vs)
  decode_values _ _ = err Error.invalid_input

  -- `_encode_cursor`
  unfoldable pub encode_cursor :
      List (Column R) → Text → Text → Direction → List Value → Result Text
  encode_cursor columns namespace context direction values = do
    encoded ← encode_values columns values
    ok (
        o.dumps (cursor_salt o namespace context)
          (fields (number cursor_version) (string (direction_text direction)) (some encoded)))

  -- The checks of what a signature has let through.
  unfoldable pub decode_payload : List (Column R) → SignedValue → Result (Direction × List Value)
  decode_payload columns malformed = err Error.invalid_cursor
  decode_payload columns (fields v d p) = do
    raise_if (not (is_version v)) Error.invalid_cursor
    direction ← payload_direction d
    encoded ← or_raise p Error.invalid_cursor
    elim (decode_values columns encoded) [
      | err e ↦ err Error.invalid_cursor
      | ok values ↦ ok (direction, values)
    ]

  -- `_decode_cursor`
  unfoldable pub decode_cursor :
      List (Column R) → Text → Text → ℕ → Text → Result (Direction × List Value)
  decode_cursor columns namespace context max_age cursor = do
    raise_if (length cursor == 0 || ltb max_length (length cursor)) Error.invalid_cursor
    payload ←
        or_raise (o.loads (cursor_salt o namespace context) max_age cursor) Error.invalid_cursor
    decode_payload columns payload

  -- The loop of `_boundary_filter`, for one row: `result` and `equal_prefix` so far.
  unfoldable pub boundary_loop : Bool → R → Bool → Bool → List (Column R) → List Value → Bool
  boundary_loop back row result equal_prefix (c ∷ cs) (v ∷ vs) =
      boundary_loop back row
        (result
          || (equal_prefix
              && (if greater_than c.descending back
                  then o.less v (c.field row)
                  else o.less (c.field row) v)))
        (equal_prefix && o.same (c.field row) v) cs vs
  boundary_loop back row result equal_prefix _ _ = result

  -- `_boundary_filter`
  unfoldable pub boundary_filter : List (Column R) → List Value → Bool → R → Bool
  boundary_filter columns values back row = boundary_loop back row false true columns values

  -- `_model_boundary`
  unfoldable pub model_boundary : List (Column R) → R → Result (List Value)
  model_boundary [] row = ok []
  model_boundary (c ∷ cs) row = do
    v ← validated_value (c.field row) c.kind
    vs ← model_boundary cs row
    ok (v ∷ vs)

  -- The boundary of the row at an end of the page, or the boundary of the cursor where the page is
  -- empty.
  unfoldable pub edge :
      List (Column R) → Option R → Option (List Value) → Result (Option (List Value))
  edge columns none boundary = ok boundary
  edge columns (some row) boundary = do values ← model_boundary columns row; ok (some values)

  -- A cursor where there is a page in this direction.
  unfoldable pub cursor_towards :
      List (Column R) → Text → Text → Direction → Bool → Option (List Value) → Result (Option Text)
  cursor_towards columns namespace context direction false boundary = ok none
  cursor_towards columns namespace context direction true none = ok none
  cursor_towards columns namespace context direction true (some values) = do
    cursor ← encode_cursor columns namespace context direction values
    ok (some cursor)

  -- The decoded cursor, if there is one.
  unfoldable pub decoded :
      List (Column R) → Text → Text → ℕ → Option Text → Result (Option (Direction × List Value))
  decoded columns namespace context max_age none = ok none
  decoded columns namespace context max_age (some []) = ok none
  decoded columns namespace context max_age (some (c ∷ s)) = do
    d ← decode_cursor columns namespace context max_age (c ∷ s)
    ok (some d)

  -- The rows that the query of a page fetches.
  unfoldable pub fetch : List (Column R) → ℕ → Option (Direction × List Value) → List R → List R
  fetch columns page_size none rows = take (page_size + 1) rows
  fetch columns page_size (some (next, values)) rows =
      take (page_size + 1) (filter (boundary_filter columns values false) rows)
  fetch columns page_size (some (previous, values)) rows =
      take (page_size + 1) (reverse (filter (boundary_filter columns values true) rows))

  -- A page with its items, and cursors where there are rows on its sides.
  unfoldable pub assemble :
      List (Column R) → Text → Text → List R → Option (List Value) → Bool → Bool → Result (Page R)
  assemble columns namespace context items boundary has_previous has_next = do
    first ← edge columns (first_of items) boundary
    last ← edge columns (last_of items) boundary
    previous_cursor ← cursor_towards columns namespace context previous has_previous first
    next_cursor ← cursor_towards columns namespace context next has_next last
    ok (record { items = items; previous_cursor = previous_cursor; next_cursor = next_cursor })

  -- The page of what was fetched: in the order of the columns, without the row that only tells that
  -- there are more.
  unfoldable pub page_of :
      List (Column R) → Text → Text → ℕ → Option (Direction × List Value) → List R → Result (Page R)
  page_of columns namespace context page_size none fetched =
      assemble columns namespace context (take page_size fetched) none false
        (ltb page_size (length fetched))
  page_of columns namespace context page_size (some (next, values)) fetched =
      assemble columns namespace context (take page_size fetched) (some values) true
        (ltb page_size (length fetched))
  page_of columns namespace context page_size (some (previous, values)) fetched =
      assemble columns namespace context (reverse (take page_size fetched)) (some values)
        (ltb page_size (length fetched)) true

  -- `paginate_keyset`
  unfoldable pub paginate_keyset :
      List (Column R) → Text → Text → ℕ → ℕ → Option Text → List R → Result (Page R)
  paginate_keyset columns namespace context page_size max_age cursor rows = do
    raise_if (length columns == 0) Error.invalid_input
    raise_if (not (leb 1 page_size && leb page_size 100)) Error.invalid_input
    raise_if (length namespace == 0 || ltb 100 (length namespace)) Error.invalid_input
    d ← decoded columns namespace context max_age cursor
    page_of columns namespace context page_size d (fetch columns page_size d rows)

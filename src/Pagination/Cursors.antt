-- ===== src/Pagination/Cursors.antt =====
-- Cursors: what is signed is read back, and what is read has the form of a boundary.
use prj_app.Base.{
  ℕ, ◌≡◌, refl, true, false, Option, ◌||◌, some, List, [], ◌∷◌, Text, ltb, ◌==◌, text_eq, ok, err,
  Error, length, arith, Result-cases, inl, inr, ◌⊎◌, Option-cases, Bool-cases,
}
use prj_app.Pagination.{
  max_length, cursor_version, ValueKind, Value, text_value, integer_value, datetime_value,
  uuid_value, Encoded, string, number, other, SignedValue, fields, malformed, boolean, real,
  collection, null, is_version, payload_direction, Outside, Column, Direction, next, previous,
  validated_value, direction_text, direction_of, encode_value, decode_value, cursor_salt,
  encode_values, decode_values, encode_cursor, decode_payload, decode_cursor,
}

-- What the code relies on: a signed payload is read back under its salt while it is young enough,
-- and the text forms of dates and identifiers are exact.
pub record Faithful (o : Outside) (max_age : ℕ) : Type 0 where
  pub loads_dumps : (salt : Text) (p : SignedValue) → o.loads salt max_age (o.dumps salt p) ≡ some p
  pub fromisoformat_isoformat : (t : ℕ) → o.fromisoformat (o.isoformat t) ≡ some t
  pub uuid_of_text : (i : ℕ) → o.uuid_of (o.uuid_text i) ≡ some i

-- A cursor of a length that is read.
abbrev pub Admissible : Text → Type 0
Admissible cursor = (length cursor == 0 || ltb max_length (length cursor)) ≡ false

module _ (o : Outside) (max_age : ℕ) (faithful : Faithful o max_age) where
  decode-encode_value :
      (v : Value) (kind : ValueKind) (e : Encoded)
      → encode_value o v kind ≡ ok e
      → decode_value o e kind ≡ ok v
  unfolding encode_value decode_value validated_value
  decode-encode_value (text_value s) ValueKind.text e h =
      let same : e ≡ string s = ground arith in rw same refl
  decode-encode_value (text_value s) ValueKind.integer e h = absurd (ground arith)
  decode-encode_value (text_value s) ValueKind.datetime e h = absurd (ground arith)
  decode-encode_value (text_value s) ValueKind.uuid e h = absurd (ground arith)
  decode-encode_value (integer_value n) ValueKind.integer e h =
      let same : e ≡ number n = ground arith in rw same refl
  decode-encode_value (integer_value n) ValueKind.text e h = absurd (ground arith)
  decode-encode_value (integer_value n) ValueKind.datetime e h = absurd (ground arith)
  decode-encode_value (integer_value n) ValueKind.uuid e h = absurd (ground arith)
  decode-encode_value (datetime_value t) ValueKind.datetime e h =
      let same : e ≡ string (o.isoformat t) = ground arith in
      rw (same, decode_value, faithful.fromisoformat_isoformat t) refl
  decode-encode_value (datetime_value t) ValueKind.text e h = absurd (ground arith)
  decode-encode_value (datetime_value t) ValueKind.integer e h = absurd (ground arith)
  decode-encode_value (datetime_value t) ValueKind.uuid e h = absurd (ground arith)
  decode-encode_value (uuid_value i) ValueKind.uuid e h =
      let same : e ≡ string (o.uuid_text i) = ground arith in
      rw (same, decode_value, faithful.uuid_of_text i) refl
  decode-encode_value (uuid_value i) ValueKind.text e h = absurd (ground arith)
  decode-encode_value (uuid_value i) ValueKind.integer e h = absurd (ground arith)
  decode-encode_value (uuid_value i) ValueKind.datetime e h = absurd (ground arith)

direction_of-direction_text : (d : Direction) → direction_of (direction_text d) ≡ some d
unfolding direction_of text_eq
direction_of-direction_text next = refl
direction_of-direction_text previous = refl

payload_direction-cases :
    (d : Encoded)
    → ((towards : Direction) × (payload_direction d ≡ ok towards))
      ⊎ ((payload_direction d ≡ err Error.invalid_cursor)
          ⊎ ((payload_direction d ≡ err Error.type_error) × (d ≡ other collection)))
unfolding payload_direction
payload_direction-cases (string s) = elim (Option-cases (direction_of s)) [
  | inl e ↦ inr (inl (rw (payload_direction, e) refl))
  | inr (towards, e) ↦ inl (towards, rw (payload_direction, e) refl)
]
payload_direction-cases (number n) = inr (inl refl)
payload_direction-cases (other collection) = inr (inr (refl, refl))
payload_direction-cases (other null) = inr (inl refl)
payload_direction-cases (other (boolean b)) = inr (inl refl)
payload_direction-cases (other (real n)) = inr (inl refl)

-- A value of the kind.
abbrev pub IsOfKind : Value → ValueKind → Type 0
IsOfKind v kind = validated_value v kind ≡ ok v

decode_value-IsOfKind :
    (o : Outside) (e : Encoded) (kind : ValueKind) (v : Value)
    → decode_value o e kind ≡ ok v
    → IsOfKind v kind
unfolding decode_value validated_value
decode_value-IsOfKind o (string s) ValueKind.text v h =
    let same : v ≡ text_value s = ground arith in rw same refl
decode_value-IsOfKind o (string s) ValueKind.integer v h = absurd (ground arith)
decode_value-IsOfKind o (string s) ValueKind.datetime v h =
    elim (Option-cases (o.fromisoformat s)) [
      | inl e ↦ absurd (ground arith)
      | inr (t, e) ↦ let same : v ≡ datetime_value t = ground arith in rw same refl
    ]
decode_value-IsOfKind o (string s) ValueKind.uuid v h = elim (Option-cases (o.uuid_of s)) [
  | inl e ↦ absurd (ground arith)
  | inr (t, e) ↦ let same : v ≡ uuid_value t = ground arith in rw same refl
]
decode_value-IsOfKind o (number n) ValueKind.integer v h =
    let same : v ≡ integer_value n = ground arith in rw same refl
decode_value-IsOfKind o (number n) ValueKind.text v h = absurd (ground arith)
decode_value-IsOfKind o (number n) ValueKind.datetime v h = absurd (ground arith)
decode_value-IsOfKind o (number n) ValueKind.uuid v h = absurd (ground arith)
decode_value-IsOfKind o (other j) ValueKind.text v h = absurd (ground arith)
decode_value-IsOfKind o (other j) ValueKind.integer v h = absurd (ground arith)
decode_value-IsOfKind o (other j) ValueKind.datetime v h = absurd (ground arith)
decode_value-IsOfKind o (other j) ValueKind.uuid v h = absurd (ground arith)

module _ {ℓ} {R : Type ℓ} (o : Outside) where
  -- A boundary: one value of its kind for each column.
  abbrev pub IsBoundary : List (Column R) → List Value → Type 0
  IsBoundary [] [] = Unit
  IsBoundary (c ∷ cs) (v ∷ vs) = IsOfKind v c.kind × IsBoundary cs vs
  IsBoundary _ _ = ⊥

  decode_values-IsBoundary :
      (cs : List (Column R)) (es : List Encoded) (vs : List Value)
      → decode_values o cs es ≡ ok vs
      → IsBoundary cs vs
  unfolding decode_values
  decode_values-IsBoundary [] [] vs h = let same : vs ≡ [] = ground arith in rw same tt
  decode_values-IsBoundary [] (e ∷ es) vs h = absurd (ground arith)
  decode_values-IsBoundary (c ∷ cs) [] vs h = absurd (ground arith)
  decode_values-IsBoundary (c ∷ cs) (e ∷ es) vs h = elim (Result-cases (decode_value o e c.kind)) [
    | inr (x, q) ↦ absurd (ground arith)
    | inl (v, q) ↦ elim (Result-cases (decode_values o cs es)) [
      | inr (x, r) ↦ absurd (ground arith)
      | inl (rest, r) ↦
          let same : vs ≡ v ∷ rest = ground arith in
          rw same (decode_value-IsOfKind o e c.kind v q, decode_values-IsBoundary cs es rest r)
    ]
  ]

  -- The outcomes of a payload: a boundary, an invalid cursor, or a direction without a hash.
  decode_payload_outcome :
      (cs : List (Column R)) (p : SignedValue)
      → ((out : Direction × List Value) × (decode_payload o cs p ≡ ok out) × IsBoundary cs out.1)
        ⊎ ((decode_payload o cs p ≡ err Error.invalid_cursor)
            ⊎ ((decode_payload o cs p ≡ err Error.type_error)
                × (v : Encoded) × (q : Option (List Encoded)) × (p ≡ fields v (other collection) q)
                × (is_version v ≡ true)))
  unfolding decode_payload
  decode_payload_outcome cs malformed = inr (inl refl)
  decode_payload_outcome cs (fields v d q) = elim (Bool-cases (is_version v)) [
    | inr old ↦ inr (inl (ground arith))
    | inl now ↦ elim (payload_direction-cases d) [
      | inr (inl bad) ↦ inr (inl (ground arith))
      | inr (inr (unhashable, same)) ↦ inr (inr (ground arith, v, q, rw same refl, now))
      | inl (towards, known) ↦ elim (Option-cases q) [
        | inl none_given ↦ inr (inl (ground arith))
        | inr (es, given) ↦ elim (Result-cases (decode_values o cs es)) [
          | inr (x, e) ↦ inr (inl (ground arith))
          | inl (vs, e) ↦ inl ((towards, vs), ground arith, decode_values-IsBoundary cs es vs e)
        ]
      ]
    ]
  ]

  -- Whatever a signature lets through: a cursor that is decoded gives one value of its kind for each
  -- column of the read path, and every other one is an invalid cursor, but for those that are signed
  -- for this read path with the version and, as their direction, an array or object: these raise
  -- the type error of the test for a member.
  pub decode_cursor-IsBoundary :
      (cs : List (Column R)) (namespace context : Text) (max_age : ℕ) (cursor : Text)
      → ((out : Direction × List Value) × (decode_cursor o cs namespace context max_age cursor
            ≡ ok out)
          × IsBoundary cs out.1)
        ⊎ ((decode_cursor o cs namespace context max_age cursor ≡ err Error.invalid_cursor)
            ⊎ ((decode_cursor o cs namespace context max_age cursor ≡ err Error.type_error)
                × (v : Encoded) × (q : Option (List Encoded)) × (o.loads
                      (cursor_salt o namespace context)
                      max_age
                      cursor
                    ≡ some (fields v (other collection) q))
                × (is_version v ≡ true)))
  unfolding decode_cursor
  decode_cursor-IsBoundary cs namespace context max_age cursor =
      elim (Bool-cases (length cursor == 0 || ltb max_length (length cursor))) [
        | inl long ↦ inr (inl (ground arith))
        | inr short ↦
            elim (Option-cases (o.loads (cursor_salt o namespace context) max_age cursor)) [
              | inl forged ↦ inr (inl (ground arith))
              | inr (p, signed) ↦ elim (decode_payload_outcome cs p) [
                | inr (inl bad) ↦ inr (inl (ground arith))
                | inr (inr (bad, v, q, same, now)) ↦
                    inr (inr (ground arith, v, q, ground arith, now))
                | inl (out, good, bound) ↦ inl (out, ground arith, bound)
              ]
            ]
      ]

  encode-decode_values :
      (max_age : ℕ)
      → Faithful o max_age
      → (cs : List (Column R)) (vs : List Value) (es : List Encoded) → encode_values o cs vs ≡ ok es
      → decode_values o cs es ≡ ok vs
  unfolding encode_values decode_values
  encode-decode_values max_age f [] [] es h = let same : es ≡ [] = ground arith in rw same refl
  encode-decode_values max_age f [] (v ∷ vs) es h = absurd (ground arith)
  encode-decode_values max_age f (c ∷ cs) [] es h = absurd (ground arith)
  encode-decode_values max_age f (c ∷ cs) (v ∷ vs) es h =
      elim (Result-cases (encode_value o v c.kind)) [
        | inr (x, q) ↦ absurd (ground arith)
        | inl (e, q) ↦ elim (Result-cases (encode_values o cs vs)) [
          | inr (x, r) ↦ absurd (ground arith)
          | inl (rest, r) ↦
              let same : es ≡ e ∷ rest = ground arith in
              let first = decode-encode_value o max_age f v c.kind e q in
              let others = encode-decode_values max_age f cs vs rest r in
              rw (same, first, others) refl
        ]
      ]

  -- A cursor that was made for a read path is decoded to its direction and its boundary, under the
  -- same namespace, context and columns, where it is of a length that is read, what is signed is read
  -- back within the age, and the text forms of dates and identifiers are exact.
  pub decode-encode_cursor :
      (cs : List (Column R)) (namespace context : Text) (max_age : ℕ) (d : Direction)
      (vs : List Value) (cursor : Text)
      → Faithful o max_age
      → Admissible cursor
      → encode_cursor o cs namespace context d vs ≡ ok cursor
      → decode_cursor o cs namespace context max_age cursor ≡ ok (d, vs)
  unfolding encode_cursor decode_cursor decode_payload is_version payload_direction
  decode-encode_cursor cs namespace context max_age d vs cursor f short h =
      elim (Result-cases (encode_values o cs vs)) [
        | inr (x, q) ↦ absurd (ground arith)
        | inl (es, q) ↦
            let salt = cursor_salt o namespace context in
            let p = fields (number cursor_version) (string (direction_text d)) (some es) in
            let same : cursor ≡ o.dumps salt p = ground arith in
            let read = f.loads_dumps salt p in
            let towards = direction_of-direction_text d in
            let values = encode-decode_values max_age f cs vs es q in ground arith
      ]

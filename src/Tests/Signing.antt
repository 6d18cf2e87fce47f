-- ===== src/Tests/Signing.antt =====
-- A signer that only writes its payload down, and a database that compares numbers.
use prj_app.Base.{
  ℕ, zero, suc, ◌≡◌, refl, true, false, Option, none, some, List, [], ◌∷◌, map, Text, ltb, ◌==◌,
  length, arith,
}
use prj_app.Pagination.{
  Value, text_value, integer_value, datetime_value, uuid_value, Encoded, string, number, other,
  boolean, real, collection, null, SignedValue, fields, malformed, Outside,
}
use prj_app.Pagination.Cursors.{Faithful}
use prj_app.Pagination.Order.{Ordered}

-- Texts in a row: each character one higher, and a zero at the end of each text.
abbrev pub written : Text → Text → Text
written [] rest = 0 ∷ rest
written (c ∷ s) rest = suc c ∷ written s rest

abbrev pub all_written : List Text → Text
all_written [] = []
all_written (s ∷ ss) = written s (all_written ss)

abbrev pub longer : ℕ → List Text → List Text
longer c [] = []
longer c (s ∷ ss) = (c ∷ s) ∷ ss

abbrev pub split_up : Text → List Text
split_up [] = []
split_up (zero ∷ s) = [] ∷ split_up s
split_up (suc c ∷ s) = longer c (split_up s)

split_up-written : (s rest : Text) → split_up (written s rest) ≡ s ∷ split_up rest
split_up-written [] rest = refl
split_up-written (c ∷ s) rest = rw (split_up-written s rest) refl

split_up-all_written : (ss : List Text) → split_up (all_written ss) ≡ ss
split_up-all_written [] = refl
split_up-all_written (s ∷ ss) =
    rw (split_up-written s (all_written ss), split_up-all_written ss) refl

abbrev pub encoded_text : Encoded → Text
encoded_text (string s) = 0 ∷ s
encoded_text (number n) = 1 ∷ n ∷ []
encoded_text (other null) = []
encoded_text (other collection) = 1 ∷ []
encoded_text (other (boolean true)) = 2 ∷ []
encoded_text (other (boolean false)) = 3 ∷ []
encoded_text (other (real none)) = 4 ∷ []
encoded_text (other (real (some n))) = 2 ∷ n ∷ []

abbrev pub encoded_of : Text → Encoded
encoded_of [] = other null
encoded_of (zero ∷ s) = string s
encoded_of (suc zero ∷ []) = other collection
encoded_of (suc (suc zero) ∷ []) = other (boolean true)
encoded_of (suc (suc (suc zero)) ∷ []) = other (boolean false)
encoded_of (suc (suc (suc (suc c))) ∷ []) = other (real none)
encoded_of (suc zero ∷ n ∷ s) = number n
encoded_of (suc (suc c) ∷ n ∷ s) = other (real (some n))

encoded_of-encoded_text : (e : Encoded) → encoded_of (encoded_text e) ≡ e
encoded_of-encoded_text (string s) = refl
encoded_of-encoded_text (number n) = refl
encoded_of-encoded_text (other null) = refl
encoded_of-encoded_text (other collection) = refl
encoded_of-encoded_text (other (boolean true)) = refl
encoded_of-encoded_text (other (boolean false)) = refl
encoded_of-encoded_text (other (real none)) = refl
encoded_of-encoded_text (other (real (some n))) = refl

encoded_of_all : (es : List Encoded) → map encoded_of (map encoded_text es) ≡ es
encoded_of_all [] = refl
encoded_of_all (e ∷ es) = rw (encoded_of-encoded_text e, encoded_of_all es) refl

abbrev pub payload_texts : SignedValue → List Text
payload_texts malformed = []
payload_texts (fields v d none) = encoded_text v ∷ encoded_text d ∷ []
payload_texts (fields v d (some p)) = encoded_text v ∷ encoded_text d ∷ [] ∷ map encoded_text p

abbrev pub payload_of : List Text → SignedValue
payload_of (v ∷ d ∷ []) = fields (encoded_of v) (encoded_of d) none
payload_of (v ∷ d ∷ s ∷ p) = fields (encoded_of v) (encoded_of d) (some (map encoded_of p))
payload_of _ = malformed

payload_of-payload_texts : (p : SignedValue) → payload_of (payload_texts p) ≡ p
payload_of-payload_texts malformed = refl
payload_of-payload_texts (fields v d none) =
    rw (encoded_of-encoded_text v, encoded_of-encoded_text d) refl
payload_of-payload_texts (fields v d (some p)) =
    rw (encoded_of-encoded_text v, encoded_of-encoded_text d, encoded_of_all p) refl

abbrev pub only : Text → Option ℕ
only (t ∷ []) = some t
only _ = none

abbrev pub rank : Value → ℕ
rank (text_value s) = length s
rank (integer_value n) = n
rank (datetime_value t) = t
rank (uuid_value i) = i

abbrev pub plain : Outside
plain = record {
  dumps = λ salt p. all_written (payload_texts p);
  loads = λ salt max_age s. some (payload_of (split_up s));
  isoformat = λ t. t ∷ [];
  fromisoformat = only;
  uuid_text = λ i. i ∷ [];
  uuid_of = only;
  hexdigest = λ s. s;
  less = λ v w. ltb (rank v) (rank w);
  same = λ v w. rank v == rank w;
}

pub plain-Faithful : Faithful plain 60
plain-Faithful = record {
  loads_dumps =
      λ salt p. rw (split_up-all_written (payload_texts p), payload_of-payload_texts p) refl;
  fromisoformat_isoformat = λ t. refl;
  uuid_of_text = λ i. refl;
}

pub plain-Ordered : Ordered plain
plain-Ordered = record {
  less_asym = λ v w h. ground arith;
  less_same = λ v w h. ground arith;
  same_less = λ v w h. ground arith;
  same_sym = λ v w. ground arith;
}

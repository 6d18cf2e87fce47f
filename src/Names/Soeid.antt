-- ===== src/Names/Soeid.antt =====
-- The canonical form of a SOEID.
use prj_app.Base.{
  ℕ, ◌≡◌, ◌≤◌, refl, Bool, true, false, [], ◌∷◌, map, Text, ok, arith, length, all, strip-all_not,
}
use prj_app.Names.{
  is_ascii_space, upper, is_soeid_char, matches_soeid, is_ascii, canonicalize_soeid,
}

soeid_char_facts :
    (c : ℕ)
    → is_soeid_char c ≡ true
    → (is_ascii_space c ≡ false) × (is_ascii c ≡ true) × (upper c ≡ c)
unfolding is_soeid_char is_ascii_space upper
soeid_char_facts c h = (ground arith, ground arith, ground arith)

matches_soeid-all : (s : Text) → matches_soeid s ≡ true → all is_soeid_char s ≡ true
unfolding matches_soeid all is_soeid_char
matches_soeid-all [] h = refl
matches_soeid-all (c ∷ s) h = ground arith

all_mono :
    (p q : ℕ → Bool) (s : Text)
    → ((c : ℕ) → p c ≡ true → q c ≡ true)
    → all p s ≡ true
    → all q s ≡ true
unfolding all
all_mono p q [] h a = refl
all_mono p q (c ∷ s) h a = ground (arith, h c, all_mono p q s h)

map-upper_same : (s : Text) → all is_soeid_char s ≡ true → map upper s ≡ s
unfolding all
map-upper_same [] h = refl
map-upper_same (c ∷ s) h = ground (arith, soeid_char_facts c, map-upper_same s)

-- A text that matches the grammar is its own canonical form.
pub canonicalize_soeid_fixed : (s : Text) → matches_soeid s ≡ true → canonicalize_soeid s ≡ ok s
unfolding canonicalize_soeid
canonicalize_soeid_fixed s h =
    let a = matches_soeid-all s h in
    ground (
      arith,
      strip-all_not is_ascii_space is_soeid_char s (λ c k. (soeid_char_facts c k).0) a,
      all_mono is_soeid_char is_ascii s (λ c k. (soeid_char_facts c k).1) a,
      map-upper_same s a,
    )

-- What is accepted matches the grammar, and has from 1 to 64 characters.
pub canonicalize_soeid_matches :
    (value s : Text) → canonicalize_soeid value ≡ ok s → matches_soeid s ≡ true
unfolding canonicalize_soeid
canonicalize_soeid_matches value s h = ground arith

matches_soeid-length : (s : Text) → matches_soeid s ≡ true → (1 ≤ length s) × (length s ≤ 64)
unfolding matches_soeid
matches_soeid-length [] h = ground arith
matches_soeid-length (c ∷ s) h = (ground arith, ground arith)

-- Canonicalization is idempotent, and its results have from 1 to 64 characters of the grammar.
pub canonicalize_soeid_idempotent :
    (value s : Text)
    → canonicalize_soeid value ≡ ok s
    → (canonicalize_soeid s ≡ ok s)
      × (all is_soeid_char s ≡ true)
      × (1 ≤ length s)
      × (length s ≤ 64)
canonicalize_soeid_idempotent value s h =
    let m = canonicalize_soeid_matches value s h in
    let bounds = matches_soeid-length s m in
    (canonicalize_soeid_fixed s m, matches_soeid-all s m, bounds.0, bounds.1)

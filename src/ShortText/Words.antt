-- ===== src/ShortText/Words.antt =====
-- `str.split` and `" ".join`: splitting what was joined gives the words back.
use prj_app.Base.{
  ℕ, ◌≡◌, refl, Bool, true, false, not, List, [], ◌∷◌, ◌++◌, Text, arith, all, all-append,
}
use prj_app.Names.{split, join, start_word}

module _ (is_space : ℕ → Bool) where
  -- A word: not empty, and with no white space.
  abbrev pub is_word : Text → Bool
  is_word [] = false
  is_word (c ∷ w) = all (λ x. not (is_space x)) (c ∷ w)

  -- Splitting gives words only.
  start_word-words :
      (c : ℕ) (s : Text) (ws : List Text)
      → is_space c ≡ false
      → all is_word ws ≡ true
      → all is_word (start_word is_space c s ws) ≡ true
  unfolding all
  start_word-words c [] ws h a = ground arith
  start_word-words c (x ∷ s) [] h a = ground arith
  start_word-words c (x ∷ s) ([] ∷ ws) h a = ground arith
  start_word-words c (x ∷ s) ((y ∷ w) ∷ ws) h a = ground arith

  pub split-words : (s : Text) → all is_word (split is_space s) ≡ true
  unfolding split all
  split-words [] = refl
  split-words (c ∷ s) = ground (arith, start_word-words c s (split is_space s), split-words s)

  -- A word before a space is the first word.
  split-word_space :
      (c : ℕ) (w s : Text)
      → is_space 32 ≡ true
      → is_word (c ∷ w) ≡ true
      → split is_space ((c ∷ w) ++ (32 ∷ s)) ≡ (c ∷ w) ∷ split is_space s
  unfolding split all
  split-word_space c [] s sp h = ground arith
  split-word_space c (x ∷ w) s sp h = ground (arith, split-word_space x w s sp)

  split-word : (c : ℕ) (w : Text) → is_word (c ∷ w) ≡ true → split is_space (c ∷ w) ≡ (c ∷ w) ∷ []
  unfolding split all
  split-word c [] h = ground arith
  split-word c (x ∷ w) h = ground (arith, split-word x w)

  split-nil : split is_space [] ≡ []
  unfolding split
  split-nil = refl

  pub split-join :
      (ws : List Text) → is_space 32 ≡ true → all is_word ws ≡ true → split is_space (join ws) ≡ ws
  unfolding join all
  split-join [] sp h = split-nil
  split-join ([] ∷ ws) sp h = absurd (ground arith)
  split-join ((c ∷ w) ∷ []) sp h = ground (arith, split-word c w)
  split-join ((c ∷ w) ∷ v ∷ ws) sp h =
      ground (arith, split-word_space c w (join (v ∷ ws)) sp, split-join (v ∷ ws) sp)

  -- A test that holds of every character, and of the space, holds of every character of the words
  -- joined.
  module _ (p : ℕ → Bool) where
    all-start_word :
        (c : ℕ) (s : Text) (ws : List Text)
        → p c ≡ true
        → all (all p) ws ≡ true
        → all (all p) (start_word is_space c s ws) ≡ true
    unfolding all
    all-start_word c [] ws h a = ground arith
    all-start_word c (x ∷ s) [] h a = ground arith
    all-start_word c (x ∷ s) (w ∷ ws) h a = ground arith

    all-split : (s : Text) → all p s ≡ true → all (all p) (split is_space s) ≡ true
    unfolding split all
    all-split [] h = refl
    all-split (c ∷ s) h = ground (arith, all-start_word c s (split is_space s), all-split s)

    all-join : (ws : List Text) → p 32 ≡ true → all (all p) ws ≡ true → all p (join ws) ≡ true
    unfolding join all
    all-join [] sp h = refl
    all-join (w ∷ []) sp h = ground arith
    all-join (w ∷ v ∷ ws) sp h =
        ground (arith, all-append p w (32 ∷ join (v ∷ ws)), all-join (v ∷ ws) sp)

    pub all-join-split :
        (s : Text) → p 32 ≡ true → all p s ≡ true → all p (join (split is_space s)) ≡ true
    all-join-split s sp h = all-join (split is_space s) sp (all-split s h)

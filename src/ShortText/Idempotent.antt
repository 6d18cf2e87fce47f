-- ===== src/ShortText/Idempotent.antt =====
-- Normalizing a short text again changes nothing.
use prj_app.Base.{ℕ, ◌≡◌, ◌≤◌, true, Text, ok, arith, length}
use prj_app.Unicode.{Unicode, Category}
use prj_app.Names.{split}
use prj_app.ShortText.{is_permitted, normalize_short_text}
use prj_app.ShortText.Words.{split-words, split-join, all-join-split}

-- Where the space is a white space and no control, an accepted text is its own normal form, and is
-- not longer than the maximum.
pub normalize_short_text_idempotent :
    (u : Unicode) (maximum : ℕ) (value normalized : Text)
    → u.is_space 32 ≡ true
    → u.category 32 ≡ Category.other
    → normalize_short_text u maximum value ≡ ok normalized
    → (normalize_short_text u maximum normalized ≡ ok normalized) × (length normalized ≤ maximum)
unfolding normalize_short_text is_permitted
normalize_short_text_idempotent u maximum value normalized sp plain h =
    let again = split-join u.is_space (split u.is_space value) sp (split-words u.is_space value) in
    let clean = all-join-split u.is_space (is_permitted u) value in
    (ground (arith, again, clean), ground arith)

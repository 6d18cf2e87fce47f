-- ===== src/Unicode.antt =====
-- What the program takes from Python's `unicodedata` and `str`: parameters of the model.
use prj_app.Base.{ℕ, Bool, Text}

-- The categories that the code asks for; `other` is any other one.
pub data Category : Type 0 where
  control format surrogate other : Category

pub record Unicode : Type 0 where
  -- `unicodedata.category`: "Cc", "Cf", "Cs"
  pub category : ℕ → Category
  -- `str.isspace`, by which `str.split` splits
  pub is_space : ℕ → Bool
  -- `unicodedata.normalize("NFKC", …)`
  pub nfkc : Text → Text
  pub casefold : Text → Text
  -- `unicodedata.normalize("NFC", …)`
  pub nfc : Text → Text
  pub upper : Text → Text

abbrev pub is_other : Category → Bool
is_other Category.other = Bool.true
is_other _ = Bool.false

abbrev pub is_control : Category → Bool
is_control Category.control = Bool.true
is_control _ = Bool.false

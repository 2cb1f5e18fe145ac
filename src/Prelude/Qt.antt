-- ===== src/Prelude/Qt.antt =====
-- What the program takes from Qt on texts and file names. Qt is not part of the repository, so its
-- operations are a parameter, with the documented behaviour that the code relies on.
pub mod Plain
use Prim.Native.Nat.{ℕ, ◌+◌, ◌<◌, ◌≤◌}
use mathlib.Core.Path.{◌≡◌}
use mathlib.Core.Bool.{Bool, true, false, ◌||◌, ◌&&◌}
use mathlib.Core.List.{List, [], ◌∷◌}
use open_bc.Prelude.Tests.{leb, ◌==◌}
use open_bc.Prelude.Lists.{All}
use open_bc.Prelude.Texts.{Text, has_char}

-- Lower-case ASCII letters, digits and the dash, the characters of the program's own keywords.
keyword_char : ℕ → Bool
keyword_char c = (leb b'a' c && leb c b'z') || (leb b'0' c && leb c b'9') || c == b'-'

unfoldable pub keyword : Text → Bool
unfolding keyword_char
keyword [] = true
keyword (c ∷ t) = keyword_char c && keyword t

pub record Qt : Type 0 where
  -- `QString::trimmed` and `QString::toLower`.
  pub trimmed : Text → Text
  pub to_lower : Text → Text
  -- `QFileInfo(path).suffix()` and `QFileInfo(path).fileName()`.
  pub suffix : Text → Text
  pub file_name : Text → Text
  -- Neither changes a text of lower-case letters, digits and dashes.
  pub trimmed_keyword : (t : Text) → keyword t ≡ true → trimmed t ≡ t
  pub to_lower_keyword : (t : Text) → keyword t ≡ true → to_lower t ≡ t
  -- `trimmed` only takes characters away.
  pub trimmed_lacks : (c : ℕ) (t : Text) → has_char c t ≡ false → has_char c (trimmed t) ≡ false

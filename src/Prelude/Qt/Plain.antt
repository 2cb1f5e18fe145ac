-- ===== src/Prelude/Qt/Plain.antt =====
-- Qt on plain ASCII texts with no white space and no capitals, for the tests.
use Prim.Native.Nat.{ℕ}
use mathlib.Core.Path.{refl}
use mathlib.Core.List.{[], ◌∷◌}
use open_bc.Prelude.Tests.{◌==◌, if◌then◌else◌}
use open_bc.Prelude.Texts.{Text, has_char}
use open_bc.Prelude.Qt.{Qt}

-- What follows the last occurrence of a character, or the text `t` if there is none.
abbrev pub after_last : ℕ → Text → Text → Text
after_last c t [] = t
after_last c t (x ∷ xs) = if x == c then after_last c xs xs else after_last c t xs

abbrev pub plain_qt : Qt
plain_qt = record {
  trimmed = λ t. t;
  to_lower = λ t. t;
  suffix = λ t. if has_char b'.' t then after_last b'.' t t else [];
  file_name = λ t. after_last b'/' t t;
  trimmed_keyword = λ t k. refl;
  to_lower_keyword = λ t k. refl;
  trimmed_lacks = λ c t e. e;
}

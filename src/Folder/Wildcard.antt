-- ===== src/Folder/Wildcard.antt =====
-- Masks as Qt documents them for `QRegularExpression::wildcardToRegularExpression`
-- (crates/openbc-ui-qt/cpp/viewers/folder/folder_model.h turns each mask into such an expression).
use open_bc.Prelude.{ℕ, Bool, true, false, ◌&&◌, negate, [], ◌∷◌, Text, ◌==◌, has_char, ◌≡◌}

-- No set in brackets, and no backslash, which separates names on some systems.
unfoldable pub is_plain_mask : Text → Bool
is_plain_mask mask = negate (has_char b'[' mask) && negate (has_char b'\\' mask)

-- Such a mask matches the whole of a text: a star any characters but slashes, a question mark any one
-- but a slash, and another character itself up to case.
pub data Wildcard (fold : ℕ → ℕ) : Text → Text → Type 0 where
  finished : Wildcard fold [] []
  star_ends :
      {p : ℕ} {ps t : Text} → (p == b'*') ≡ true → Wildcard fold ps t → Wildcard fold (p ∷ ps) t
  star_reads :
      {p c : ℕ} {ps t : Text}
      → (p == b'*') ≡ true
      → (c == b'/') ≡ false
      → Wildcard fold (p ∷ ps) t
      → Wildcard fold (p ∷ ps) (c ∷ t)
  any_reads :
      {p c : ℕ} {ps t : Text}
      → (p == b'?') ≡ true
      → (c == b'/') ≡ false
      → Wildcard fold ps t
      → Wildcard fold (p ∷ ps) (c ∷ t)
  letter_reads :
      {p c : ℕ} {ps t : Text}
      → (p == b'*') ≡ false
      → (p == b'?') ≡ false
      → (fold p == fold c) ≡ true
      → Wildcard fold ps t
      → Wildcard fold (p ∷ ps) (c ∷ t)

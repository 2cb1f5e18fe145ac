-- ===== src/TextEditor/Threshold.antt =====
-- The hybrid threshold (crates/openbc-ui-qt/cpp/options/text_editor_selection.h).
use mathlib.Core.Bool.{false≢true}
use open_bc.Prelude.{
  ℕ, ◌*◌, ◌≤◌, ◌<◌, true, false, ◌≡◌, ◌↔◌, refl, sym, ◌∙◌, arith, Bool-cases, inl, inr,
}
use open_bc.TextEditor.{
  SizeUnit, Settings, Converted, bytes, invalid, unit_bytes, threshold_to_bytes, is_valid,
  sanitized, threshold_bytes, min_threshold_bytes, max_threshold_bytes, with_known, with_default,
}

-- A conversion succeeds exactly if the value is positive and the exact product, with no wrap-around
-- at 64 bits, is at most 64 GB; the result is then that product.
pub threshold_to_bytes_exact :
    (value : ℕ) (unit : SizeUnit) (n : ℕ)
    → (threshold_to_bytes value unit ≡ bytes n) ↔ (
        (n ≡ value * unit_bytes unit)
        × (0 < value)
        × (value * unit_bytes unit ≤ max_threshold_bytes))
unfolding threshold_to_bytes unit_bytes
threshold_to_bytes_exact value SizeUnit.kb n =
    (λ h. (ground arith, ground arith, ground arith), λ h. ground (arith, h.0, h.1, h.2))
threshold_to_bytes_exact value _ n =
    (λ h. (ground arith, ground arith, ground arith), λ h. ground (arith, h.0, h.1, h.2))

with_known_idem : (s : Settings) → with_known (with_known s) ≡ with_known s
unfolding with_known
with_known_idem s = ground arith

with_known-with_default :
    (s : Settings) → with_known (with_default (with_known s)) ≡ with_default (with_known s)
unfolding with_known with_default
with_known-with_default s = ground arith

with_default-is_valid : (s : Settings) → is_valid (with_default s) ≡ true
unfolding is_valid with_default threshold_to_bytes unit_bytes
with_default-is_valid s = refl

sanitized-good : (s : Settings) → is_valid (with_known s) ≡ true → sanitized s ≡ with_known s
unfolding sanitized
sanitized-good s e = rw e

sanitized-bad :
    (s : Settings) → is_valid (with_known s) ≡ false → sanitized s ≡ with_default (with_known s)
unfolding sanitized
sanitized-bad s e = rw e

-- Sanitized settings are valid, and sanitizing them again changes nothing.
pub sanitized-is_valid :
    (s : Settings) → (is_valid (sanitized s) ≡ true) × (sanitized (sanitized s) ≡ sanitized s)
sanitized-is_valid s = elim (Bool-cases (is_valid (with_known s))) [
  | inl e ↦
      rw (sanitized-good s e)
        (e, sanitized-good (with_known s) (rw (with_known_idem s) e) ∙ with_known_idem s)
  | inr e ↦
      let known = with_known-with_default s in
      let valid = with_default-is_valid (with_known s) in
      rw (sanitized-bad s e)
        (valid, sanitized-good (with_default (with_known s)) (rw known valid) ∙ known)
]

valid_range :
    (value : ℕ) (unit : SizeUnit) (n : ℕ)
    → threshold_to_bytes value unit ≡ bytes n
    → (min_threshold_bytes ≤ n) × (n ≤ max_threshold_bytes)
unfolding threshold_to_bytes
valid_range value unit n h =
    let exact = (threshold_to_bytes_exact value unit n).0 h in
    (ground arith, omega (arith, exact.0, exact.2))

-- The threshold that the decision uses lies between 1 KB and 64 GB, whatever the settings hold.
pub threshold_bytes_range :
    (s : Settings)
    → (min_threshold_bytes ≤ threshold_bytes s) × (threshold_bytes s ≤ max_threshold_bytes)
unfolding threshold_bytes is_valid
threshold_bytes_range s = go _ refl
  where
    go :
        (c : Converted)
        → threshold_to_bytes (sanitized s).threshold_value (sanitized s).threshold_unit ≡ c
        → (min_threshold_bytes ≤ threshold_bytes s) × (threshold_bytes s ≤ max_threshold_bytes)
    go (bytes n) e = rw (e, threshold_bytes) (valid_range _ _ n e)
    go (invalid message) e = absurd (false≢true (sym (rw (e, is_valid)) ∙ (sanitized-is_valid s).0))

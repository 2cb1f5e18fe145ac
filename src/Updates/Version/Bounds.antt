-- ===== src/Updates/Version/Bounds.antt =====
-- No component of a parsed version overflows (crates/openbc-ui-qt/cpp/home/release_logic.h).
use open_bc.Prelude.{
  ℕ, ◌+◌, ◌*◌, ◌-◌, ◌≤◌, min, Option, some, none, List, [], ◌∷◌, Text, map, arith, ◌≡◌, refl, sym,
}
use mathlib.Core.List.{map-append}
use open_bc.Updates.Version.{
  parse_version, scan, flush, push_digit, to_long, is_digit, move, Move, digit, dot, halt,
  max_component, skip_v,
}

-- A component with its next digit, with nothing cut off.
unfoldable pub append_digit : Option ℕ → ℕ → ℕ
append_digit none c = c - b'0'
append_digit (some n) c = n * 10 + (c - b'0')

-- The components of a text as unbounded numbers.
unfoldable pub exact_scan : Text → Option ℕ → List ℕ → List ℕ
exact_scan [] current parts = flush current parts
exact_scan (c ∷ s) current parts = elim (move current c) [
  | digit ↦ exact_scan s (some (append_digit current c)) parts
  | dot ↦ exact_scan s none (flush current parts)
  | halt ↦ flush current parts
]

unfoldable pub exact_version : Text → List ℕ
exact_version t = exact_scan (skip_v t) none []

-- A component, or 1,000,000 if it is greater.
abbrev pub clamped : ℕ → ℕ
clamped n = min n max_component

abbrev clamp_current : Option ℕ → Option ℕ
clamp_current none = none
clamp_current (some n) = some (clamped n)

move-clamp_current : (current : Option ℕ) (c : ℕ) → move (clamp_current current) c ≡ move current c
unfolding move
move-clamp_current none c = refl
move-clamp_current (some n) c = refl

digit_bound : (current : Option ℕ) (c : ℕ) → move current c ≡ digit → c ≤ b'9'
unfolding move is_digit
digit_bound none c e = ground (arith, e)
digit_bound (some n) c e = ground (arith, e)

push_digit-clamped :
    (current : Option ℕ) (c : ℕ)
    → move current c ≡ digit
    → push_digit (clamp_current current) c ≡ clamped (append_digit current c)
unfolding push_digit to_long append_digit
push_digit-clamped none c e = let h = digit_bound none c e in ground (arith, h)
push_digit-clamped (some n) c e = let h = digit_bound (some n) c e in ground (arith, h)

flush-clamped :
    (current : Option ℕ) (parts : List ℕ)
    → flush (clamp_current current) (map clamped parts) ≡ map clamped (flush current parts)
unfolding flush
flush-clamped none parts = refl
flush-clamped (some n) parts = sym (map-append clamped parts (n ∷ []))

scan-exact_scan :
    (s : Text) (current : Option ℕ) (parts : List ℕ)
    → scan s (clamp_current current) (map clamped parts) ≡ map clamped (exact_scan s current parts)
unfolding scan exact_scan
scan-exact_scan [] current parts = flush-clamped current parts
scan-exact_scan (c ∷ s) current parts = go (move current c) refl (scan-exact_scan s)
  where
    go :
        (m : Move)
        → move current c ≡ m
        → ((d : Option ℕ) (ps : List ℕ)
            → scan s (clamp_current d) (map clamped ps) ≡ map clamped (exact_scan s d ps))
        → scan (c ∷ s) (clamp_current current) (map clamped parts)
          ≡ map clamped (exact_scan (c ∷ s) current parts)
    go digit e rec =
        rw (move-clamp_current current c, e, scan, exact_scan, push_digit-clamped current c e)
          (rec (some (append_digit current c)) parts)
    go dot e rec =
        rw (move-clamp_current current c, e, scan, exact_scan, flush-clamped current parts)
          (rec none (flush current parts))
    go halt e rec =
        rw (move-clamp_current current c, e, scan, exact_scan) (flush-clamped current parts)

-- The components of a parsed version are the exact numbers of the text, with 1,000,000 for each that is
-- greater: however long a component is, no sum on the way to it is cut off to what a `long` of 32 bits
-- holds.
pub parse_version_exact : (t : Text) → parse_version t ≡ map clamped (exact_version t)
unfolding parse_version exact_version
parse_version_exact t = scan-exact_scan (skip_v t) none []

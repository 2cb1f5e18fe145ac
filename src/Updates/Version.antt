-- ===== src/Updates/Version.antt =====
-- `parseVersion` and `compareVersions` (crates/openbc-ui-qt/cpp/home/release_logic.h).
pub mod Bounds
pub mod RoundTrip
pub mod Order
use Prim.Native.Nat.{Ordering, compare}
use open_bc.Prelude.{
  ℕ, ◌+◌, ◌*◌, ◌-◌, ◌%◌, ◌^◌, Bool, true, false, ◌&&◌, ◌||◌, Option, some, none, List, [], ◌∷◌,
  ◌++◌, Text, leb, ltb, ◌==◌, if◌then◌else◌,
}

unfoldable pub is_digit : ℕ → Bool
is_digit c = leb b'0' c && leb c b'9'

-- A component too large is clamped, never overflows.
abbrev pub max_component : ℕ
max_component = 1000000

-- What a `long` holds of a sum: one of 32 bits, the smallest there is, has 31 for the value, and a sum
-- beyond them would come out wrong.
unfoldable pub to_long : ℕ → ℕ
to_long n = n % 2 ^ 31

-- `current` is -1 (`none`) while a component has no digit yet.
unfoldable pub push_digit : Option ℕ → ℕ → ℕ
push_digit current c =
    let v = to_long (elim current [ none ↦ 0 | some n ↦ n ] * 10 + (c - b'0')) in
    if ltb max_component v then max_component else v

unfoldable pub flush : Option ℕ → List ℕ → List ℕ
flush none parts = parts
flush (some n) parts = parts ++ n ∷ []

-- What the loop does with a character: it goes on with a new component value, closes the component,
-- or stops.
pub data Move : Type 0 where
  digit dot halt : Move

unfoldable pub move : Option ℕ → ℕ → Move
unfolding is_digit
move current c =
    if is_digit c
    then digit
    else if c == b'.'
    then (elim current [ none ↦ halt | some n ↦ dot ])
    else halt

unfoldable pub scan : Text → Option ℕ → List ℕ → List ℕ
scan [] current parts = flush current parts
scan (c ∷ s) current parts = elim (move current c) [
  | digit ↦ scan s (some (push_digit current c)) parts
  | dot ↦ scan s none (flush current parts)
  | halt ↦ flush current parts
]

unfoldable pub skip_v : Text → Text
skip_v [] = []
skip_v (c ∷ s) = if c == b'v' || c == b'V' then s else c ∷ s

unfoldable pub parse_version : Text → List ℕ
unfolding scan skip_v flush push_digit move
parse_version t = scan (skip_v t) none []

-- One component decides, unless it is equal.
unfoldable pub component : ℕ → ℕ → Ordering → Ordering
component l r rest = elim (compare l r) [
  | Ordering.lt ↦ Ordering.lt
  | Ordering.eq ↦ rest
  | Ordering.gt ↦ Ordering.gt
]

-- Missing trailing components count as 0.
unfoldable pub compare_parts : List ℕ → List ℕ → Ordering
unfolding component
compare_parts [] [] = Ordering.eq
compare_parts [] (r ∷ y) = component 0 r (compare_parts [] y)
compare_parts (l ∷ x) [] = component l 0 (compare_parts x [])
compare_parts (l ∷ x) (r ∷ y) = component l r (compare_parts x y)

unfoldable pub compare_versions : Text → Text → Ordering
compare_versions a b = compare_parts (parse_version a) (parse_version b)

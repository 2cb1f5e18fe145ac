-- ===== src/Cli/Parse/Validity.antt =====
-- What holds of a command line that parses without an error
-- (crates/openbc-ui-qt/cpp/app/cli_options.cpp).
use mathlib.Core.Bool.{false≢true}
use open_bc.Prelude.{
  ℕ, Option, some, none, Bool, true, false, ◌&&◌, ◌||◌, List, [], ◌∷◌, ◌++◌, Text, is_empty, negate,
  length, ltb, ◌≡◌, refl, sym, ap, ◌∙◌, arith, drop, Bool-cases, inl, inr,
}
use open_bc.Prelude.Qt.{Qt}
use open_bc.Cli.{LaunchRequest, kind_for_type, has_context_action}
use open_bc.Cli.Parse.{
  Round, stop, next, next_but_one, round, fail, positional, end_of_options, help, version,
  dependency, context, compare, compare_inline, unknown, Token, Outcome, returned, finished,
  run_arguments, checked_type, token, conclude, parse_launch_arguments, blank, value,
}

module _ (qt : Qt) where
  -- The comparison type is absent or known.
  recognised : LaunchRequest → Bool
  recognised r = is_empty r.compare_type || negate (is_empty (kind_for_type qt r.compare_type))

  -- A request inside the loop: no error yet, and no paths.
  record Running (r : LaunchRequest) : Type 0 where
    known : recognised r ≡ true
    no_left : r.left ≡ []
    no_right : r.right ≡ []

  -- An early return carries an error.
  abbrev Sound : Outcome → Type 0
  Sound (returned r) = is_empty r.error ≡ false
  Sound (finished r found) = Running r

  abbrev RoundSound : Round → Type 0
  RoundSound (stop r) = is_empty r.error ≡ false
  RoundSound (next d r found) = Running r
  RoundSound (next_but_one d r found) = Running r

  append-ne-nil : (s : Text) (c : ℕ) (t : Text) → is_empty (s ++ c ∷ t) ≡ false
  append-ne-nil [] c t = refl
  append-ne-nil (x ∷ s) c t = refl

  checked_type-Sound :
      (r : LaunchRequest) (type : Text) (go_on : Round)
      → (is_empty (kind_for_type qt type) ≡ false → RoundSound go_on)
      → RoundSound (checked_type qt r type go_on)
  unfolding checked_type fail
  checked_type-Sound r type go_on h = elim (Bool-cases (is_empty (kind_for_type qt type))) [
    | inl e ↦ rw e refl
    | inr e ↦ rw e (h e)
  ]

  typed-Running :
      (r : LaunchRequest) (type : Text)
      → Running r
      → is_empty (kind_for_type qt type) ≡ false
      → Running (record r { compare_type = type })
  unfolding recognised
  typed-Running r type h e = record {
    known = ground arith;
    no_left = h.no_left;
    no_right = h.no_right;
  }

  round-Sound :
      (t : Token) (a : Text) (b : Option Text) (d : Bool) (r : LaunchRequest) (found : List Text)
      → Running r
      → RoundSound (round qt t a b d r found)
  unfolding round fail recognised
  round-Sound positional a b d r found h = h
  round-Sound end_of_options a b d r found h = h
  round-Sound help a b d r found h = record {
    known = h.known;
    no_left = h.no_left;
    no_right = h.no_right;
  }
  round-Sound version a b d r found h = record {
    known = h.known;
    no_left = h.no_left;
    no_right = h.no_right;
  }
  round-Sound dependency a b d r found h = record {
    known = h.known;
    no_left = h.no_left;
    no_right = h.no_right;
  }
  round-Sound context a none d r found h = append-ne-nil a _ _
  round-Sound context a (some b) d r found h = record {
    known = h.known;
    no_left = h.no_left;
    no_right = h.no_right;
  }
  round-Sound compare a none d r found h = refl
  round-Sound compare a (some b) d r found h = checked_type-Sound r b _ (typed-Running r b h)
  round-Sound compare_inline a b d r found h =
      checked_type-Sound r (drop 10 a) _ (typed-Running r (drop 10 a) h)
  round-Sound unknown a b d r found h = refl

  run_arguments-Sound :
      (args : List Text) (d : Bool) (r : LaunchRequest) (found : List Text)
      → Running r
      → Sound (run_arguments qt args d r found)
  unfolding run_arguments
  run_arguments-Sound [] d r found h = h
  run_arguments-Sound (a ∷ []) d r found h = go _ refl (round-Sound (token d a) a none d r found h)
    where
      go :
          (s : Round)
          → round qt (token d a) a none d r found ≡ s
          → RoundSound (round qt (token d a) a none d r found)
          → Sound (run_arguments qt (a ∷ []) d r found)
      go (stop r') e k = rw (e, run_arguments) (rw e at k)
      go (next d' r' found') e k = rw (e, run_arguments) (rw e at k)
      go (next_but_one d' r' found') e k = rw (e, run_arguments) (rw e at k)
  run_arguments-Sound (a ∷ b ∷ rest) d r found h =
      go _ refl (round-Sound (token d a) a (some b) d r found h) (run_arguments-Sound (b ∷ rest))
        (run_arguments-Sound rest)
    where
      go :
          (s : Round)
          → round qt (token d a) a (some b) d r found ≡ s
          → RoundSound (round qt (token d a) a (some b) d r found)
          → ((d' : Bool) (r' : LaunchRequest) (f : List Text)
              → Running r'
              → Sound (run_arguments qt (b ∷ rest) d' r' f))
          → ((d' : Bool) (r' : LaunchRequest) (f : List Text)
              → Running r'
              → Sound (run_arguments qt rest d' r' f))
          → Sound (run_arguments qt (a ∷ b ∷ rest) d r found)
      go (stop r') e k one two = rw (e, run_arguments) (rw e at k)
      go (next d' r' f) e k one two = rw (e, run_arguments) (one d' r' f (rw e at k))
      go (next_but_one d' r' f) e k one two = rw (e, run_arguments) (two d' r' f (rw e at k))

  Running-blank : Running blank
  unfolding recognised blank
  Running-blank = record { known = refl; no_left = refl; no_right = refl }

-- A request that can be acted on: the type is absent or known, and a file-manager action stands
-- alone, with its path.
pub record IsLaunchable (qt : Qt) (r : LaunchRequest) : Type 0 where
  pub known :
      (is_empty r.compare_type || negate (is_empty (kind_for_type qt r.compare_type))) ≡ true
  pub alone :
      has_context_action r ≡ true
      → (r.left ≡ []) × (r.right ≡ []) × (is_empty r.context_path ≡ false)

no_paths :
    (found : List Text)
    → (negate (is_empty found)) ≡ false
    → (value found 0 ≡ []) × (value found 1 ≡ [])
unfolding value
no_paths [] h = (refl, refl)
no_paths (t ∷ ts) h = cc

IsLaunchable-paths :
    (qt : Qt) (r : LaunchRequest) (found : List Text)
    → Running qt r
    → (has_context_action r && (negate (is_empty found) || is_empty r.context_path)) ≡ false
    → IsLaunchable qt (record r { left = value found 0; right = value found 1 })
unfolding recognised has_context_action
IsLaunchable-paths qt r found s h = record {
  known = s.known;
  alone =
      λ acts. ((no_paths found (ground arith)).0, (no_paths found (ground arith)).1, ground arith);
}

conclude-IsLaunchable :
    (qt : Qt) (o : Outcome)
    → Sound qt o
    → (conclude qt o).error ≡ []
    → IsLaunchable qt (conclude qt o)
unfolding conclude
conclude-IsLaunchable qt (returned r) s h = absurd (false≢true (sym s ∙ ap is_empty h))
conclude-IsLaunchable qt (finished r found) s h =
    first (ltb 2 (length found)) refl
      (has_context_action r && (negate (is_empty found) || is_empty r.context_path)) refl
  where
    first :
        (b : Bool)
        → ltb 2 (length found) ≡ b
        → (c : Bool)
        → (has_context_action r && (negate (is_empty found) || is_empty r.context_path)) ≡ c
        → IsLaunchable qt (conclude qt (finished r found))
    first true many c e = absurd (false≢true (ap is_empty (rw many at h)))
    first false few true mixed = absurd (false≢true (ap is_empty (rw (few, mixed) at h)))
    first false few false clean = rw (few, clean) (IsLaunchable-paths qt r found s clean)

-- A command line that parses without an error can be acted on.
pub parse-IsLaunchable :
    (qt : Qt) (arguments : List Text)
    → (parse_launch_arguments qt arguments).error ≡ []
    → IsLaunchable qt (parse_launch_arguments qt arguments)
unfolding parse_launch_arguments
parse-IsLaunchable qt arguments h =
    conclude-IsLaunchable qt _ (run_arguments-Sound qt arguments false blank [] (Running-blank qt))
      h

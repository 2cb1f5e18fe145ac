-- ===== src/Cli/Parse.antt =====
-- `parseLaunchArguments` (crates/openbc-ui-qt/cpp/app/cli_options.cpp).
pub mod Validity
pub mod RoundTrip
use open_bc.Prelude.{
  ℕ, ◌+◌, Bool, true, false, ◌&&◌, ◌||◌, List, [], ◌∷◌, ◌++◌, Option, some, none, Text, codes, same,
  starts_with, is_empty, negate, length, drop, decimal, ltb, get_elem?, if◌then◌else◌,
}
use open_bc.Prelude.Qt.{Qt}
use open_bc.Cli.{LaunchRequest, kind_for_type, has_context_action}

-- What the tests of one round say that an argument is.
pub data Token : Type 0 where
  positional end_of_options help version dependency context compare compare_inline unknown : Token

is_context : Text → Bool
is_context a =
    same a (codes "--select-left-folder")
    || same a (codes "--compare-to-left-folder")
    || same a (codes "--select-left-file")
    || same a (codes "--compare-to-left-file")

unfoldable pub token : Bool → Text → Token
unfolding is_context
token options_done a =
    if options_done || negate (starts_with a (codes "-")) || same a (codes "-")
    then positional
    else if same a (codes "--")
    then end_of_options
    else if same a (codes "-h") || same a (codes "--help")
    then help
    else if same a (codes "--version")
    then version
    else if same a (codes "--dependency-check")
    then dependency
    else if is_context a
    then context
    else if starts_with a (codes "--compare=")
    then compare_inline
    else if same a (codes "--compare")
    then compare
    else unknown

-- The loop's result: the request so far with the positional arguments, or an early return.
pub data Outcome : Type 0 where
  returned : LaunchRequest → Outcome
  finished : LaunchRequest → List Text → Outcome

unfoldable pub blank : LaunchRequest
blank = record {
  left = [];
  right = [];
  compare_type = [];
  context_action = [];
  context_path = [];
  dependency_check = false;
  show_help = false;
  show_version = false;
  error = [];
}

abbrev pub needs_type : Text
needs_type = codes "--compare needs a type (folder, text, picture, 3d, table, registry, hex, media)"

-- `value(i)`: the empty text past the end.
unfoldable pub value : List Text → ℕ → Text
value ts i = elim (get_elem? ts i) [ none ↦ [] | some t ↦ t ]

-- What one round of the loop does: return, go on behind the argument, or behind the one after it.
pub data Round : Type 0 where
  stop : LaunchRequest → Round
  next next_but_one : Bool → LaunchRequest → List Text → Round

unfoldable pub fail : LaunchRequest → Text → Round
fail r message = stop (record r { error = message })

module _ (qt : Qt) where
  -- What follows the reading of a comparison type: go on, unless it is not recognised.
  unfoldable pub checked_type : LaunchRequest → Text → Round → Round
  checked_type r type go_on =
      if is_empty (kind_for_type qt type)
      then fail (record r { compare_type = type })
          (codes "unknown compare type '" ++ type ++ codes "'")
      else go_on

  -- The body of the loop, at argument `a`; `b` is the argument after it, if there is one.
  unfoldable pub round : Token → Text → Option Text → Bool → LaunchRequest → List Text → Round
  unfolding checked_type
  round positional a b d r found = next d r (found ++ a ∷ [])
  round end_of_options a b d r found = next true r found
  round help a b d r found = next d (record r { show_help = true }) found
  round version a b d r found = next d (record r { show_version = true }) found
  round dependency a b d r found = next d (record r { dependency_check = true }) found
  round context a none d r found = fail r (a ++ codes " needs a path")
  round context a (some b) d r found =
      next_but_one d (record r { context_action = drop 2 a; context_path = b }) found
  round compare a none d r found = fail r needs_type
  round compare a (some b) d r found =
      checked_type r b (next_but_one d (record r { compare_type = b }) found)
  round compare_inline a b d r found =
      checked_type r (drop 10 a) (next d (record r { compare_type = drop 10 a }) found)
  round unknown a b d r found = fail r (codes "unknown option '" ++ a ++ codes "' (see --help)")

  unfoldable pub run_arguments : List Text → Bool → LaunchRequest → List Text → Outcome
  run_arguments [] d r found = finished r found
  run_arguments (a ∷ []) d r found = elim (round (token d a) a none d r found) [
    | stop r' ↦ returned r'
    | next d' r' found' ↦ finished r' found'
    | next_but_one d' r' found' ↦ finished r' found'
  ]
  run_arguments (a ∷ b ∷ rest) d r found = elim (round (token d a) a (some b) d r found) [
    | stop r' ↦ returned r'
    | next d' r' found' ↦ run_arguments (b ∷ rest) d' r' found'
    | next_but_one d' r' found' ↦ run_arguments rest d' r' found'
  ]

  -- The checks behind the loop.
  unfoldable pub conclude : Outcome → LaunchRequest
  conclude (returned r) = r
  conclude (finished r found) =
      if ltb 2 (length found)
      then record r {
        error = codes "at most two paths can be given, got " ++ decimal (length found);
      }
      else if has_context_action r && (negate (is_empty found) || is_empty r.context_path)
      then record r { error = codes "a file-manager action needs exactly one path" }
      else record r { left = value found 0; right = value found 1 }

  unfoldable pub parse_launch_arguments : List Text → LaunchRequest
  parse_launch_arguments arguments = conclude (run_arguments arguments false blank [])

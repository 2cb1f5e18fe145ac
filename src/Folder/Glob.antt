-- ===== src/Folder/Glob.antt =====
-- Whether a mask can still match below a folder: the states of its automaton, run over the folder's path
-- (`globCanMatchPrefix` of crates/openbc-ui-qt/cpp/viewers/folder/folder_model.h).
pub mod Steps
pub mod Exact
use open_bc.Prelude.{
  ℕ, Bool, true, false, ◌&&◌, ◌||◌, negate, List, [], ◌∷◌, Text, ◌==◌, if◌then◌else◌,
}

-- A state behind an active star becomes active too. There is a state for each character and one more;
-- one that is not in the list is inactive.
unfoldable pub close_stars : Text → List Bool → List Bool
close_stars [] states = states
close_stars (p ∷ ps) [] = []
close_stars (p ∷ ps) (s ∷ []) = s ∷ close_stars ps ((s && p == b'*') ∷ [])
close_stars (p ∷ ps) (s ∷ t ∷ states) = s ∷ close_stars ps ((t || (s && p == b'*')) ∷ states)

-- Only the first of the states, one more than there are characters, is active.
unfoldable pub no_states : Text → List Bool
no_states [] = []
no_states (p ∷ ps) = false ∷ no_states ps

unfoldable pub first_state : Text → List Bool
first_state pattern = true ∷ no_states pattern

unfoldable pub any_active : List Bool → Bool
any_active [] = false
any_active (s ∷ states) = s || any_active states

-- `QChar::toCaseFolded`.
module _ (fold : ℕ → ℕ) where
  unfoldable pub reads : ℕ → ℕ → Bool
  reads p c = p == b'?' || fold p == fold c

  -- The states after one character; `entered` says whether the first one was entered from before.
  unfoldable pub advance : Text → List Bool → ℕ → Bool → List Bool
  advance [] states c entered = entered ∷ []
  advance (p ∷ ps) [] c entered = entered ∷ []
  advance (p ∷ ps) (s ∷ states) c entered =
      (entered || (s && p == b'*')) ∷ advance ps states c (s && (negate (p == b'*') && reads p c))

  unfoldable pub run_states : Text → List Bool → Text → List Bool
  run_states pattern states [] = states
  run_states pattern states (c ∷ prefix) =
      run_states pattern (close_stars pattern (advance pattern states c false)) prefix

  unfoldable pub glob_can_match_prefix : Text → Text → Bool
  glob_can_match_prefix pattern prefix =
      any_active (run_states pattern (close_stars pattern (first_state pattern)) prefix)

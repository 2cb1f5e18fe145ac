-- ===== src/Sessions/Names.antt =====
-- The names of saved nodes, which become paths below the directory of saved sessions
-- (crates/openbc-ui-qt/cpp/home/session_history.h).
pub mod Parts
pub mod Safety
use mathlib.Core.List.{map}
use open_bc.Prelude.{
  ℕ, Bool, ◌||◌, negate, List, [], ◌∷◌, ◌++◌, ◌==◌, Text, codes, is_empty, same, has_char, select,
  if◌then◌else◌,
}
use open_bc.Prelude.Qt.{Qt}

-- A character in front of the first piece.
unfoldable pub extend : ℕ → List Text → List Text
extend c [] = (c ∷ []) ∷ []
extend c (w ∷ ws) = (c ∷ w) ∷ ws

-- `t.split(p)`, with the empty pieces.
unfoldable pub cut : (ℕ → Bool) → Text → List Text
unfolding extend
cut p [] = [] ∷ []
cut p (c ∷ t) = let rest = cut p t in if p c then [] ∷ rest else extend c rest

-- `t.split(p, Qt::SkipEmptyParts)`.
unfoldable pub split_skip : (ℕ → Bool) → Text → List Text
split_skip p t = select (λ (w : Text). negate (is_empty w)) (cut p t)

unfoldable pub is_slash : ℕ → Bool
is_slash c = b'/' == c

unfoldable pub is_separator : ℕ → Bool
is_separator c = (b'/' == c) || (b'\\' == c)

-- `t.replace(a, b)` for two characters.
unfoldable pub replace : ℕ → ℕ → Text → Text
replace a b t = map (λ c. if a == c then b else c) t

-- `.` and `..` would leave the directory.
unfoldable pub is_skipped : Text → Bool
is_skipped t = is_empty t || same t (codes ".") || same t (codes "..")

unfoldable pub join_path : List Text → Text
join_path [] = []
join_path (w ∷ []) = w
join_path (w ∷ v ∷ ws) = w ++ b'/' ∷ join_path (v ∷ ws)

module _ (qt : Qt) where
  open qt use {trimmed}

  -- The loop of `cleanNodeName`.
  unfoldable pub clean_parts : List Text → List Text
  unfolding is_skipped replace
  clean_parts [] = []
  clean_parts (w ∷ ws) =
      let part = trimmed w in
      let rest = clean_parts ws in
      if is_skipped part then rest else replace b'\\' b'_' (replace b'/' b'_' part) ∷ rest

  unfoldable pub clean_node_name : Text → Text
  clean_node_name value = join_path (clean_parts (split_skip is_separator (trimmed value)))

  unfoldable pub append_node : Text → Text → Text
  append_node parent name =
      let child = trimmed name in
      let parent_path = clean_node_name parent in
      if is_empty child
        || has_char b'/' child
        || has_char b'\\' child
        || same child (codes ".")
        || same child (codes "..")
      then []
      else if is_empty parent_path
      then child
      else parent_path ++ b'/' ∷ child

-- ===== src/Folder/Filter.antt =====
-- Name masks (`NameFilter` of crates/openbc-ui-qt/cpp/viewers/folder/folder_model.h).
pub mod Plain
pub mod Descent
use open_bc.Prelude.{
  ℕ, Bool, true, false, ◌&&◌, ◌||◌, negate, Option, some, none, List, [], ◌∷◌, ◌++◌, ◌==◌, Text,
  codes, is_empty, same, has_char, starts_with, ends_with, ◌≡◌, if◌then◌else◌,
}
use open_bc.Prelude.Qt.{Qt}
use open_bc.Sessions.Names.{replace, split_skip}
use open_bc.Folder.Wildcard.{Wildcard, is_plain_mask}
use open_bc.Folder.Glob.{glob_can_match_prefix}

-- What Qt does with masks: `QChar::toCaseFolded`, and whether the regular expression for a mask matches
-- a text, without regard to case. A match of a mask without sets and
-- backslashes is as documented.
pub record Masks : Type 0 where
  pub fold : ℕ → ℕ
  pub wildcard_match : Text → Text → Bool
  pub wildcard_match_sound :
      (mask t : Text)
      → is_plain_mask mask ≡ true
      → wildcard_match mask t ≡ true
      → Wildcard fold mask t

pub record Pattern : Type 0 where
  pub text : Text
  pub is_path : Bool

pub record NameFilter : Type 0 where
  pub match_all : Bool
  pub patterns : List Pattern

unfoldable pub everything : NameFilter
everything = record { match_all = true; patterns = [] }

-- A semicolon or a line end.
unfoldable pub is_break : ℕ → Bool
is_break c = c == b';' || c == 10 || c == 13

unfoldable pub strip_slashes : Text → Text
strip_slashes [] = []
strip_slashes (c ∷ t) = let rest = strip_slashes t in if c == b'/' then rest else c ∷ t

unfoldable pub all_star : Text → Text
all_star t = if same t (codes "*.*") then codes "*" else t

-- A name without wildcards matches as a part of a name.
unfoldable pub widened : Bool → Text → Text
widened is_path t =
    if negate is_path && negate (has_char b'*' t) && negate (has_char b'?' t)
    then b'*' ∷ t ++ b'*' ∷ []
    else t

unfoldable pub pattern_of : Text → Pattern
pattern_of token =
    let is_path = has_char b'/' token || has_char b'\\' token in
    record {
      text = all_star (widened is_path (strip_slashes (replace b'\\' b'/' token)));
      is_path = is_path;
    }

-- What follows the last slash.
unfoldable pub last_part : Text → Text → Text
last_part t [] = t
last_part t (c ∷ s) = if c == b'/' then last_part s s else last_part t s

unfoldable pub with_slash : Text → Text
with_slash t = if negate (is_empty t) && negate (ends_with t (codes "/")) then t ++ b'/' ∷ [] else t

module _ (qt : Qt) where
  -- The loop over the tokens; `none` if one of them stands for everything.
  unfoldable pub parse_tokens : List Text → Option (List Pattern)
  parse_tokens [] = some []
  parse_tokens (w ∷ ws) =
      let token = qt.trimmed w in
      let rest = parse_tokens ws in
      if is_empty token
      then rest
      else if same token (codes "*") || same token (codes "*.*")
      then none
      else elim rest [ none ↦ none | some patterns ↦ some (pattern_of token ∷ patterns) ]

  unfoldable pub filter_of : Bool → Option (List Pattern) → NameFilter
  filter_of empty_matches_all none = everything
  filter_of empty_matches_all (some []) = record { match_all = empty_matches_all; patterns = [] }
  filter_of empty_matches_all (some (p ∷ ps)) = record { match_all = false; patterns = p ∷ ps }

  pub parse_filter : Text → Bool → NameFilter
  parse_filter text empty_matches_all =
      filter_of empty_matches_all (parse_tokens (split_skip is_break text))

module _ (masks : Masks) where
  open masks use {fold, wildcard_match}

  unfoldable pub any_pattern : (Pattern → Bool) → List Pattern → Bool
  any_pattern test [] = false
  any_pattern test (p ∷ ps) = test p || any_pattern test ps

  unfoldable pub matches_path : Text → Pattern → Bool
  matches_path normalized p =
      wildcard_match p.text (if p.is_path then normalized else last_part normalized normalized)

  unfoldable pub filter_matches : NameFilter → Text → Bool
  filter_matches f relative_path =
      f.match_all || any_pattern (matches_path (replace b'\\' b'/' relative_path)) f.patterns

  unfoldable pub can_match_below : Text → Pattern → Bool
  can_match_below prefix p = p.is_path && glob_can_match_prefix fold p.text prefix

  pub matches_or_has_matching_descendant : NameFilter → Text → Bool
  matches_or_has_matching_descendant f relative_path =
      filter_matches f relative_path
      || any_pattern (can_match_below (with_slash (replace b'\\' b'/' relative_path))) f.patterns

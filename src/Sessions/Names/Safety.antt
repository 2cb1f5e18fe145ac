-- ===== src/Sessions/Names/Safety.antt =====
-- The path of a node stays below the directory of saved sessions
-- (crates/openbc-ui-qt/cpp/home/session_history.h).
use open_bc.Prelude.{
  ℕ, Bool, true, false, ◌||◌, negate, List, [], ◌∷◌, ◌++◌, Text, codes, is_empty, has_char, same,
  select, if◌then◌else◌, All, All-append, All-select, ◌≡◌, refl, arith, Bool-cases, inl, inr,
}
use open_bc.Prelude.Qt.{Qt}
use open_bc.Files.SessionKind.Canonical.{if_both}
use open_bc.Sessions.Names.{
  split_skip, cut, is_slash, is_separator, replace, is_skipped, clean_parts, clean_node_name,
  append_node,
}
use open_bc.Sessions.Names.Parts.{
  IsPiece, Lacks, cut-Lacks, split_skip-append, split_skip_piece, split_skip-join_path,
}

-- A part of a path that stays in the directory: neither empty nor `.` nor `..`, and without a
-- slash or a backslash.
pub record IsSafe (w : Text) : Type 0 where
  pub named : is_skipped w ≡ false
  pub no_slash : has_char b'/' w ≡ false
  pub no_backslash : has_char b'\\' w ≡ false

replace-lacks : (a b : ℕ) (t : Text) → has_char a t ≡ false → replace a b t ≡ t
unfolding replace has_char
replace-lacks a b [] h = refl
replace-lacks a b (c ∷ t) h = ground (arith, replace-lacks a b t)

safe-IsPiece : (w : Text) → IsSafe w → IsPiece w
unfolding IsPiece is_skipped
safe-IsPiece w s = (ground (arith, s.named), s.no_slash)

pieces : (ws : List Text) → All IsSafe ws → All IsPiece ws
pieces [] h = tt
pieces (w ∷ ws) h = (safe-IsPiece w (h.0), pieces ws (h.1))

module _ (qt : Qt) where
  clean_parts-IsSafe : (ws : List Text) → All Lacks ws → All IsSafe (clean_parts qt ws)
  unfolding clean_parts Lacks
  clean_parts-IsSafe [] h = tt
  clean_parts-IsSafe (w ∷ ws) h = elim (Bool-cases (is_skipped (qt.trimmed w))) [
    | inl skipped ↦ rw skipped (clean_parts-IsSafe ws (h.1))
    | inr kept ↦
        rw
          (
            kept,
            replace-lacks b'/' b'_' (qt.trimmed w) (qt.trimmed_lacks b'/' w (h.0.0)),
            replace-lacks b'\\' b'_' (qt.trimmed w) (qt.trimmed_lacks b'\\' w (h.0.1)),
          )
          (
            record {
              named = kept;
              no_slash = qt.trimmed_lacks b'/' w (h.0.0);
              no_backslash = qt.trimmed_lacks b'\\' w (h.0.1);
            },
            clean_parts-IsSafe ws (h.1),
          )
  ]

  split-IsSafe : (t : Text) → All IsSafe (clean_parts qt (split_skip is_separator t))
  unfolding split_skip
  split-IsSafe t =
      clean_parts-IsSafe (select (λ (w : Text). negate (is_empty w)) (cut is_separator t))
        (All-select Lacks (λ (w : Text). negate (is_empty w)) (cut is_separator t) (cut-Lacks t))

-- Whatever the user types as the name of a node, every part of the path that it becomes is safe.
pub clean_node_name-IsSafe :
    (qt : Qt) (value : Text) → All IsSafe (split_skip is_slash (clean_node_name qt value))
unfolding clean_node_name
clean_node_name-IsSafe qt value =
    rw
      (split_skip-join_path (clean_parts qt (split_skip is_separator (qt.trimmed value))) (
        pieces (clean_parts qt (split_skip is_separator (qt.trimmed value)))
          (split-IsSafe qt (qt.trimmed value))))
      (split-IsSafe qt (qt.trimmed value))

child-IsSafe :
    (w : Text)
    → (is_empty w
        || has_char b'/' w
        || has_char b'\\' w
        || same w (codes ".")
        || same w (codes ".."))
      ≡ false
    → IsSafe w
unfolding is_skipped
child-IsSafe w h = record {
  named = ground (arith, h);
  no_slash = ground (arith, h);
  no_backslash = ground (arith, h);
}

piece-IsSafe : (w : Text) → IsSafe w → All IsSafe (split_skip is_slash w)
piece-IsSafe w s = rw (split_skip_piece w (safe-IsPiece w s)) (s, tt)

none-IsSafe : All IsSafe (split_skip is_slash [])
unfolding split_skip cut
none-IsSafe = tt

-- Whatever the parent and the name of a node that is made or renamed, every part of the path that it
-- gets is safe; a name that is refused gives the empty path, which has no part.
pub append_node-IsSafe :
    (qt : Qt) (parent name : Text) → All IsSafe (split_skip is_slash (append_node qt parent name))
unfolding append_node
append_node-IsSafe qt parent name = go _ refl
  where
    go :
        (b : Bool)
        → (is_empty (qt.trimmed name)
            || has_char b'/' (qt.trimmed name)
            || has_char b'\\' (qt.trimmed name)
            || same (qt.trimmed name) (codes ".")
            || same (qt.trimmed name) (codes ".."))
          ≡ b
        → All IsSafe (
            split_skip is_slash (
              if b
              then []
              else if is_empty (clean_node_name qt parent)
              then qt.trimmed name
              else clean_node_name qt parent ++ b'/' ∷ qt.trimmed name))
    go true e = none-IsSafe
    go false e =
        if_both (λ t. All IsSafe (split_skip is_slash t)) (is_empty (clean_node_name qt parent))
          (piece-IsSafe (qt.trimmed name) (child-IsSafe (qt.trimmed name) e))
          (rw (split_skip-append (clean_node_name qt parent) (qt.trimmed name)) (
            All-append IsSafe (split_skip is_slash (clean_node_name qt parent))
              (split_skip is_slash (qt.trimmed name)) (clean_node_name-IsSafe qt parent)
              (piece-IsSafe (qt.trimmed name) (child-IsSafe (qt.trimmed name) e))))

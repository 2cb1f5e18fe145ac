-- ===== src/Sessions/Names/Parts.antt =====
-- Splitting a path at its slashes (crates/openbc-ui-qt/cpp/home/session_history.h).
use open_bc.Prelude.{
  ℕ, Bool, true, false, List, [], ◌∷◌, ◌++◌, Text, is_empty, has_char, select-append, if◌then◌else◌,
  All, ◌≡◌, ◌⊎◌, refl, ap, ap₂, ◌∙◌, arith, Bool-cases, inl, inr,
}
use open_bc.Sessions.Names.{extend, cut, split_skip, is_slash, is_separator, join_path}

-- A piece of a path: not empty, and without a slash.
unfoldable pub IsPiece : Text → Type 0
IsPiece w = (is_empty w ≡ false) × (has_char b'/' w ≡ false)

cut_piece : (w : Text) → has_char b'/' w ≡ false → cut is_slash w ≡ w ∷ []
unfolding cut extend is_slash has_char
cut_piece [] h = refl
cut_piece (c ∷ w) h = ground (arith, cut_piece w)

-- A text has at least one piece.
cut-cons : (t : Text) → (w : Text) × (ws : List Text) × (cut is_slash t ≡ w ∷ ws)
unfolding cut extend
cut-cons [] = ([], [], refl)
cut-cons (c ∷ t) = go (is_slash c) (cut-cons t)
  where
    go :
        (b : Bool)
        → ((w : Text) × (ws : List Text) × (cut is_slash t ≡ w ∷ ws))
        → (w : Text) × (ws : List Text) × ((if b
              then [] ∷ cut is_slash t
              else extend c (cut is_slash t))
            ≡ w ∷ ws)
    go true ih = ([], cut is_slash t, refl)
    go false (w, ws, e) = (c ∷ w, ws, ap (extend c) e)

extend-append :
    (c : ℕ) (w : Text) (ws vs : List Text) → extend c ((w ∷ ws) ++ vs) ≡ extend c (w ∷ ws) ++ vs
unfolding extend
extend-append c w ws vs = refl

cut-append : (s t : Text) → cut is_slash (s ++ b'/' ∷ t) ≡ cut is_slash s ++ cut is_slash t
unfolding cut is_slash
cut-append [] t = refl
cut-append (c ∷ s) t = go (Bool-cases (is_slash c)) (cut-cons s) (cut-append s t)
  where
    go :
        (is_slash c ≡ true) ⊎ (is_slash c ≡ false)
        → ((w : Text) × (ws : List Text) × (cut is_slash s ≡ w ∷ ws))
        → cut is_slash (s ++ b'/' ∷ t) ≡ cut is_slash s ++ cut is_slash t
        → cut is_slash ((c ∷ s) ++ b'/' ∷ t) ≡ cut is_slash (c ∷ s) ++ cut is_slash t
    go (inl e) _ ih = rw e (ap (λ (l : List Text). [] ∷ l) ih)
    go (inr e) (w, ws, f) ih = rw (e, ih, f) (extend-append c w ws (cut is_slash t))

-- The parts of a path with a slash inside are those before it and those behind it.
pub split_skip-append :
    (s t : Text)
    → split_skip is_slash (s ++ b'/' ∷ t) ≡ split_skip is_slash s ++ split_skip is_slash t
unfolding split_skip
split_skip-append s t = rw (cut-append s t) (select-append _ (cut is_slash s) (cut is_slash t))

pub split_skip_piece : (w : Text) → IsPiece w → split_skip is_slash w ≡ w ∷ []
unfolding split_skip IsPiece
split_skip_piece w h = rw (cut_piece w (h.1), h.0) refl

-- Pieces that are joined are found again, also with one more behind them.
pub split_skip-join_path :
    (ws : List Text) → All IsPiece ws → split_skip is_slash (join_path ws) ≡ ws
unfolding join_path
split_skip-join_path [] h = unfold split_skip cut in refl
split_skip-join_path (w ∷ []) h = split_skip_piece w (h.0)
split_skip-join_path (w ∷ v ∷ ws) h =
    split_skip-append w (join_path (v ∷ ws))
    ∙ ap₂ (λ (k l : List Text). k ++ l) (split_skip_piece w (h.0))
        (split_skip-join_path (v ∷ ws) (h.1))

-- No separator is in the text.
unfoldable pub Lacks : Text → Type 0
Lacks w = (has_char b'/' w ≡ false) × (has_char b'\\' w ≡ false)

extend-Lacks :
    (c : ℕ) (ws : List Text) → is_separator c ≡ false → All Lacks ws → All Lacks (extend c ws)
unfolding extend is_separator has_char Lacks
extend-Lacks c [] e h = ground (arith, h)
extend-Lacks c (w ∷ ws) e ((no_slash, no_backslash), h) =
    ((ground (arith, no_slash), ground (arith, no_backslash)), h)

-- What a split leaves has no separator.
pub cut-Lacks : (t : Text) → All Lacks (cut is_separator t)
unfolding cut has_char Lacks
cut-Lacks [] = ((refl, refl), tt)
cut-Lacks (c ∷ t) = go (is_separator c) refl (cut-Lacks t)
  where
    go :
        (b : Bool)
        → is_separator c ≡ b
        → All Lacks (cut is_separator t)
        → All Lacks (if b then [] ∷ cut is_separator t else extend c (cut is_separator t))
    go true e h = ((refl, refl), h)
    go false e h = extend-Lacks c (cut is_separator t) e h

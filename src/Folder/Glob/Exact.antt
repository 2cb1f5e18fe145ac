-- ===== src/Folder/Glob/Exact.antt =====
-- The automaton against what it reads
-- (crates/openbc-ui-qt/cpp/viewers/folder/folder_model.h).
use mathlib.Core.Bool.{false≢true}
use open_bc.Prelude.{
  ℕ, Bool, true, false, ◌&&◌, ◌||◌, List, [], ◌∷◌, ◌++◌, Text, length, suc, ◌≤◌, ◌==◌, ◌≡◌, ◌⊎◌,
  ◌↔◌, inl, inr, refl, sym, arith, Bool-cases,
}
use open_bc.Folder.Glob.Steps.{
  IsRead, finished, sample, Live, IsClosed, Live-close_stars, close_stars-Live,
  close_stars-IsClosed, Live-here, Live-head, Live-advance, advance-Live,
}
use open_bc.Folder.Glob.{
  close_stars, no_states, first_state, any_active, advance, run_states, glob_can_match_prefix,
}

length-close_stars :
    (ps : Text) (states : List Bool)
    → length states ≤ suc (length ps)
    → length (close_stars ps states) ≤ suc (length ps)
unfolding close_stars
length-close_stars [] states h = h
length-close_stars (p ∷ ps) [] h = omega arith
length-close_stars (p ∷ ps) (s ∷ []) h =
    omega (arith, length-close_stars ps ((s && p == b'*') ∷ []) (omega arith))
length-close_stars (p ∷ ps) (s ∷ t ∷ states) h =
    omega (arith, length-close_stars ps ((t || (s && p == b'*')) ∷ states) (omega (arith, h)))

length-first_state : (ps : Text) → length (first_state ps) ≤ suc (length ps)
unfolding first_state no_states
length-first_state [] = omega arith
length-first_state (p ∷ ps) = omega (arith, length-first_state ps)

module _ (fold : ℕ → ℕ) where
  Live-run_states :
      (ps : Text) (states : List Bool) (w t : Text)
      → IsClosed fold ps states
      → Live fold ps states (w ++ t)
      → Live fold ps (run_states fold ps states w) t
  unfolding run_states
  Live-run_states ps states [] t k l = l
  Live-run_states ps states (c ∷ w) t k l =
      Live-run_states ps (close_stars ps (advance fold ps states c false)) w t
        (close_stars-IsClosed fold ps (advance fold ps states c false))
        (Live-close_stars fold ps (advance fold ps states c false) (w ++ t)
          (Live-advance fold ps states c false (w ++ t) k (inr l)))

  run_states-Live :
      (ps : Text) (states : List Bool) (w t : Text)
      → Live fold ps (run_states fold ps states w) t
      → Live fold ps states (w ++ t)
  unfolding run_states
  run_states-Live ps states [] t l = l
  run_states-Live ps states (c ∷ w) t l = entered (
      advance-Live fold ps states c false (w ++ t) (
        close_stars-Live fold ps (advance fold ps states c false) (w ++ t)
          (run_states-Live ps (close_stars ps (advance fold ps states c false)) w t l)))
    where
      entered :
          ((false ≡ true) × IsRead fold ps (w ++ t)) ⊎ Live fold ps states (c ∷ (w ++ t))
          → Live fold ps states (c ∷ (w ++ t))
      entered (inl (e, m)) = absurd (false≢true e)
      entered (inr k) = k

  no_states-Live {ℓ} : {A : Type ℓ} (ps t : Text) → Live fold ps (false ∷ no_states ps) t → A
  unfolding Live no_states
  no_states-Live [] t (e, m) = absurd (false≢true e)
  no_states-Live (p ∷ ps) t (inl (e, m)) = absurd (false≢true e)
  no_states-Live (p ∷ ps) t (inr l) = no_states-Live ps t l

  first_state-Live : (ps t : Text) → Live fold ps (first_state ps) t → IsRead fold ps t
  unfolding first_state
  first_state-Live ps t l = back (Live-head fold ps true (no_states ps) t l)
    where
      back :
          ((true ≡ true) × IsRead fold ps t) ⊎ ((y : Bool) → Live fold ps (y ∷ no_states ps) t)
          → IsRead fold ps t
      back (inl (e, m)) = m
      back (inr k) = no_states-Live ps t (k false)

  length-advance :
      (ps : Text) (states : List Bool) (c : ℕ) (e : Bool)
      → length (advance fold ps states c e) ≤ suc (length ps)
  unfolding advance
  length-advance [] states c e = omega arith
  length-advance (p ∷ ps) [] c e = omega arith
  length-advance (p ∷ ps) (s ∷ states) c e = omega (arith, length-advance ps states c _)

  length-run_states :
      (ps : Text) (states : List Bool) (w : Text)
      → length states ≤ suc (length ps)
      → length (run_states fold ps states w) ≤ suc (length ps)
  unfolding run_states
  length-run_states ps states [] h = h
  length-run_states ps states (c ∷ w) h =
      length-run_states ps (close_stars ps (advance fold ps states c false)) w
        (length-close_stars ps (advance fold ps states c false) (length-advance ps states c false))

  -- An active state reads on to the end of the mask, since something can be read to it.
  any_active-Live :
      (ps : Text) (states : List Bool)
      → length states ≤ suc (length ps)
      → any_active states ≡ true
      → (t : Text) × Live fold ps states t
  unfolding any_active Live
  any_active-Live ps [] h a = absurd (false≢true a)
  any_active-Live [] (s ∷ []) h a = ([], (ground (arith, a), finished))
  any_active-Live [] (s ∷ u ∷ states) h a = absurd (omega (arith, h))
  any_active-Live (p ∷ ps) (s ∷ states) h a = elim (Bool-cases s) [
    | inl e ↦ let (t, m) = sample fold (p ∷ ps) in (t, inl (e, m))
    | inr e ↦
        let (t, l) = any_active-Live ps states (omega (arith, h)) (ground (arith, a, e)) in
        (t, inr l)
  ]

  Live-any_active :
      (ps : Text) (states : List Bool) (t : Text) → Live fold ps states t → any_active states ≡ true
  unfolding any_active Live
  Live-any_active [] [] t l = absurd (false≢true (sym l))
  Live-any_active [] (s ∷ states) t (e, m) = ground (arith, e)
  Live-any_active (p ∷ ps) [] t l = absurd (false≢true (sym l))
  Live-any_active (p ∷ ps) (s ∷ states) t (inl (e, m)) = ground (arith, e)
  Live-any_active (p ∷ ps) (s ∷ states) t (inr l) = ground (arith, Live-any_active ps states t l)

-- The automaton accepts a folder's path exactly if it reads some continuation of the path.
pub glob_can_match_prefix_iff :
    (fold : ℕ → ℕ) (pattern prefix : Text)
    → (glob_can_match_prefix fold pattern prefix ≡ true)
      ↔ ((t : Text) × IsRead fold pattern (prefix ++ t))
unfolding glob_can_match_prefix
glob_can_match_prefix_iff fold pattern prefix = (to, from)
  where
    start : List Bool
    start = close_stars pattern (first_state pattern)

    to :
        any_active (run_states fold pattern start prefix) ≡ true
        → (t : Text) × IsRead fold pattern (prefix ++ t)
    to a =
        let (t, l) =
          any_active-Live fold pattern (run_states fold pattern start prefix)
            (length-run_states fold pattern start prefix
              (length-close_stars pattern (first_state pattern) (length-first_state pattern)))
            a in
        (
          t,
          first_state-Live fold pattern (prefix ++ t) (
              close_stars-Live fold pattern (first_state pattern) (prefix ++ t)
                (run_states-Live fold pattern start prefix t l)),
        )

    from :
        ((t : Text) × IsRead fold pattern (prefix ++ t))
        → any_active (run_states fold pattern start prefix) ≡ true
    from (t, m) = Live-any_active fold pattern (run_states fold pattern start prefix) t (
        Live-run_states fold pattern start prefix t
          (close_stars-IsClosed fold pattern (first_state pattern))
          (Live-close_stars fold pattern (first_state pattern) (prefix ++ t) (first_state-here m)))
      where
        first_state-here :
            IsRead fold pattern (prefix ++ t)
            → Live fold pattern (first_state pattern) (prefix ++ t)
        first_state-here n =
            unfold first_state in
            Live-here fold pattern true (no_states pattern) (prefix ++ t) refl n

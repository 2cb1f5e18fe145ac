-- ===== src/Folder/Glob/Steps.antt =====
-- What the automaton of a mask reads, and what a step of the automaton does
-- (crates/openbc-ui-qt/cpp/viewers/folder/folder_model.h).
use mathlib.Core.Bool.{false≢true}
use open_bc.Prelude.{
  ℕ, Bool, true, false, ◌&&◌, ◌||◌, negate, List, [], ◌∷◌, Text, ◌==◌, ◌≡◌, ◌⊎◌, inl, inr, sym,
  arith, Bool-cases,
}
use open_bc.Folder.Glob.{close_stars, reads, advance}

module _ (fold : ℕ → ℕ) where
  -- What the automaton reads: a star any text, a question mark any character, and another character,
  -- a bracket too, itself up to case. It reads slashes where a match by Qt does not.
  pub data IsRead : Text → Text → Type 0 where
    finished : IsRead [] []
    star_ends : {p : ℕ} {ps t : Text} → (p == b'*') ≡ true → IsRead ps t → IsRead (p ∷ ps) t
    star_reads :
        {p c : ℕ} {ps t : Text} → (p == b'*') ≡ true → IsRead (p ∷ ps) t → IsRead (p ∷ ps) (c ∷ t)
    one_reads :
        {p c : ℕ} {ps t : Text}
        → (p == b'*') ≡ false
        → reads fold p c ≡ true
        → IsRead ps t
        → IsRead (p ∷ ps) (c ∷ t)

  -- A text that the automaton of a mask reads.
  pub sample : (ps : Text) → (t : Text) × IsRead ps t
  unfolding reads
  sample [] = ([], finished)
  sample (p ∷ ps) = elim (Bool-cases (p == b'*')) [
    | inl e ↦ let (t, m) = sample ps in (t, star_ends e m)
    | inr e ↦ let (t, m) = sample ps in (p ∷ t, one_reads e (ground arith) m)
  ]

  -- From an active state the automaton reads the text to the end of the mask.
  unfoldable pub Live : Text → List Bool → Text → Type 0
  Live ps [] t = true ≡ false
  Live [] (s ∷ states) t = (s ≡ true) × IsRead [] t
  Live (p ∷ ps) (s ∷ states) t = ((s ≡ true) × IsRead (p ∷ ps) t) ⊎ Live ps states t

  -- What a star leaves without reading is active.
  unfoldable pub IsClosed : Text → List Bool → Type 0
  IsClosed [] states = Unit
  IsClosed (p ∷ ps) [] = Unit
  IsClosed (p ∷ ps) (s ∷ []) = s ≡ true → (p == b'*') ≡ true → true ≡ false
  IsClosed (p ∷ ps) (s ∷ t ∷ states) =
      (s ≡ true → (p == b'*') ≡ true → t ≡ true) × IsClosed ps (t ∷ states)

  pub close_stars-IsClosed : (ps : Text) (states : List Bool) → IsClosed ps (close_stars ps states)
  unfolding IsClosed close_stars
  close_stars-IsClosed [] states = tt
  close_stars-IsClosed (p ∷ ps) [] = tt
  close_stars-IsClosed (p ∷ []) (s ∷ []) = ((λ e f. ground (arith, e, f)), tt)
  close_stars-IsClosed (p ∷ []) (s ∷ t ∷ states) = ((λ e f. ground (arith, e, f)), tt)
  close_stars-IsClosed (p ∷ q ∷ ps) (s ∷ []) =
      ((λ e f. ground (arith, e, f)), close_stars-IsClosed (q ∷ ps) ((s && p == b'*') ∷ []))
  close_stars-IsClosed (p ∷ q ∷ ps) (s ∷ t ∷ []) =
      ((λ e f. ground (arith, e, f)), close_stars-IsClosed (q ∷ ps) ((t || (s && p == b'*')) ∷ []))
  close_stars-IsClosed (p ∷ q ∷ ps) (s ∷ t ∷ u ∷ states) = (
    (λ e f. ground (arith, e, f)),
    close_stars-IsClosed (q ∷ ps) ((t || (s && p == b'*')) ∷ u ∷ states),
  )

  pub Live-here :
      (ps : Text) (x : Bool) (states : List Bool) (t : Text)
      → x ≡ true
      → IsRead ps t
      → Live ps (x ∷ states) t
  unfolding Live
  Live-here [] x states t e m = (e, m)
  Live-here (p ∷ ps) x states t e m = inl (e, m)

  -- Either the first state is the active one, or it does not matter.
  pub Live-head :
      (ps : Text) (x : Bool) (states : List Bool) (t : Text)
      → Live ps (x ∷ states) t
      → ((x ≡ true) × IsRead ps t) ⊎ ((y : Bool) → Live ps (y ∷ states) t)
  unfolding Live
  Live-head [] x states t l = inl l
  Live-head (p ∷ ps) x states t (inl l) = inl l
  Live-head (p ∷ ps) x states t (inr l) = inr (λ y. inr l)

  pub Live-close_stars :
      (ps : Text) (states : List Bool) (t : Text)
      → Live ps states t
      → Live ps (close_stars ps states) t
  unfolding Live close_stars
  Live-close_stars [] states t l = l
  Live-close_stars (p ∷ ps) [] t l = l
  Live-close_stars (p ∷ ps) (s ∷ []) t (inl l) = inl l
  Live-close_stars (p ∷ ps) (s ∷ []) t (inr l) = absurd (false≢true (sym l))
  Live-close_stars (p ∷ ps) (s ∷ u ∷ states) t (inl l) = inl l
  Live-close_stars (p ∷ ps) (s ∷ u ∷ states) t (inr l) =
      inr (
        Live-close_stars ps ((u || (s && p == b'*')) ∷ states) t (kept (Live-head ps u states t l)))
    where
      kept :
          ((u ≡ true) × IsRead ps t) ⊎ ((y : Bool) → Live ps (y ∷ states) t)
          → Live ps ((u || (s && p == b'*')) ∷ states) t
      kept (inl (e, m)) = Live-here ps _ states t (ground (arith, e)) m
      kept (inr k) = k _

  pub none_live {ℓ} : {A : Type ℓ} (ps t : Text) → Live ps (false ∷ []) t → A
  unfolding Live
  none_live [] t (e, m) = absurd (false≢true e)
  none_live (p ∷ ps) t (inl (e, m)) = absurd (false≢true e)
  none_live (p ∷ ps) t (inr l) = absurd (false≢true (sym l))

  pub close_stars-Live :
      (ps : Text) (states : List Bool) (t : Text)
      → Live ps (close_stars ps states) t
      → Live ps states t
  unfolding Live close_stars
  close_stars-Live [] states t l = l
  close_stars-Live (p ∷ ps) [] t l = l
  close_stars-Live (p ∷ ps) (s ∷ []) t (inl l) = inl l
  close_stars-Live (p ∷ ps) (s ∷ []) t (inr l) =
      back (Live-head ps _ [] t (close_stars-Live ps ((s && p == b'*') ∷ []) t l))
    where
      back :
          (((s && p == b'*') ≡ true) × IsRead ps t) ⊎ ((y : Bool) → Live ps (y ∷ []) t)
          → ((s ≡ true) × IsRead (p ∷ ps) t) ⊎ Live ps [] t
      back (inr k) = inr (none_live ps t (k false))
      back (inl (e, m)) = inl (ground (arith, e), star_ends (ground (arith, e)) m)
  close_stars-Live (p ∷ ps) (s ∷ u ∷ states) t (inl l) = inl l
  close_stars-Live (p ∷ ps) (s ∷ u ∷ states) t (inr l) =
      back (Live-head ps _ states t (close_stars-Live ps ((u || (s && p == b'*')) ∷ states) t l))
        (Bool-cases u)
    where
      back :
          (((u || (s && p == b'*')) ≡ true) × IsRead ps t) ⊎ ((y : Bool) → Live ps (y ∷ states) t)
          → (u ≡ true) ⊎ (u ≡ false)
          → ((s ≡ true) × IsRead (p ∷ ps) t) ⊎ Live ps (u ∷ states) t
      back (inr k) c = inr (k u)
      back (inl (e, m)) (inl c) = inr (Live-here ps u states t c m)
      back (inl (e, m)) (inr c) = inl (ground (arith, e, c), star_ends (ground (arith, e, c)) m)

  IsClosed-tail :
      (p : ℕ) (ps : Text) (s : Bool) (states : List Bool)
      → IsClosed (p ∷ ps) (s ∷ states)
      → IsClosed ps states
  unfolding IsClosed
  IsClosed-tail p [] s [] k = tt
  IsClosed-tail p (q ∷ ps) s [] k = tt
  IsClosed-tail p ps s (u ∷ states) k = k.1

  -- Behind an active star the rest of the mask starts from an active state.
  Live-after :
      (p : ℕ) (ps : Text) (s : Bool) (states : List Bool) (t : Text)
      → IsClosed (p ∷ ps) (s ∷ states)
      → s ≡ true
      → (p == b'*') ≡ true
      → IsRead ps t
      → Live ps states t
  unfolding IsClosed Live
  Live-after p ps s [] t k e star m = k e star
  Live-after p ps s (u ∷ states) t k e star m = Live-here ps u states t (k.0 e star) m

  -- One character read: an active state stays or moves on, and no other state becomes active.
  pub Live-advance :
      (ps : Text) (states : List Bool) (c : ℕ) (entered : Bool) (t : Text)
      → IsClosed ps states
      → ((entered ≡ true) × IsRead ps t) ⊎ Live ps states (c ∷ t)
      → Live ps (advance fold ps states c entered) t
  unfolding Live advance IsClosed
  Live-advance [] [] c entered t k (inl l) = l
  Live-advance [] [] c entered t k (inr l) = absurd (false≢true (sym l))
  Live-advance [] (s ∷ states) c entered t k (inl l) = l
  Live-advance [] (s ∷ states) c entered t k (inr (e, m)) = elim m [ ]
  Live-advance (p ∷ ps) [] c entered t k (inl l) = inl l
  Live-advance (p ∷ ps) [] c entered t k (inr l) = absurd (false≢true (sym l))
  Live-advance (p ∷ ps) (s ∷ states) c entered t k (inl (e, m)) = inl (ground (arith, e), m)
  Live-advance (p ∷ ps) (s ∷ states) c entered t k (inr (inl (e, star_reads star m))) =
      inl (ground (arith, e, star), m)
  Live-advance (p ∷ ps) (s ∷ states) c entered t k (inr (inl (e, star_ends star m))) = inr (
      Live-advance ps states c _ t (IsClosed-tail p ps s states k)
        (inr (Live-after p ps s states (c ∷ t) k e star m)))
  Live-advance (p ∷ ps) (s ∷ states) c entered t k (inr (inl (e, one_reads other same m))) = inr (
      Live-advance ps states c _ t (IsClosed-tail p ps s states k)
        (inl (ground (arith, e, other, same), m)))
  Live-advance (p ∷ ps) (s ∷ states) c entered t k (inr (inr l)) =
      inr (Live-advance ps states c _ t (IsClosed-tail p ps s states k) (inr l))

  pub advance-Live :
      (ps : Text) (states : List Bool) (c : ℕ) (entered : Bool) (t : Text)
      → Live ps (advance fold ps states c entered) t
      → ((entered ≡ true) × IsRead ps t) ⊎ Live ps states (c ∷ t)
  unfolding Live advance
  advance-Live [] [] c entered t l = inl l
  advance-Live [] (s ∷ states) c entered t l = inl l
  advance-Live (p ∷ ps) [] c entered t (inl l) = inl l
  advance-Live (p ∷ ps) [] c entered t (inr l) = inr l
  advance-Live (p ∷ ps) (s ∷ states) c entered t (inl (e, m)) = stays (Bool-cases entered)
    where
      stays :
          (entered ≡ true) ⊎ (entered ≡ false)
          → ((entered ≡ true) × IsRead (p ∷ ps) t)
            ⊎ (((s ≡ true) × IsRead (p ∷ ps) (c ∷ t)) ⊎ Live ps states (c ∷ t))
      stays (inl f) = inl (f, m)
      stays (inr f) = inr (inl (ground (arith, e, f), star_reads (ground (arith, e, f)) m))
  advance-Live (p ∷ ps) (s ∷ states) c entered t (inr l) = moves (advance-Live ps states c _ t l)
    where
      moves :
          (((s && (negate (p == b'*') && reads fold p c)) ≡ true) × IsRead ps t)
            ⊎ Live ps states (c ∷ t)
          → ((entered ≡ true) × IsRead (p ∷ ps) t)
            ⊎ (((s ≡ true) × IsRead (p ∷ ps) (c ∷ t)) ⊎ Live ps states (c ∷ t))
      moves (inr k) = inr (inr k)
      moves (inl (e, m)) =
          inr (inl (ground (arith, e), one_reads (ground (arith, e)) (ground (arith, e)) m))

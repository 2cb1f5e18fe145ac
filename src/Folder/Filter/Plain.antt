-- ===== src/Folder/Filter/Plain.antt =====
-- A matcher of masks without sets, for texts without case, for the tests.
use open_bc.Prelude.{
  ℕ, Bool, true, false, ◌&&◌, ◌||◌, negate, [], ◌∷◌, Text, ◌==◌, ◌≡◌, arith, inl, inr, Bool-cases,
}
use open_bc.Folder.Wildcard.{
  Wildcard, finished, star_ends, star_reads, any_reads, letter_reads, is_plain_mask,
}
use open_bc.Folder.Filter.{Masks}

abbrev star : (Text → Bool) → Text → Bool
star rest [] = rest []
star rest (c ∷ t) = rest (c ∷ t) || (negate (c == b'/') && star rest t)

abbrev one : ℕ → (Text → Bool) → Text → Bool
one p rest [] = false
one p rest (c ∷ t) = ((p == b'?' && negate (c == b'/')) || (negate (p == b'?') && p == c)) && rest t

abbrev ended : Text → Bool
ended [] = true
ended (c ∷ t) = false

abbrev wildcard : Text → Text → Bool
wildcard [] t = ended t
wildcard (p ∷ ps) t =
    (p == b'*' && star (wildcard ps) t) || (negate (p == b'*') && one p (wildcard ps) t)

star_sound :
    (p : ℕ) (ps : Text) (rest : Text → Bool)
    → (p == b'*') ≡ true
    → ((t : Text) → rest t ≡ true → Wildcard (λ c. c) ps t)
    → (t : Text) → star rest t ≡ true
    → Wildcard (λ c. c) (p ∷ ps) t
star_sound p ps rest e h [] m = star_ends e (h [] m)
star_sound p ps rest e h (c ∷ t) m = elim (Bool-cases (rest (c ∷ t))) [
  | inl here ↦ star_ends e (h (c ∷ t) here)
  | inr other ↦
      star_reads e (ground (arith, m, other))
        (star_sound p ps rest e h t (ground (arith, m, other)))
]

one_sound :
    (p : ℕ) (ps : Text) (rest : Text → Bool)
    → (p == b'*') ≡ false
    → ((t : Text) → rest t ≡ true → Wildcard (λ c. c) ps t)
    → (t : Text) → one p rest t ≡ true
    → Wildcard (λ c. c) (p ∷ ps) t
one_sound p ps rest e h [] m = absurd (ground (arith, m))
one_sound p ps rest e h (c ∷ t) m = elim (Bool-cases (p == b'?')) [
  | inl any ↦ any_reads any (ground (arith, m, any)) (h t (ground (arith, m)))
  | inr other ↦ letter_reads e other (ground (arith, m, other)) (h t (ground (arith, m)))
]

wildcard_sound : (ps t : Text) → wildcard ps t ≡ true → Wildcard (λ c. c) ps t
wildcard_sound [] [] m = finished
wildcard_sound [] (c ∷ t) m = absurd (ground (arith, m))
wildcard_sound (p ∷ ps) t m = elim (Bool-cases (p == b'*')) [
  | inl e ↦ star_sound p ps (wildcard ps) e (wildcard_sound ps) t (ground (arith, m, e))
  | inr e ↦ one_sound p ps (wildcard ps) e (wildcard_sound ps) t (ground (arith, m, e))
]

pub plain_match_sound :
    (ps t : Text) → is_plain_mask ps ≡ true → wildcard ps t ≡ true → Wildcard (λ c. c) ps t
plain_match_sound ps t plain m = wildcard_sound ps t m

abbrev pub plain_masks : Masks
plain_masks = record {
  fold = λ c. c;
  wildcard_match = wildcard;
  wildcard_match_sound = plain_match_sound;
}

-- ===== src/Files/Sniff/Headers.antt =====
-- When the first bytes of a file count as text (crates/openbc-ui-qt/cpp/common/content_sniff.h).
use mathlib.Core.Bool.{false≢true}
use open_bc.Prelude.{
  ℕ, suc, ◌*◌, ◌≤◌, Bool, true, false, Option, some, none, List, [], ◌∷◌, length, select, has_char,
  is_empty, ltb, ltb→le, ◌==◌, if◌then◌else◌, ◌≡◌, ◌≢◌, ◌⊎◌, inl, inr, refl, sym, ap, ◌∙◌, arith,
  Bool-cases,
}
use open_bc.Files.Sniff.{
  Sniffed, sniff_bytes, by_control, count_control, is_control, has_bom, is_registry_head,
  is_picture_head, is_media_head, is_model3d_head, is_binary_head,
}

-- How many bytes are control characters other than white space and escape.
pub controls : List ℕ → ℕ
controls d = length (select is_control d)

-- An answer that is not the one of the first branch is that of the second.
past_branch {ℓ} : {A : Type ℓ} (b : Bool) {x y z : A} → x ≢ z → (if b then x else y) ≡ z → y ≡ z
past_branch true n h = absurd (n h)
past_branch false n h = h

is_text : Sniffed → Bool
is_text Sniffed.text = true
is_text _ = false

binary≢text : Sniffed.binary ≢ Sniffed.text
unfolding is_text
binary≢text h = false≢true (ap is_text h)

count_control-controls :
    (d : List ℕ) (k : ℕ) → count_control d ≡ some k → (has_char 0 d ≡ false) × (k ≡ controls d)
unfolding count_control controls has_char
count_control-controls [] k h = ground (arith, h)
count_control-controls (c ∷ d) k h = go (count_control d) (count_control-controls d) h
  where
    go :
        (o : Option ℕ)
        → ((j : ℕ) → o ≡ some j → (has_char 0 d ≡ false) × (j ≡ controls d))
        → (if c == 0
            then none
            else elim o [ none ↦ none | some j ↦ some (if is_control c then suc j else j) ])
          ≡ some k
        → (has_char 0 (c ∷ d) ≡ false) × (k ≡ controls (c ∷ d))
    go none ih e = ground (arith, e)
    go (some j) ih e = ground (arith, e, ih j refl)

past_bom :
    {b : Bool} {y : Sniffed}
    → b ≡ false
    → (if b then Sniffed.text else y) ≡ Sniffed.text
    → y ≡ Sniffed.text
past_bom e h = ground (arith, e, h)

by_control-text :
    (d : List ℕ) (o : Option ℕ)
    → count_control d ≡ o
    → by_control (length d) o ≡ Sniffed.text
    → (has_char 0 d ≡ false) × (controls d * 10 ≤ length d * 3)
unfolding by_control
by_control-text d none e h = cc
by_control-text d (some k) e h =
    let (no_nul, same_count) = count_control-controls d k e in
    (
      no_nul,
      elim (Bool-cases (ltb (length d * 3) (k * 10))) [
        | inl many ↦ absurd (binary≢text (sym (rw many refl) ∙ h))
        | inr few ↦ omega (arith, same_count, ltb→le (length d * 3) (k * 10) few)
      ],
    )

-- Bytes that count as text begin with a byte order mark, or have no NUL and at most three control
-- characters in ten.
pub sniff_bytes-text :
    (d : List ℕ)
    → sniff_bytes d ≡ Sniffed.text
    → (has_bom d ≡ true) ⊎ ((has_char 0 d ≡ false) × (controls d * 10 ≤ length d * 3))
unfolding sniff_bytes is_text
sniff_bytes-text d h = elim (Bool-cases (has_bom d)) [
  | inl e ↦ inl e
  | inr e ↦ inr (
      by_control-text d (count_control d) refl (
        past_bom e (
          past_branch (is_binary_head d) binary≢text (
            past_branch (is_model3d_head d) (λ g. false≢true (ap is_text g))
              (past_branch (is_media_head d) (λ g. false≢true (ap is_text g))
                (past_branch (is_picture_head d) (λ g. false≢true (ap is_text g))
                  (past_branch (is_registry_head d) (λ g. false≢true (ap is_text g))
                    (past_branch (is_empty d) (λ g. false≢true (ap is_text g)) h))))))))
]

-- ===== src/TextEditor/Decision.antt =====
-- When the Virtual editor is chosen (crates/openbc-ui-qt/cpp/options/text_editor_selection.h).
use open_bc.Prelude.{
  ℕ, Bool, true, ◌||◌, Option, some, none, ◌≡◌, ◌≢◌, ◌↔◌, ◌⊎◌, inl, inr, refl, arith, leb,
}
use open_bc.TextEditor.{Mode, Settings, Editor, choose_editor, by_size, by_mode, threshold_bytes}

-- A side is too large for the Existing editor: its size is unknown or reaches the threshold.
pub reaches : ℕ → Option ℕ → Bool
reaches limit none = true
reaches limit (some n) = leb limit n

by_size-reaches :
    (limit : ℕ) (l r : Option ℕ)
    → (by_size limit l r ≡ Editor.virtual) ↔ ((reaches limit l || reaches limit r) ≡ true)
unfolding by_size reaches
by_size-reaches limit none r = (λ e. refl, λ e. refl)
by_size-reaches limit (some l) none = (λ e. ground arith, λ e. refl)
by_size-reaches limit (some l) (some r) = (λ e. ground arith, λ e. ground arith)

by_mode-virtual :
    (m : Mode) (limit : ℕ) (l r : Option ℕ)
    → (by_mode m limit l r ≡ Editor.virtual) ↔ (
        (m ≡ Mode.virtual)
        ⊎ ((m ≢ Mode.virtual)
            × (m ≢ Mode.existing)
            × ((reaches limit l || reaches limit r) ≡ true)))
unfolding by_mode
by_mode-virtual Mode.virtual limit l r = (λ e. inl refl, λ h. refl)
by_mode-virtual Mode.existing limit l r = (λ e. cc, λ h. grind arith)
by_mode-virtual Mode.hybrid limit l r = (
  λ e. inr (λ x. cc, λ x. cc, (by_size-reaches limit l r).0 e),
  λ h. elim h [ inl x ↦ cc | inr x ↦ (by_size-reaches limit l r).1 (x.2) ],
)
by_mode-virtual Mode.other limit l r = (
  λ e. inr (λ x. cc, λ x. cc, (by_size-reaches limit l r).0 e),
  λ h. elim h [ inl x ↦ cc | inr x ↦ (by_size-reaches limit l r).1 (x.2) ],
)

-- The Virtual editor is chosen exactly if the mode asks for it, or the mode does not ask for the
-- Existing one and the size of a side is unknown or reaches the threshold.
pub choose_editor-virtual :
    (s : Settings) (l r : Option ℕ)
    → (choose_editor s l r ≡ Editor.virtual) ↔ (
        (s.mode ≡ Mode.virtual)
        ⊎ ((s.mode ≢ Mode.virtual)
            × (s.mode ≢ Mode.existing)
            × ((reaches (threshold_bytes s) l || reaches (threshold_bytes s) r) ≡ true)))
unfolding choose_editor
choose_editor-virtual s l r = by_mode-virtual s.mode (threshold_bytes s) l r

-- ===== src/Sessions/Saved/Counting.antt =====
-- How many sessions of a kind a file holds, and what the writes do to it (crates/openbc-ui-qt/cpp/home/session_history.h).
use mathlib.Core.Bool.{false≢true}
use open_bc.Prelude.{
  ℕ, zero, suc, ◌+◌, Bool, true, false, Option, some, none, List, [], ◌∷◌, ◌++◌, Text, same,
  same_sound, same_refl, length, length-append, select, select-append, get_elem?, lt→ltb, ◌<◌,
  if◌then◌else◌, ◌≡◌, refl, sym, ap, ◌∙◌, arith, Bool-cases, inl, inr,
}
use open_bc.Prelude.Qt.{Qt}
use open_bc.Sessions.{Entry, Clock, Files, Index, checked, remove_at}
use open_bc.Sessions.Saved.{set_node, write_array, saved_entry, entry_at}

pub some-injective : {x y : Entry} → some x ≡ some y → x ≡ y
some-injective {x} h = ap (λ (o : Option Entry). elim o [ none ↦ x | some y ↦ y ]) h

module _ (p : Text → Text → Text → Bool) where
  unfoldable pub passes : Entry → Bool
  passes e = p e.kind e.left e.right

  -- How many entries have a kind and paths that pass the test.
  unfoldable pub matching : List Entry → ℕ
  unfolding passes
  matching entries = length (select passes entries)

  -- 1 for an entry that passes.
  unfoldable pub one : Entry → ℕ
  unfolding passes
  one e = if passes e then 1 else 0

  pub matching-append : (es fs : List Entry) → matching (es ++ fs) ≡ matching es + matching fs
  unfolding matching
  matching-append es fs =
      rw (select-append passes es fs) (length-append (select passes es) (select passes fs))

  pub matching-∷ : (e : Entry) (es : List Entry) → matching (e ∷ es) ≡ one e + matching es
  unfolding matching one
  matching-∷ e es = ground arith

  pub matching-remove_at :
      (i : ℕ) (es : List Entry) (e : Entry)
      → get_elem? es i ≡ some e
      → (i < length es) × (matching (remove_at i es) + one e ≡ matching es)
  unfolding remove_at
  matching-remove_at i [] e h = cc
  matching-remove_at zero (x ∷ es) e h =
      (omega arith, omega (arith, matching-∷ x es, ap one (some-injective h)))
  matching-remove_at (suc i) (x ∷ es) e h =
      let (inside, kept) = matching-remove_at i es e h in
      (omega (arith, inside), omega (arith, matching-∷ x es, matching-∷ x (remove_at i es), kept))

  pub matching-saved_entry :
      (qt : Qt) (clock : Clock) (e : Entry) (label : Text)
      → one (saved_entry qt clock e label) ≡ one e
  unfolding one passes saved_entry
  matching-saved_entry qt clock e label = refl

pub same-flip : (s t : Text) → same s t ≡ false → same t s ≡ false
same-flip s t h = elim (Bool-cases (same t s)) [
  | inr e ↦ e
  | inl e ↦ absurd (false≢true (sym h ∙ (ap (same s) (same_sound t s e) ∙ same_refl s)))
]

pub write_array-writable :
    (node : Text) (entries : List Entry) (files : Files)
    → files.saved_writable node ≡ true
    → write_array node entries files ≡ record files { saved = set_node node entries files.saved }
unfolding write_array
write_array-writable node entries files w = rw w refl

pub set_node-same :
    (node : Text) (entries : List Entry) (saved : Text → Option (List Entry))
    → set_node node entries saved node ≡ some entries
unfolding set_node
set_node-same node entries saved = rw (same_refl node) refl

pub set_node-other :
    (node other : Text) (entries : List Entry) (saved : Text → Option (List Entry))
    → same other node ≡ false
    → set_node node entries saved other ≡ saved other
unfolding set_node
set_node-other node other entries saved h = rw h refl

pub entry_at-checked :
    (index : Index) (entries : List Entry) (e : Entry)
    → entry_at index entries ≡ some e
    → (i : ℕ) × (checked index (length entries) ≡ some i) × (get_elem? entries i ≡ some e)
unfolding entry_at checked
entry_at-checked Index.negative entries e h = cc
entry_at-checked (Index.at i) entries e h =
    (i, rw (lt→ltb i (length entries) (matching-remove_at (λ k l r. true) i entries e h).0) refl, h)

pub no_entry {ℓ} : {A : Type ℓ} (index : Index) (e : Entry) → entry_at index [] ≡ some e → A
unfolding entry_at
no_entry Index.negative e h = cc
no_entry (Index.at i) e h = cc

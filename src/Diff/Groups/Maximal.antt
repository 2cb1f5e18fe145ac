-- ===== src/Diff/Groups/Maximal.antt =====
-- The groups are apart from one another, and as long as they can be
-- (crates/openbc-ui-qt/cpp/common/diff_algorithms.h).
use open_bc.Prelude.{
  ℕ, suc, ◌≤◌, ◌<◌, Bool, true, false, Option, some, none, List, [], ◌∷◌, ◌≡◌, ◌≢◌, refl, arith,
  Bool-cases, inl, inr,
}
use open_bc.Diff.Groups.{
  TextDiffLine, DiffGroup, Open, walk, belongs, opened, close, group_diff_rows,
}

-- The next group begins behind this one; if it begins directly behind, its kind is the other one,
-- so the two could not be joined.
pub record Apart (g h : DiffGroup) : Type 0 where
  pub behind : g.end < h.start
  pub distinct : h.start ≡ suc g.end → h.whitespace_only ≢ g.whitespace_only

-- Every group has a row, and stands apart from the next.
pub Separated : List DiffGroup → Type 0
Separated [] = Unit
Separated (g ∷ []) = g.start ≤ g.end
Separated (g ∷ h ∷ gs) = (g.start ≤ g.end) × Apart g h × Separated (h ∷ gs)

-- How the groups from index `i` on begin: with the open group, or not before `i`.
abbrev Starts : Option Open → ℕ → List DiffGroup → Type 0
Starts none i [] = Unit
Starts none i (g ∷ gs) = i ≤ g.start
Starts (some o) i [] = ⊥
Starts (some o) i (g ∷ gs) = (g.start ≡ o.start) × (g.whitespace_only ≡ o.whitespace_only)

opened-Apart :
    (o : Open) (i : ℕ) (row : TextDiffLine) (h : DiffGroup) (gs : List DiffGroup)
    → o.start < i
    → belongs o row ≡ false
    → Starts (opened i row) (suc i) (h ∷ gs)
    → Apart (close o i) h
unfolding opened belongs close
opened-Apart o i row h gs b out st = elim (Bool-cases row.changed) [
  | inl e ↦
      let s : (h.start ≡ i) × (h.whitespace_only ≡ row.whitespace_only) = rw e at st in
      record { behind = omega (arith, s.0); distinct = λ _ same. ground (arith, s.1) }
  | inr e ↦
      let s : suc i ≤ h.start = rw e at st in
      record { behind = omega (arith, s); distinct = λ at _. absurd (omega (arith, s)) }
]

opened-Separated :
    (o : Open) (i : ℕ) (row : TextDiffLine) (gs : List DiffGroup)
    → o.start < i
    → belongs o row ≡ false
    → Starts (opened i row) (suc i) gs
    → Separated gs
    → Separated (close o i ∷ gs)
unfolding Separated
opened-Separated o i row [] b out st sep = unfold close in omega arith
opened-Separated o i row (h ∷ gs) b out st sep =
    (unfold close in omega arith, opened-Apart o i row h gs b out st, sep)

later-Starts :
    (i : ℕ) (row : TextDiffLine) (gs : List DiffGroup)
    → Starts (opened i row) (suc i) gs
    → Starts none i gs
unfolding opened
later-Starts i row [] st = tt
later-Starts i row (g ∷ gs) st = elim (Bool-cases row.changed) [
  | inl e ↦
      let s : (g.start ≡ i) × (g.whitespace_only ≡ row.whitespace_only) = rw e at st in
      omega (arith, s.0)
  | inr e ↦ let s : suc i ≤ g.start = rw e at st in omega (arith, s)
]

abbrev Before : Option Open → ℕ → Type 0
Before none i = Unit
Before (some o) i = o.start < i

opened-Before : (i : ℕ) (row : TextDiffLine) → Before (opened i row) (suc i)
unfolding opened
opened-Before i row = elim (Bool-cases row.changed) [ inl e ↦ rw e (omega arith) | inr e ↦ rw e tt ]

walk-Separated :
    (o : Option Open) (i : ℕ) (rows : List TextDiffLine)
    → Before o i
    → Separated (walk o i rows) × Starts o i (walk o i rows)
unfolding walk
walk-Separated none i [] b = (unfold Separated in tt, tt)
walk-Separated none i (row ∷ rows) b =
    let (sep, st) = walk-Separated (opened i row) (suc i) rows (opened-Before i row) in
    (sep, later-Starts i row _ st)
walk-Separated (some o) i [] b = unfold Separated close in (omega arith, (refl, refl))
walk-Separated (some o) i (row ∷ rows) b =
    go (belongs o row) refl (walk-Separated (some o) (suc i) rows)
      (walk-Separated (opened i row) (suc i) rows (opened-Before i row))
  where
    go :
        (m : Bool)
        → belongs o row ≡ m
        → (o.start < suc i
            → Separated (walk (some o) (suc i) rows)
              × Starts (some o) (suc i) (walk (some o) (suc i) rows))
        → Separated (walk (opened i row) (suc i) rows)
          × Starts (opened i row) (suc i) (walk (opened i row) (suc i) rows)
        → Separated (walk (some o) i (row ∷ rows))
          × Starts (some o) i (walk (some o) i (row ∷ rows))
    go true e stay leave = rw (e, walk) (stay (omega arith))
    go false e stay leave =
        rw (e, walk)
          (opened-Separated o i row _ b e (leave.1) (leave.0), unfold close in (refl, refl))

-- Every group holds a row, the groups come in order and do not overlap, and two that touch are of
-- different kinds, so no group could be longer.
pub group_diff_rows-Separated : (rows : List TextDiffLine) → Separated (group_diff_rows rows)
unfolding group_diff_rows
group_diff_rows-Separated rows = (walk-Separated none 0 rows tt).0

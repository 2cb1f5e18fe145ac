-- ===== src/Diff/Groups/Cover.antt =====
-- The groups cover the changed rows, each with its kind
-- (crates/openbc-ui-qt/cpp/common/diff_algorithms.h).
use open_bc.Prelude.{
  ℕ, zero, suc, ◌-◌, ◌<◌, Bool, true, false, ◌&&◌, Option, some, none, List, [], ◌∷◌, ltb, leb, ◌≡◌,
  refl, ◌∙◌, arith, if◌then◌else◌, Bool-cases, inl, inr,
}
use open_bc.Diff.Groups.{
  TextDiffLine, DiffGroup, Open, walk, belongs, opened, close, group_diff_rows,
}

-- What a row is: unchanged, or changed in white space only or not.
pub kind_of : TextDiffLine → Option Bool
kind_of row = if row.changed then some row.whitespace_only else none

pub row_kind : List TextDiffLine → ℕ → Option Bool
row_kind [] k = none
row_kind (row ∷ rows) zero = kind_of row
row_kind (row ∷ rows) (suc k) = row_kind rows k

-- The kind of the first group that covers an index.
pub kind_at : List DiffGroup → ℕ → Option Bool
kind_at [] k = none
kind_at (g ∷ gs) k = if leb g.start k && leb k g.end then some g.whitespace_only else kind_at gs k

-- What the groups found from index `i` on should say.
expected : Option Open → ℕ → List TextDiffLine → ℕ → Option Bool
expected none i rows k = if ltb k i then none else row_kind rows (k - i)
expected (some o) i rows k =
    if ltb k o.start
    then none
    else if ltb k i
    then some o.whitespace_only
    else row_kind rows (k - i)

row_kind-here :
    (row : TextDiffLine) (rows : List TextDiffLine) (i k : ℕ)
    → k ≡ i
    → row_kind (row ∷ rows) (k - i) ≡ kind_of row
unfolding row_kind
row_kind-here row rows i k e = let d : k - i ≡ 0 = omega arith in rw d

row_kind-later :
    (row : TextDiffLine) (rows : List TextDiffLine) (i k : ℕ)
    → i < k
    → row_kind (row ∷ rows) (k - i) ≡ row_kind rows (k - suc i)
unfolding row_kind
row_kind-later row rows i k h = let d : k - i ≡ suc (k - suc i) = omega arith in rw d

abbrev Before : Option Open → ℕ → Type 0
Before none i = Unit
Before (some o) i = o.start < i

opened-Before : (i : ℕ) (row : TextDiffLine) → Before (opened i row) (suc i)
unfolding opened
opened-Before i row = elim (Bool-cases row.changed) [ inl e ↦ rw e (omega arith) | inr e ↦ rw e tt ]

opened-expected :
    (i : ℕ) (row : TextDiffLine) (rows : List TextDiffLine) (k : ℕ)
    → expected (opened i row) (suc i) rows k ≡ expected none i (row ∷ rows) k
unfolding opened expected kind_of
opened-expected i row rows k =
    ground (arith, row_kind-here row rows i k, row_kind-later row rows i k)

stay-expected :
    (o : Open) (i : ℕ) (row : TextDiffLine) (rows : List TextDiffLine) (k : ℕ)
    → o.start < i
    → belongs o row ≡ true
    → expected (some o) (suc i) rows k ≡ expected (some o) i (row ∷ rows) k
unfolding expected belongs kind_of
stay-expected o i row rows k b h =
    ground (arith, row_kind-here row rows i k, row_kind-later row rows i k)

close-expected :
    (o : Open) (i : ℕ) (rows : List TextDiffLine) (gs : List DiffGroup) (k : ℕ)
    → o.start < i
    → kind_at gs k ≡ expected none i rows k
    → kind_at (close o i ∷ gs) k ≡ expected (some o) i rows k
unfolding expected kind_at close
close-expected o i rows gs k b h = ground arith

walk-expected :
    (o : Option Open) (i : ℕ) (rows : List TextDiffLine) (k : ℕ)
    → Before o i
    → kind_at (walk o i rows) k ≡ expected o i rows k
unfolding walk
walk-expected none i [] k b = unfold kind_at expected row_kind in ground arith
walk-expected none i (row ∷ rows) k b =
    walk-expected (opened i row) (suc i) rows k (opened-Before i row) ∙ opened-expected i row rows k
walk-expected (some o) i [] k b =
    close-expected o i [] [] k b (unfold kind_at expected row_kind in ground arith)
walk-expected (some o) i (row ∷ rows) k b =
    go (belongs o row) refl (walk-expected (some o) (suc i) rows k)
      (walk-expected (opened i row) (suc i) rows k)
  where
    go :
        (m : Bool)
        → belongs o row ≡ m
        → (o.start < suc i
            → kind_at (walk (some o) (suc i) rows) k ≡ expected (some o) (suc i) rows k)
        → (Before (opened i row) (suc i)
            → kind_at (walk (opened i row) (suc i) rows) k ≡ expected (opened i row) (suc i) rows k)
        → kind_at (walk (some o) i (row ∷ rows)) k ≡ expected (some o) i (row ∷ rows) k
    go true e stay leave = rw (e, walk) (stay (omega arith) ∙ stay-expected o i row rows k b e)
    go false e stay leave =
        rw (e, walk)
          (close-expected o i (row ∷ rows) _ k b
            (leave (opened-Before i row) ∙ opened-expected i row rows k))

expected_start : (rows : List TextDiffLine) (k : ℕ) → expected none 0 rows k ≡ row_kind rows k
unfolding expected
expected_start rows k = let d : k - 0 ≡ k = omega arith in rw d (ground arith)

-- At every index the groups say what the row there is: a changed row lies in a group of its own
-- kind, and a row that did not change, or that is not there, lies in none.
pub group_diff_rows_cover :
    (rows : List TextDiffLine) (k : ℕ) → kind_at (group_diff_rows rows) k ≡ row_kind rows k
unfolding group_diff_rows
group_diff_rows_cover rows k = walk-expected none 0 rows k tt ∙ expected_start rows k

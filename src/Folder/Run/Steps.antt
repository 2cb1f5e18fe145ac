-- ===== src/Folder/Run/Steps.antt =====
-- What each entry of a folder adds to its node
-- (crates/openbc-ui-qt/cpp/viewers/folder/folder_compare_viewer.h).
use open_bc.Prelude.{
  ℕ, ◌+◌, Bool, true, false, ◌||◌, negate, List, [], ◌∷◌, length, if◌then◌else◌, ◌≡◌, refl, ap,
  subst, ◌∙◌, arith,
}
use open_bc.Folder.Status.{is_same, is_different}
use open_bc.Folder.Entries.{EntryPair}
use open_bc.Folder.Run.{
  NodeState, file_bytes, with_bytes, enter_folder, enter_comparison, enter_settled, enter,
  hash_pending, FileResult, is_differing, Report, file, below,
}
use open_bc.Folder.Run.Order.{
  Keeps, file_differs, report_differs, report_bytes, any_differs, sum_bytes, flags,
}

-- A node `n` that the loop leaves, with the reports `rs` to come, against the node `s` before: it waits
-- for as many reports, and in the end has the difference `d` and the bytes `l` and `r` more.
unfoldable pub Adds : NodeState → NodeState → List Report → Bool → ℕ → ℕ → Type 0
Adds n s rs d l r =
    (n.pending_children ≡ s.pending_children + length rs)
    × ((n.different || any_differs rs) ≡ (s.different || d))
    × (n.left_bytes + sum_bytes (λ k. k.left_bytes) rs ≡ s.left_bytes + l)
    × (n.right_bytes + sum_bytes (λ k. k.right_bytes) rs ≡ s.right_bytes + r)
    × (flags n ≡ flags s)

-- The same for equal nodes before, and for equal reports.
pub Adds-from :
    (n s t : NodeState) (rs : List Report) (d : Bool) (l r : ℕ)
    → s ≡ t
    → Adds n s rs d l r
    → Adds n t rs d l r
Adds-from n s t rs d l r e h = subst (λ u. Adds n u rs d l r) e h

pub Adds-reported :
    (n s : NodeState) (rs qs : List Report) (d : Bool) (l r : ℕ)
    → rs ≡ qs
    → Adds n s rs d l r
    → Adds n s qs d l r
Adds-reported n s rs qs d l r e h = subst (λ ts. Adds n s ts d l r) e h

pub Adds-nothing : (s : NodeState) → Adds s s [] false 0 0
unfolding Adds any_differs sum_bytes
Adds-nothing s = (omega arith, refl, omega arith, omega arith, refl)

pub Adds-settled :
    (n s : NodeState) (rs : List Report) (d : Bool) (l r : ℕ) (e : EntryPair)
    → Adds n (enter_settled e (with_bytes e s)) rs d l r
    → Adds n s rs
        (negate (is_same e.pair_class) || d)
        (file_bytes e.left + l)
        (file_bytes e.right + r)
unfolding Adds enter_settled with_bytes flags
Adds-settled n s rs d l r e (p, q, a, b, f) =
    (p, ground (arith, q), omega (arith, a), omega (arith, b), f)

pub Adds-compared :
    (n s : NodeState) (rs : List Report) (d : Bool) (l r : ℕ) (e : EntryPair) (result : FileResult)
    → Adds n (enter_comparison (with_bytes e s)) rs d l r
    → Adds n s
        (file result ∷ rs)
        (file_differs result || d)
        (file_bytes e.left + l)
        (file_bytes e.right + r)
unfolding Adds enter_comparison with_bytes flags any_differs sum_bytes report_differs report_bytes
Adds-compared n s rs d l r e result (p, q, a, b, f) =
    (omega (arith, p), ground (arith, q), omega (arith, a), omega (arith, b), f)

pub Adds-below :
    (n s : NodeState) (rs : List Report) (d : Bool) (l r : ℕ) (e : EntryPair) (child : NodeState)
    (x : Bool) (lc rc : ℕ)
    → is_differing child ≡ x
    → child.left_bytes ≡ lc
    → child.right_bytes ≡ rc
    → Adds n (enter_folder e (with_bytes e s)) rs d l r
    → Adds n s
        (below child ∷ rs)
        (is_different e.pair_class || x || d)
        (file_bytes e.left + lc + l)
        (file_bytes e.right + rc + r)
unfolding Adds enter_folder with_bytes flags any_differs sum_bytes report_differs report_bytes
Adds-below n s rs d l r e child x lc rc y yl yr (p, q, a, b, f) =
    (omega (arith, p), ground (arith, q, y), omega (arith, a, yl), omega (arith, b, yr), f)

module _ (check_content : Bool) (e : EntryPair) (s : NodeState) where
  entered : NodeState
  entered =
      if hash_pending check_content e
      then enter_comparison (with_bytes e s)
      else enter_settled e (with_bytes e s)

  branch : e.recurse ≡ false → enter check_content e s ≡ entered
  unfolding enter entered
  branch a = ap (λ t. if t then enter_folder e (with_bytes e s) else entered) a

  pub enter-settles :
      e.recurse ≡ false
      → hash_pending check_content e ≡ false
      → enter check_content e s ≡ enter_settled e (with_bytes e s)
  unfolding enter entered
  enter-settles a b =
      branch a
      ∙ ap (λ t. if t then enter_comparison (with_bytes e s) else enter_settled e (with_bytes e s))
          b

  pub enter-compares :
      e.recurse ≡ false
      → hash_pending check_content e ≡ true
      → enter check_content e s ≡ enter_comparison (with_bytes e s)
  unfolding enter entered
  enter-compares a b =
      branch a
      ∙ ap (λ t. if t then enter_comparison (with_bytes e s) else enter_settled e (with_bytes e s))
          b

  pub enter-opens : e.recurse ≡ true → enter check_content e s ≡ enter_folder e (with_bytes e s)
  unfolding enter entered
  enter-opens a = ap (λ t. if t then enter_folder e (with_bytes e s) else entered) a

  if-Keeps : (b : Bool) (x y : NodeState) → Keeps x → Keeps y → Keeps (if b then x else y)
  if-Keeps true x y h k = h
  if-Keeps false x y h k = k

  pub enter-Keeps : Keeps s → Keeps (enter check_content e s)
  unfolding enter enter_folder enter_comparison enter_settled with_bytes Keeps
  enter-Keeps k =
      if-Keeps e.recurse _ _ (λ p. ground (arith, k p))
        (if-Keeps (hash_pending check_content e) _ _ k (λ p. ground (arith, k p)))

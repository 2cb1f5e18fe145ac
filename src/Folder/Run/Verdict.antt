-- ===== src/Folder/Run/Verdict.antt =====
-- What the comparison of a folder comes to, whatever the order in which its parts are compared
-- (crates/openbc-ui-qt/cpp/viewers/folder/folder_compare_viewer.h).
use mathlib.Core.List.{Perm}
use open_bc.Prelude.{Option, Bool, false, ◌||◌, List, [], ◌∷◌, ◌≡◌, refl, sym, ap, ◌∙◌, arith}
use open_bc.Folder.Entries.{EntryPair, mismatch}
use open_bc.Folder.Run.{
  NodeState, opened_node, with_bytes, enter_folder, enter, finish, is_orphan_node, is_differing,
  verdict, Report,
}
use open_bc.Folder.Run.Steps.{
  enter-Keeps, Adds, Adds-from, Adds-reported, Adds-nothing, Adds-settled, Adds-compared,
  Adds-below, enter-settles, enter-compares, enter-opens,
}
use open_bc.Folder.Run.Order.{
  Keeps, absorb-Keeps, absorb, flags, absorb-different, absorb-left, absorb-right, absorb-flags,
  all_finishes_once, any_differs-Perm, sum_bytes-Perm, length-Perm,
}
use mathlib.Core.Bool.{false≢true}
use open_bc.Folder.Run.Marks.{verdict_of}
use open_bc.Folder.Run.Levels.{
  Level, level, Rows, no_rows, settles, compares, opens, lacks_folder, child_node, below_all,
  populate, run, reports, IsRun, AreRun, level_differs, rows_differ, level_bytes, rows_bytes,
  folder_verdict,
}

-- A node as it is opened.
unfoldable IsStart : (Bool → NodeState) → Type 0
IsStart start =
    (b : Bool)
    → ((start b).pending_children ≡ 0)
      × ((start b).different ≡ b)
      × ((start b).left_bytes ≡ 0)
      × ((start b).right_bytes ≡ 0)
      × (flags (start b) ≡ flags (start false))
      × ((start b).pending_folders ≡ false)

-- The folder is finished once, in a state with the difference and the bytes of the level.
unfoldable IsFinished : Bool → (Bool → NodeState) → Level → NodeState → Type 0
IsFinished check start l s =
    (run check start l ≡ s ∷ [])
    × (s.different ≡ level_differs l)
    × (s.left_bytes ≡ level_bytes (λ e. e.left) l)
    × (s.right_bytes ≡ level_bytes (λ e. e.right) l)
    × (flags s ≡ flags (start false))
    × Keeps s

child_node-IsStart : (e : EntryPair) → IsStart (child_node e)
unfolding IsStart child_node opened_node flags
child_node-IsStart e b = (refl, refl, refl, refl, refl, refl)

child_differs :
    (check : Bool) (e : EntryPair) (l : Level) (s : NodeState)
    → IsFinished check (child_node e) l s
    → is_differing s
      ≡ (level_differs l || mismatch e.left e.right || lacks_folder e.left || lacks_folder e.right)
unfolding IsFinished is_differing is_orphan_node child_node opened_node flags
child_differs check e l s (once, d, a, b, f, k) =
    ground (arith, d, ap (λ t. t.0) f, ap (λ t. t.1) f, ap (λ t. t.2) f)

opened_Adds :
    (check : Bool) (e : EntryPair) (l : Level) (rows : Rows) (s : NodeState)
    → ((c : NodeState) × IsFinished check (child_node e) l c)
    → Adds
        (populate check rows (enter check e s))
        (enter_folder e (with_bytes e s))
        (reports check rows)
        (rows_differ rows)
        (rows_bytes (λ e. e.left) rows)
        (rows_bytes (λ e. e.right) rows)
    → Adds
        (populate check (opens e l rows) s)
        s
        (reports check (opens e l rows))
        (rows_differ (opens e l rows))
        (rows_bytes (λ e. e.left) (opens e l rows))
        (rows_bytes (λ e. e.right) (opens e l rows))
unfolding populate run below_all rows_differ level_differs rows_bytes level_bytes
opened_Adds check e l rows s (c, facts) h =
    Adds-reported _ s _ _ _ _ _ (ap (λ w. below_all w (reports check rows)) (sym once)) (
      Adds-below _ s (reports check rows) (rows_differ rows) _ _ e c _ _ _
        (child_differs check e l c facts) left right h)
  where
    once : run check (child_node e) l ≡ c ∷ []
    once = unfold IsFinished in facts.0

    left : c.left_bytes ≡ level_bytes (λ k. k.left) l
    left = unfold IsFinished in facts.2

    right : c.right_bytes ≡ level_bytes (λ k. k.right) l
    right = unfold IsFinished in facts.3

start-Keeps : (start : Bool → NodeState) → IsStart start → (b : Bool) → Keeps (start b)
unfolding IsStart Keeps
start-Keeps start starts b = λ p. absurd (false≢true (sym ((starts b).5) ∙ p))

module _ (check : Bool) where
  populate-Keeps : (rows : Rows) (s : NodeState) → Keeps s → Keeps (populate check rows s)
  unfolding populate
  populate-Keeps no_rows s k = k
  populate-Keeps (settles e rows) s k =
      populate-Keeps rows (enter check e s) (enter-Keeps check e s k)
  populate-Keeps (compares e r rows) s k =
      populate-Keeps rows (enter check e s) (enter-Keeps check e s k)
  populate-Keeps (opens e l rows) s k =
      populate-Keeps rows (enter check e s) (enter-Keeps check e s k)

  finished :
      (start : Bool → NodeState) (failed : Bool) (rows : Rows) (arrange : List Report → List Report)
      → IsStart start
      → ((rs : List Report) → Perm (arrange rs) rs)
      → Adds
          (populate check rows (start failed))
          (start failed)
          (reports check rows)
          (rows_differ rows)
          (rows_bytes (λ e. e.left) rows)
          (rows_bytes (λ e. e.right) rows)
      → IsFinished check start
          (level failed rows arrange)
          (finish (absorb (populate check rows (start failed)) (arrange (reports check rows))))
  unfolding IsFinished IsStart Adds run level_differs level_bytes finish flags Keeps
  finished start failed rows arrange starts perm (p, q, a, b, f) =
      let (p0, d0, l0, r0, f0, k0) = starts failed in
      (
        all_finishes_once n (arrange rs)
            (omega (arith, p, p0, length-Perm (arrange rs) rs (perm rs))),
        ground (
          arith,
          absorb-different n (arrange rs),
          any_differs-Perm (arrange rs) rs (perm rs),
          q,
          d0,
        ),
        omega (
          arith,
          absorb-left n (arrange rs),
          sum_bytes-Perm (λ k. k.left_bytes) (arrange rs) rs (perm rs),
          a,
          l0,
        ),
        omega (
          arith,
          absorb-right n (arrange rs),
          sum_bytes-Perm (λ k. k.right_bytes) (arrange rs) rs (perm rs),
          b,
          r0,
        ),
        absorb-flags n (arrange rs) ∙ f ∙ f0,
        absorb-Keeps n (arrange rs) (populate-Keeps rows (start failed) started),
      )
    where
      rs : List Report
      rs = reports check rows

      n : NodeState
      n = populate check rows (start failed)

      started : Keeps (start failed)
      started = start-Keeps start starts failed

  mutual
    unfolding IsRun populate run rows_differ rows_bytes level_differs level_bytes below_all

    level-IsFinished :
        (start : Bool → NodeState) (l : Level)
        → IsStart start
        → IsRun check l
        → (s : NodeState) × IsFinished check start l s
    level-IsFinished start (level failed rows arrange) starts (perm, fit) =
        (_, finished start failed rows arrange starts perm (rows-Adds rows (start failed) fit))

    rows-Adds :
        (rows : Rows) (s : NodeState)
        → AreRun check rows
        → Adds
            (populate check rows s)
            s
            (reports check rows)
            (rows_differ rows)
            (rows_bytes (λ e. e.left) rows)
            (rows_bytes (λ e. e.right) rows)
    rows-Adds no_rows s fit = Adds-nothing s
    rows-Adds (settles e rows) s (a, b, fit) = Adds-settled _ s _ _ _ _ e (
        Adds-from _ _ _ _ _ _ _ (enter-settles check e s a b)
          (rows-Adds rows (enter check e s) fit))
    rows-Adds (compares e r rows) s (a, b, fit) = Adds-compared _ s _ _ _ _ e r (
        Adds-from _ _ _ _ _ _ _ (enter-compares check e s a b)
          (rows-Adds rows (enter check e s) fit))
    rows-Adds (opens e l rows) s (a, inner, fit) =
        opened_Adds check e l rows s
          (level-IsFinished (child_node e) l (child_node-IsStart e) inner)
          (Adds-from _ _ _ _ _ _ _ (enter-opens check e s a) (rows-Adds rows (enter check e s) fit))

-- Whatever the order in which the files are compared and the folders are listed, at every level, the
-- comparison of two folders, the ones at the top or ones below them, is finished exactly once. It then
-- counts as differing exactly if the two do not show the same kind of thing, one of them is missing, their
-- listing failed, or in them a settled pair is not the same, two compared files are not equal, could not
-- be compared or were marked as other than the same in between, or a pair of folders is classified as
-- different or counts as differing. The rows of the two get the mark of this verdict, and are never left
-- pending; the bytes are those of all files on each side. Each pair in the folders has the outcome that
-- the code waits for, and no report is lost or made twice.
pub run-verdict :
    (check_content : Bool) (left_item right_item : Option Bool)
    (left_missing right_missing mismatched : Bool) (l : Level)
    → IsRun check_content l
    → (s : NodeState) × (run check_content
          (opened_node left_item right_item left_missing right_missing mismatched)
          l
        ≡ s ∷ [])
      × (is_differing s ≡ (level_differs l || left_missing || right_missing || mismatched))
      × (verdict s ≡ folder_verdict mismatched left_missing right_missing (level_differs l))
      × (s.left_bytes ≡ level_bytes (λ e. e.left) l)
      × (s.right_bytes ≡ level_bytes (λ e. e.right) l)
unfolding IsStart IsFinished is_differing is_orphan_node opened_node flags
run-verdict check_content left_item right_item left_missing right_missing mismatched l fit =
    let (s, (once, d, a, b, f, k)) =
      level-IsFinished check_content
        (opened_node left_item right_item left_missing right_missing mismatched) l
        (λ b. (refl, refl, refl, refl, refl, refl)) fit in
    (
      s,
      once,
      ground (arith, d, ap (λ t. t.0) f, ap (λ t. t.1) f, ap (λ t. t.2) f),
      verdict_of s left_missing right_missing mismatched (level_differs l) (ap (λ t. t.0) f)
          (ap (λ t. t.1) f) (ap (λ t. t.2) f) d k,
      a,
      b,
    )

-- ===== src/Folder/Run/Order.antt =====
-- A folder is finished once, when the last of its children reports, and what it adds up does not
-- depend on their order (crates/openbc-ui-qt/cpp/viewers/folder/folder_compare_viewer.h).
use mathlib.Core.List.{foldr, Perm}
use mathlib.Core.List.Perm
use open_bc.Prelude.{
  ℕ, suc, ◌+◌, ◌-◌, Bool, true, false, ◌&&◌, ◌||◌, negate, List, [], ◌∷◌, length, ◌==◌, ◌≡◌, refl,
  sym, ap, ◌∙◌, arith,
}
use open_bc.Folder.Status.{is_same}
use open_bc.Folder.Run.{
  NodeState, FileResult, superseded, compared, result_class, add_file, finish, is_differing,
  add_folder_node, Report, file, below, add_report, report, finishes, all_finishes,
}

-- What a report says of differences, and the bytes that it brings.
unfoldable pub file_differs : FileResult → Bool
file_differs (superseded left_status right_status left_class) = negate (is_same left_class)
file_differs (compared succeeded equal) = negate (succeeded && equal)

unfoldable pub report_differs : Report → Bool
report_differs (file r) = file_differs r
report_differs (below child) = is_differing child

unfoldable pub report_bytes : (NodeState → ℕ) → Report → ℕ
report_bytes side (file r) = 0
report_bytes side (below child) = side child

abbrev pub or_differs : Report → Bool → Bool
or_differs r b = report_differs r || b

abbrev pub add_bytes : (NodeState → ℕ) → Report → ℕ → ℕ
add_bytes side r n = report_bytes side r + n

unfoldable pub any_differs : List Report → Bool
any_differs rs = foldr or_differs false rs

unfoldable pub sum_bytes : (NodeState → ℕ) → List Report → ℕ
sum_bytes side rs = foldr (add_bytes side) 0 rs

-- Every report taken.
unfoldable pub absorb : NodeState → List Report → NodeState
absorb s [] = s
absorb s (r ∷ rs) = absorb (report r s) rs

report-pending :
    (r : Report) (s : NodeState) → (report r s).pending_children ≡ s.pending_children - 1
unfolding report add_report add_file add_folder_node
report-pending (file (superseded a b c)) s = refl
report-pending (file (compared a b)) s = refl
report-pending (below child) s = refl

report-different :
    (r : Report) (s : NodeState) → (report r s).different ≡ (s.different || report_differs r)
unfolding report add_report add_file add_folder_node report_differs file_differs result_class
    is_same
report-different (file (superseded a b c)) s = refl
report-different (file (compared true true)) s = refl
report-different (file (compared true false)) s = refl
report-different (file (compared false b)) s = refl
report-different (below child) s = refl

report-left :
    (r : Report) (s : NodeState)
    → (report r s).left_bytes ≡ s.left_bytes + report_bytes (λ n. n.left_bytes) r
unfolding report add_report add_file add_folder_node report_bytes
report-left (file (superseded a b c)) s = omega arith
report-left (file (compared a b)) s = omega arith
report-left (below child) s = refl

report-right :
    (r : Report) (s : NodeState)
    → (report r s).right_bytes ≡ s.right_bytes + report_bytes (λ n. n.right_bytes) r
unfolding report add_report add_file add_folder_node report_bytes
report-right (file (superseded a b c)) s = omega arith
report-right (file (compared a b)) s = omega arith
report-right (below child) s = refl

-- What a folder is asked for does not change.
unfoldable pub flags : NodeState → Bool × Bool × Bool
flags s = (s.left_missing, s.right_missing, s.mismatched)

report-flags : (r : Report) (s : NodeState) → flags (report r s) ≡ flags s
unfolding report add_report add_file add_folder_node flags
report-flags (file (superseded a b c)) s = refl
report-flags (file (compared a b)) s = refl
report-flags (below child) s = refl

pub absorb-different :
    (s : NodeState) (rs : List Report) → (absorb s rs).different ≡ (s.different || any_differs rs)
unfolding absorb any_differs
absorb-different s [] = ground arith
absorb-different s (r ∷ rs) = ground (arith, absorb-different (report r s) rs, report-different r s)

pub absorb-left :
    (s : NodeState) (rs : List Report)
    → (absorb s rs).left_bytes ≡ s.left_bytes + sum_bytes (λ n. n.left_bytes) rs
unfolding absorb sum_bytes
absorb-left s [] = omega arith
absorb-left s (r ∷ rs) = omega (arith, absorb-left (report r s) rs, report-left r s)

pub absorb-right :
    (s : NodeState) (rs : List Report)
    → (absorb s rs).right_bytes ≡ s.right_bytes + sum_bytes (λ n. n.right_bytes) rs
unfolding absorb sum_bytes
absorb-right s [] = omega arith
absorb-right s (r ∷ rs) = omega (arith, absorb-right (report r s) rs, report-right r s)

pub absorb-flags : (s : NodeState) (rs : List Report) → flags (absorb s rs) ≡ flags s
unfolding absorb
absorb-flags s [] = refl
absorb-flags s (r ∷ rs) = absorb-flags (report r s) rs ∙ report-flags r s

finishes_once :
    (s : NodeState) (r : Report) (rs : List Report)
    → s.pending_children ≡ suc (length rs)
    → finishes s (r ∷ rs) ≡ finish (absorb s (r ∷ rs)) ∷ []
unfolding finishes absorb
finishes_once s r [] h = rw (last) refl
  where
    last : ((report r s).pending_children == 0) ≡ true
    last = ground (arith, report-pending r s, h)
finishes_once s r (q ∷ rs) h =
    rw (more) (finishes_once (report r s) q rs (omega (arith, report-pending r s, h)))
  where
    more : ((report r s).pending_children == 0) ≡ false
    more = ground (arith, report-pending r s, h)

pub all_finishes_once :
    (s : NodeState) (rs : List Report)
    → s.pending_children ≡ length rs
    → all_finishes s rs ≡ finish (absorb s rs) ∷ []
unfolding all_finishes
all_finishes_once s [] h = rw (none_left) (unfold finishes absorb in refl)
  where
    none_left : (s.pending_children == 0) ≡ true
    none_left = ground (arith, h)
all_finishes_once s (r ∷ rs) h = rw (some_left) (finishes_once s r rs h)
  where
    some_left : (s.pending_children == 0) ≡ false
    some_left = ground (arith, h)

Bool-set : IsSet Bool
Bool-set = hlevel

ℕ-set : IsSet ℕ
ℕ-set = hlevel

any_swap : (a b : Report) (x : Bool) → or_differs a (or_differs b x) ≡ or_differs b (or_differs a x)
any_swap a b x = ground arith

bytes_swap :
    (side : NodeState → ℕ) (a b : Report) (n : ℕ)
    → add_bytes side a (add_bytes side b n) ≡ add_bytes side b (add_bytes side a n)
bytes_swap side a b n = omega arith

abbrev one_more : Report → ℕ → ℕ
one_more r n = suc n

length_fold : (rs : List Report) → length rs ≡ foldr one_more 0 rs
length_fold [] = refl
length_fold (r ∷ rs) = ap suc (length_fold rs)

pub any_differs-Perm : (xs ys : List Report) → Perm xs ys → any_differs xs ≡ any_differs ys
unfolding any_differs
any_differs-Perm xs ys p = Perm.foldr-eq Bool-set or_differs any_swap p false

pub sum_bytes-Perm :
    (side : NodeState → ℕ) (xs ys : List Report)
    → Perm xs ys
    → sum_bytes side xs ≡ sum_bytes side ys
unfolding sum_bytes
sum_bytes-Perm side xs ys p = Perm.foldr-eq ℕ-set (add_bytes side) (bytes_swap side) p 0

pub length-Perm : (xs ys : List Report) → Perm xs ys → length xs ≡ length ys
length-Perm xs ys p =
    length_fold xs ∙ Perm.foldr-eq ℕ-set one_more (λ a b n. refl) p 0 ∙ sym (length_fold ys)

-- A folder with a comparison that failed counts as different.
unfoldable pub Keeps : NodeState → Type 0
Keeps s = s.pending_folders ≡ true → s.different ≡ true

report-Keeps : (r : Report) (s : NodeState) → Keeps s → Keeps (report r s)
unfolding Keeps report add_report add_file add_folder_node result_class is_same
report-Keeps (file (superseded a b c)) s k = λ p. ground (arith, k p)
report-Keeps (file (compared true b)) s k = λ p. ground (arith, p, k)
report-Keeps (file (compared false b)) s k = λ p. ground arith
report-Keeps (below child) s k = λ p. ground (arith, k p)

pub absorb-Keeps : (s : NodeState) (rs : List Report) → Keeps s → Keeps (absorb s rs)
unfolding absorb
absorb-Keeps s [] k = k
absorb-Keeps s (r ∷ rs) k = absorb-Keeps (report r s) rs (report-Keeps r s k)

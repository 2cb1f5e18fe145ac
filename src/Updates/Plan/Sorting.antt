-- ===== src/Updates/Plan/Sorting.antt =====
-- The sort puts the newest release first, keeps every release, and keeps the order of equal ones
-- (crates/openbc-ui-qt/cpp/home/release_logic.h).
use Prim.Native.Nat.{Ordering}
use open_bc.Prelude.{
  ℕ, Bool, true, false, List, [], ◌∷◌, Text, select, length, ◌≡◌, ◌≢◌, refl, ◌∙◌, arith, All,
  Ordered, Bool-cases, inl, inr,
}
use open_bc.Updates.Version.{compare_versions}
use open_bc.Updates.Version.Order.{compare_versions_preorder, equal_versions, flip}
use open_bc.Updates.Plan.{Release, before, insert, stable_sort, is_gt, is_eq}

-- No later release is newer.
pub NotOlder : Release → Release → Type 0
NotOlder a b = compare_versions a.tag b.tag ≢ Ordering.lt

module _ (p : Release → Bool) where
  -- How many releases pass a test.
  unfoldable pub count : List Release → ℕ
  count l = length (select p l)

  count-insert : (r : Release) (l : List Release) → count (insert r l) ≡ count (r ∷ l)
  unfolding count insert
  count-insert r [] = refl
  count-insert r (s ∷ l) = ground (arith, count-insert r l)

  count_cons :
      (r : Release) (k l : List Release) → count k ≡ count l → count (r ∷ k) ≡ count (r ∷ l)
  unfolding count
  count_cons r k l h = ground arith

  pub count-stable_sort : (l : List Release) → count (stable_sort l) ≡ count l
  unfolding stable_sort
  count-stable_sort [] = refl
  count-stable_sort (r ∷ l) =
      count-insert r (stable_sort l) ∙ count_cons r (stable_sort l) l (count-stable_sort l)

before-NotOlder : (a b : Release) → before a b ≡ true → NotOlder a b
unfolding before is_gt NotOlder
before-NotOlder a b h = ground arith

not_before-NotOlder : (a b : Release) → before a b ≡ false → NotOlder b a
unfolding before is_gt NotOlder flip
not_before-NotOlder a b h = ground (arith, (compare_versions_preorder a.tag b.tag a.tag).0)

NotOlder-trans : (a b c : Release) → NotOlder a b → NotOlder b c → NotOlder a c
unfolding NotOlder
NotOlder-trans a b c = (compare_versions_preorder a.tag b.tag c.tag).1

All-trans :
    (r s : Release) (l : List Release) → NotOlder r s → All (NotOlder s) l → All (NotOlder r) l
All-trans r s [] h all = tt
All-trans r s (t ∷ l) h all = (NotOlder-trans r s t h (all.0), All-trans r s l h (all.1))

All-insert :
    (P : Release → Type 0) (r : Release) (l : List Release) → P r → All P l → All P (insert r l)
unfolding insert
All-insert P r [] p all = (p, tt)
All-insert P r (s ∷ l) p all = elim (Bool-cases (before s r)) [
  | inl e ↦ rw e (all.0, All-insert P r l p (all.1))
  | inr e ↦ rw e (p, all)
]

insert-Ordered :
    (r : Release) (l : List Release) → Ordered NotOlder l → Ordered NotOlder (insert r l)
unfolding insert
insert-Ordered r [] h = (tt, tt)
insert-Ordered r (s ∷ l) h = elim (Bool-cases (before s r)) [
  | inl e ↦
      rw e (All-insert (NotOlder s) r l (before-NotOlder s r e) (h.0), insert-Ordered r l (h.1))
  | inr e ↦ rw e ((not_before-NotOlder s r e, All-trans r s l (not_before-NotOlder s r e) (h.0)), h)
]

pub stable_sort-Ordered : (l : List Release) → Ordered NotOlder (stable_sort l)
unfolding stable_sort
stable_sort-Ordered [] = tt
stable_sort-Ordered (r ∷ l) = insert-Ordered r (stable_sort l) (stable_sort-Ordered l)

-- Whether a release has the given version.
unfoldable pub has_version : Text → Release → Bool
unfolding is_eq
has_version v r = is_eq (compare_versions r.tag v)

same_version-not_before :
    (v : Text) (a b : Release)
    → has_version v a ≡ true
    → has_version v b ≡ true
    → before a b ≡ false
unfolding has_version before is_gt
same_version-not_before v a b p q = ground (arith, equal_versions a.tag b.tag v)

select-insert :
    (v : Text) (r : Release) (l : List Release)
    → select (has_version v) (insert r l) ≡ select (has_version v) (r ∷ l)
unfolding insert
select-insert v r [] = refl
select-insert v r (s ∷ l) = ground (arith, select-insert v r l, same_version-not_before v s r)

-- Releases of one version stay in the order in which they were published.
pub select-stable_sort :
    (v : Text) (l : List Release)
    → select (has_version v) (stable_sort l) ≡ select (has_version v) l
unfolding stable_sort
select-stable_sort v [] = refl
select-stable_sort v (r ∷ l) =
    select-insert v r (stable_sort l) ∙ ground (arith, select-stable_sort v l)

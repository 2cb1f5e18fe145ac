-- ===== src/Updates/Plan/Notices.antt =====
-- Which releases `plan` reports (crates/openbc-ui-qt/cpp/home/release_logic.h).
use mathlib.Core.List.{head?}
use open_bc.Prelude.{
  Bool, true, false, ◌&&◌, Option, some, none, List, [], ◌∷◌, ◌++◌, append_assoc, append-nil, Text,
  select, length, if◌then◌else◌, ◌≡◌, refl, sym, ap, ◌∙◌, arith, Ordered, select-select,
  Ordered-select, Bool-cases, inl, inr,
}
use open_bc.Updates.Version.{compare_versions}
use open_bc.Updates.Plan.{
  Release, Plan, is_parsable, stable_sort, is_gt, is_eq, visit, visit_all, is_seen, plan,
}
use open_bc.Updates.Plan.Sorting.{
  NotOlder, stable_sort-Ordered, count, count-stable_sort, has_version, select-stable_sort,
}

pub newer_than : Text → Release → Bool
newer_than current r = is_gt (compare_versions r.tag current)

module _ (current : Text) (seen : Bool) where
  visit_all-newer :
      (l : List Release) (out : Plan)
      → (visit_all current seen l out).newer ≡ out.newer ++ select (newer_than current) l
  unfolding visit_all visit newer_than
  visit_all-newer [] out = sym (append-nil out.newer)
  visit_all-newer (r ∷ l) out = elim (Bool-cases (is_gt (compare_versions r.tag current))) [
    | inl e ↦ rw (visit_all-newer l _, e) (append_assoc out.newer (r ∷ []) _)
    | inr e ↦ rw (visit_all-newer l _, e) (ground arith)
  ]

-- The first of two, if there is one.
pub or_else : Option Release → Option Release → Option Release
or_else none b = b
or_else (some a) b = some a

visit_all-whats_new :
    (current : Text) (l : List Release) (out : Plan)
    → (visit_all current false l out).whats_new
      ≡ or_else out.whats_new (head? (select (has_version current) l))
unfolding visit_all visit or_else has_version is_gt is_eq
visit_all-whats_new current [] out = ground arith
visit_all-whats_new current (r ∷ l) out = rw (visit_all-whats_new current l _) (ground arith)

visit_all-seen :
    (current : Text) (l : List Release) (out : Plan)
    → (visit_all current true l out).whats_new ≡ out.whats_new
unfolding visit_all visit
visit_all-seen current [] out = refl
visit_all-seen current (r ∷ l) out = rw (visit_all-seen current l _) (ground arith)

plan-newer :
    (releases : List Release) (current last_seen skipped : Text)
    → (plan releases current last_seen skipped).newer
      ≡ select (newer_than current) (stable_sort (select is_parsable releases))
unfolding plan
plan-newer releases current last_seen skipped = visit_all-newer current _ _ _

count-select :
    (p q : Release → Bool) (l : List Release) → count p (select q l) ≡ count (λ r. q r && p r) l
unfolding count
count-select p q l = ap length (select-select p q l)

-- The releases that the update notice lists are those with a version newer than the running one, as
-- often as they were published, and sorted with the newest first.
pub plan-newer_sorted :
    (releases : List Release) (current last_seen skipped : Text)
    → Ordered NotOlder (plan releases current last_seen skipped).newer
      × ((p : Release → Bool)
          → count p (plan releases current last_seen skipped).newer
            ≡ count (λ r. is_parsable r && (newer_than current r && p r)) releases)
plan-newer_sorted releases current last_seen skipped = (
  rw plan-newer (Ordered-select NotOlder (newer_than current) _ (stable_sort-Ordered _)),
  λ p. rw plan-newer (
      count-select p (newer_than current) _
      ∙ (count-stable_sort _ (select is_parsable releases) ∙ count-select _ is_parsable releases)),
)

-- The change log shown after an update is that of the first published release of the running
-- version; none is shown once it was seen.
pub plan-whats_new :
    (releases : List Release) (current last_seen skipped : Text)
    → (plan releases current last_seen skipped).whats_new ≡ (
        if is_seen last_seen current
        then none
        else head? (select (λ r. is_parsable r && has_version current r) releases))
unfolding plan
plan-whats_new releases current last_seen skipped = elim (Bool-cases (is_seen last_seen current)) [
  | inl e ↦ rw e (visit_all-seen current _ _)
  | inr e ↦ rw e (
      visit_all-whats_new current _ _
      ∙ (unfold or_else in
          ap head? (
            select-stable_sort current (select is_parsable releases)
            ∙ select-select (has_version current) is_parsable releases)))
]

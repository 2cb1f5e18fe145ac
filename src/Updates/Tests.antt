-- ===== src/Updates/Tests.antt =====
-- Versions and releases on concrete texts (crates/openbc-ui-qt/cpp/common/release_logic.h).
use mathlib.Core.List.{head?}
use open_bc.Prelude.{
  ℕ, ◌≤◌, Bool, ◌&&◌, none, List, [], ◌∷◌, Text, map, codes, All, Ordered, select, if◌then◌else◌,
  ◌≡◌, ◌≢◌, ◌↔◌, arith,
}
use open_bc.Updates.Version.{parse_version, compare_versions, max_component}
use open_bc.Updates.Version.Bounds.{clamped, exact_version, parse_version_exact}
use open_bc.Updates.Version.RoundTrip.{print_version, parse-print_version}
use open_bc.Updates.Version.Order.{flip, part, compare_versions_preorder, compare_versions-eq}
use open_bc.Updates.Plan.{Release, plan, is_parsable, is_seen}
use open_bc.Updates.Plan.Sorting.{NotOlder, count, has_version}
use open_bc.Updates.Plan.Notices.{newer_than, plan-newer_sorted, plan-whats_new}
use Prim.Native.Nat.{Ordering}

abbrev numbers : List ℕ
numbers = 1 ∷ 2 ∷ 3 ∷ []

one_two_three_small : All (λ n. n ≤ max_component) numbers
one_two_three_small = ground arith

one_two_three_some : numbers ≢ []
one_two_three_some = ground arith

parse-print_version_example : parse_version (print_version numbers) ≡ numbers
parse-print_version_example = parse-print_version numbers one_two_three_small one_two_three_some

parse_version_exact_example :
    parse_version (codes "v1.99999999999") ≡ map clamped (exact_version (codes "v1.99999999999"))
parse_version_exact_example = parse_version_exact (codes "v1.99999999999")

compare_versions_preorder_example :
    (compare_versions (codes "1.2") (codes "v1.10")
      ≡ flip (compare_versions (codes "v1.10") (codes "1.2")))
    × (compare_versions (codes "v1.10") (codes "1.2") ≢ Ordering.lt
        → compare_versions (codes "1.2") (codes "1.1.9") ≢ Ordering.lt
        → compare_versions (codes "v1.10") (codes "1.1.9") ≢ Ordering.lt)
compare_versions_preorder_example =
    compare_versions_preorder (codes "v1.10") (codes "1.2") (codes "1.1.9")

compare_versions-eq_example :
    ((compare_versions (codes "nightly") (codes "v0.0") ≡ Ordering.eq) ↔ (
      (i : ℕ) → part (parse_version (codes "nightly")) i ≡ part (parse_version (codes "v0.0")) i))
    × (parse_version (codes "nightly") ≡ []
        → (compare_versions (codes "nightly") (codes "v0.0") ≡ Ordering.eq)
          ↔ ((i : ℕ) → part (parse_version (codes "v0.0")) i ≡ 0))
compare_versions-eq_example = compare_versions-eq (codes "nightly") (codes "v0.0")

release : Text → Release
release tag = record { tag = tag; title = tag; body = []; url = []; published = [] }

published : List Release
published = release (codes "v1.2.0") ∷ release (codes "nightly") ∷ release (codes "v1.10.0") ∷ []

plan-newer_sorted_example :
    Ordered NotOlder (plan published (codes "1.2.0") (codes "1.1") []).newer
    × ((p : Release → Bool)
        → count p (plan published (codes "1.2.0") (codes "1.1") []).newer
          ≡ count (λ r. is_parsable r && (newer_than (codes "1.2.0") r && p r)) published)
plan-newer_sorted_example = plan-newer_sorted published (codes "1.2.0") (codes "1.1") []

plan-whats_new_example : (plan published (codes "1.2.0") (codes "1.1") []).whats_new ≡ (
    if is_seen (codes "1.1") (codes "1.2.0")
    then none
    else head? (select (λ r. is_parsable r && has_version (codes "1.2.0") r) published))
plan-whats_new_example = plan-whats_new published (codes "1.2.0") (codes "1.1") []

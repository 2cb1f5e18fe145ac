-- ===== src/Updates/Plan.antt =====
-- `plan`: which release notices to show (crates/openbc-ui-qt/cpp/home/release_logic.h).
pub mod Sorting
pub mod Notices
use Prim.Native.Nat.{Ordering}
use open_bc.Prelude.{
  Bool, true, false, ◌&&◌, negate, Option, some, none, List, [], ◌∷◌, ◌++◌, Text, is_empty, select,
  same, if◌then◌else◌,
}
use open_bc.Updates.Version.{parse_version, compare_versions}

pub record Release : Type 0 where
  pub tag : Text
  pub title : Text
  pub body : Text
  pub url : Text
  pub published : Text

unfoldable pub is_parsable : Release → Bool
is_parsable r = negate (is_empty (parse_version r.tag))

unfoldable pub is_gt : Ordering → Bool
is_gt Ordering.gt = true
is_gt _ = false

unfoldable pub is_eq : Ordering → Bool
is_eq Ordering.eq = true
is_eq _ = false

-- The order of the sort: newest first.
unfoldable pub before : Release → Release → Bool
before a b = is_gt (compare_versions a.tag b.tag)

-- `std::stable_sort`, by insertion: a release goes behind those that must precede it, and in front
-- of its equals that stood behind it.
unfoldable pub insert : Release → List Release → List Release
insert r [] = r ∷ []
insert r (s ∷ rest) = let moved = s ∷ insert r rest in if before s r then moved else r ∷ s ∷ rest

unfoldable pub stable_sort : List Release → List Release
stable_sort [] = []
stable_sort (r ∷ rs) = insert r (stable_sort rs)

-- `whats_new` is the release to show the change log of, when it is shown.
pub record Plan : Type 0 where
  pub whats_new : Option Release
  pub show_update : Bool
  pub newer : List Release

unfoldable pub visit : Text → Bool → Release → Plan → Plan
unfolding is_gt is_eq
visit current seen r out =
    let cmp = compare_versions r.tag current in
    if is_gt cmp
    then record out { newer = out.newer ++ r ∷ [] }
    else if is_eq cmp && negate seen
    then record out { whats_new = elim out.whats_new [ none ↦ some r | some w ↦ some w ] }
    else out

unfoldable pub visit_all : Text → Bool → List Release → Plan → Plan
visit_all current seen [] out = out
visit_all current seen (r ∷ rs) out = visit_all current seen rs (visit current seen r out)

unfoldable pub front_differs : List Release → Text → Bool
front_differs [] skipped = false
front_differs (r ∷ rs) skipped = negate (same r.tag skipped)

unfoldable pub is_seen : Text → Text → Bool
unfolding is_eq
is_seen last_seen current =
    negate (is_empty last_seen) && is_eq (compare_versions last_seen current)

pub plan : List Release → Text → Text → Text → Plan
plan releases current last_seen skipped =
    let usable = stable_sort (select is_parsable releases) in
    let out =
      visit_all current (is_seen last_seen current) usable
        (record { whats_new = none; show_update = false; newer = [] }) in
    record out { show_update = front_differs out.newer skipped }

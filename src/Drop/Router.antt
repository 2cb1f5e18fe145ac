-- ===== src/Drop/Router.antt =====
-- `route` of crates/openbc-ui-qt/cpp/common/drop_router.h, in the phases of its body: the checks on
-- the items, the comparison type, the sides, the tab.
mod Frames
pub mod Checks
pub mod Destination
pub mod Sides
pub mod Tests
use mathlib.Core.List.{head?}
use open_bc.Prelude.{
  ℕ, Bool, true, false, ◌&&◌, ◌||◌, negate, Option, some, none, List, [], ◌∷◌, ◌++◌, Text, codes,
  ltb, length, is_empty, decimal, if◌then◌else◌,
}
use open_bc.Viewers.{ViewerKind}
use open_bc.Drop.Types.{
  TabKind, Occupancy, Side, Action, Assign, Item, TabContext, Decision, same_tab, name,
  tab_kind_for,
}

unfoldable pub reject : Text → Decision
reject message = record {
  action = Action.reject;
  target = TabKind.home;
  assign = Assign.nothing;
  left = [];
  right = [];
  run = false;
  confirm_discard = false;
  message = message;
}

unfoldable pub nothing_usable : Text
nothing_usable = codes "Nothing to open: the drop contained no usable files or folders."

unfoldable pub too_many : ℕ → Text
too_many n =
    codes "Drop one or two items at a time to compare ("
    ++ decimal n
    ++ codes " were dropped). Nothing was opened."

unfoldable pub folder_with_file : Text
folder_with_file = codes "A folder cannot be compared with a file. Drop two folders or two files."

unfoldable pub different_types : TabKind → TabKind → Text
different_types first second =
    codes "Different file types ("
    ++ name first
    ++ codes " / "
    ++ name second
    ++ codes "): opened as a byte-level Hex Compare."

unfoldable pub tab_kept : TabKind → TabKind → Text
tab_kept tab target =
    codes "The "
    ++ name tab
    ++ codes " tab was kept as it is; opened "
    ++ name target
    ++ codes " in a new tab."

-- The loop over the items: whether any is a folder, and whether all are.
unfoldable pub scan_dirs : List Item → Bool → Bool → Bool × Bool
scan_dirs [] any all = (any, all)
scan_dirs (it ∷ items) any all = scan_dirs items (any || it.is_dir) (all && it.is_dir)

-- The comparison type and the note on a fallback to Hex.
unfoldable pub choose_target : Bool → Item → Option Item → TabKind × Text
choose_target true a b = (TabKind.folder, [])
choose_target false a none = (tab_kind_for a.kind, [])
choose_target false a (some b) =
    let first = tab_kind_for a.kind in
    let second = tab_kind_for b.kind in
    if same_tab second first then (first, []) else (TabKind.hex, different_types first second)

-- The side that a single item fills in a tab of its kind.
unfoldable pub side_for_one : TabContext → Option Side → Assign
side_for_one ctx (some Side.right) = Assign.only_right
side_for_one ctx (some Side.left) = Assign.only_left
side_for_one ctx none =
    if negate ctx.left_set
    then Assign.only_left
    else if negate ctx.right_set
    then Assign.only_right
    else Assign.only_left

-- Writes the path to the chosen side, and runs if the other side is set.
unfoldable pub fill_side : TabContext → Text → Assign → Decision → Decision
fill_side ctx path Assign.only_left d = record d {
  assign = Assign.only_left;
  left = path;
  run = ctx.right_set;
}
fill_side ctx path assign d = record d { assign = assign; right = path; run = ctx.left_set }

unfoldable pub place : TabContext → Bool → Item → Option Item → Decision → Decision
unfolding side_for_one fill_side
place ctx same_kind a (some b) d = record d {
  assign = Assign.both;
  left = a.path;
  right = b.path;
  run = true;
}
place ctx true a none d = fill_side ctx a.path (side_for_one ctx ctx.side_hint) d
place ctx false a none d = record d { assign = Assign.only_left; left = a.path; run = false }

unfoldable pub is_dirty : Occupancy → Bool
is_dirty Occupancy.dirty = true
is_dirty _ = false

unfoldable pub is_vacant : Occupancy → Bool
is_vacant Occupancy.empty = true
is_vacant _ = false

unfoldable pub handle_tab : TabContext → Bool → Decision → Decision
unfolding is_dirty is_vacant
handle_tab ctx same_kind d =
    if same_tab ctx.tab TabKind.home
    then record d { action = Action.open_new_tab }
    else if same_kind
    then record d { action = Action.apply_to_tab; confirm_discard = is_dirty ctx.occupancy }
    else if is_vacant ctx.occupancy
    then record d { action = Action.replace_empty_tab }
    else record d { action = Action.open_new_tab; message = tab_kept ctx.tab d.target }

unfoldable pub add_note : Text → Decision → Decision
add_note note d =
    if is_empty note
    then d
    else record d { message = if is_empty d.message then note else note ++ codes " " ++ d.message }

-- The phases after the comparison type is known.
unfoldable pub settle : TabContext → Item → Option Item → TabKind → Text → Decision
settle ctx a b target note =
    let same_kind = same_tab ctx.tab target in
    add_note note
      (handle_tab ctx same_kind (place ctx same_kind a b (record (reject []) { target = target })))

-- What follows the checks, for one item or two.
unfoldable pub accept : TabContext → Bool → Item → Option Item → Decision
accept ctx all_dir a b =
    let chosen = choose_target all_dir a b in settle ctx a b (chosen.0) (chosen.1)

unfoldable pub route : TabContext → List Item → Decision
route ctx [] = reject nothing_usable
route ctx (a ∷ rest) =
    if ltb 2 (length (a ∷ rest))
    then reject (too_many (length (a ∷ rest)))
    else let dirs = scan_dirs (a ∷ rest) false true in
      if dirs.0 && negate dirs.1 then reject folder_with_file else accept ctx dirs.1 a (head? rest)

-- ===== src/Drop/Window.antt =====
-- The drop block of crates/openbc-ui-qt/cpp/app/main_window.h: from a tab to the router's context,
-- and from the router's decision to what happens to the window, as a list of effects in order.
pub mod Effects
pub mod Tests
use open_bc.Prelude.{
  Bool, true, false, ◌&&◌, ◌||◌, negate, Option, some, none, List, [], ◌∷◌, ◌++◌, Text, codes,
  is_empty, if◌then◌else◌,
}
use open_bc.Drop.Types.{TabKind, Occupancy, Side, Action, Item, TabContext, Decision}
use open_bc.Drop.Router.{route}

-- The widget classes that a tab may hold.
pub data Viewer : Type 0 where
  home folder text virtual_text picture model3d table registry hex media : Viewer

pub record Tab : Type 0 where
  pub viewer : Viewer
  pub left_text : Text
  pub right_text : Text
  -- What `hasUnsavedChanges` answers, where the class has it.
  pub unsaved : Bool

pub kind_of : Viewer → TabKind
kind_of Viewer.home = TabKind.home
kind_of Viewer.folder = TabKind.folder
kind_of Viewer.text = TabKind.text
kind_of Viewer.virtual_text = TabKind.text
kind_of Viewer.picture = TabKind.picture
kind_of Viewer.model3d = TabKind.model3d
kind_of Viewer.table = TabKind.table
kind_of Viewer.registry = TabKind.registry
kind_of Viewer.hex = TabKind.hex
kind_of Viewer.media = TabKind.media

-- The classes that are asked for unsaved changes; the others never have any.
pub asked : Viewer → Bool
asked Viewer.text = true
asked Viewer.table = true
asked Viewer.registry = true
asked Viewer.media = true
asked _ = false

pub occupancy_of : Bool → Bool → Bool → Occupancy
occupancy_of dirty left_set right_set =
    if dirty
    then Occupancy.dirty
    else if left_set || right_set
    then Occupancy.populated
    else Occupancy.empty

blank_context : TabContext
blank_context = record {
  tab = TabKind.home;
  occupancy = Occupancy.empty;
  left_set = false;
  right_set = false;
  side_hint = none;
}

-- The context of a compare tab; Home returns early with the defaults.
pub viewer_context : Tab → TabContext
viewer_context w =
    let left_set = negate (is_empty w.left_text) in
    let right_set = negate (is_empty w.right_text) in
    record {
      tab = kind_of w.viewer;
      occupancy = occupancy_of (asked w.viewer && w.unsaved) left_set right_set;
      left_set = left_set;
      right_set = right_set;
      side_hint = none;
    }

is_home : Viewer → Bool
is_home Viewer.home = true
is_home _ = false

pub drop_context_for : Tab → TabContext
unfolding blank_context is_home
drop_context_for w = if is_home w.viewer then blank_context else viewer_context w

-- The context with the side under the cursor.
pub hinted_context : Tab → Option Side → TabContext
hinted_context w hint = record (drop_context_for w) { side_hint = hint }

-- What the handler does to the window, one constructor for each call.
pub data Effect : Type 0 where
  say : Text → Effect
  focus_destination apply_moves_tab close_destination focus_fresh : Effect
  apply_dropped_paths : Text → Text → Effect
  open_kind_tab : TabKind → Text → Text → Effect

-- `problems.join("  |  ")` and `notes.join("  ")`.
pub join : Text → List Text → Text
join separator [] = []
join separator (t ∷ []) = t
join separator (t ∷ u ∷ ts) = t ++ separator ++ join separator (u ∷ ts)

-- The status bar is written only if there is something to say.
pub say_nonempty : Text → List Effect
say_nonempty message = if is_empty message then [] else say message ∷ []

notes_for : Text → Text → List Text
notes_for message problems =
    (if is_empty message then [] else message ∷ [])
    ++ (if is_empty problems then [] else (codes "Ignored: " ++ problems) ∷ [])

-- `fresh_found` and `slot_found`: whether the new tab and both positions exist.
pub perform : Bool → Bool → Decision → List Effect
perform fresh_found slot_found d = elim d.action [
  | Action.apply_to_tab ↦ focus_destination ∷ apply_dropped_paths d.left d.right ∷ []
  | Action.replace_empty_tab ↦
      open_kind_tab d.target d.left d.right
        ∷ (if fresh_found && slot_found then apply_moves_tab ∷ [] else [])
      ++ close_destination ∷ (if fresh_found then focus_fresh ∷ [] else [])
  | Action.open_new_tab ↦ open_kind_tab d.target d.left d.right ∷ []
  | Action.reject ↦ []
]

is_reject : Action → Bool
is_reject Action.reject = true
is_reject _ = false

pub follow : Bool → Bool → List Item → Text → Decision → List Effect
unfolding notes_for is_reject
follow fresh_found slot_found items problems d =
    if is_reject d.action
    then say_nonempty (if is_empty items && negate (is_empty problems) then problems else d.message)
    else perform fresh_found slot_found d
      ++ say_nonempty (join (codes "  ") (notes_for d.message problems))

-- `handleDrop`, for the items and the problems of the parsed drop.
pub handle_drop : Bool → Bool → Tab → Option Side → List Item → List Text → List Effect
handle_drop fresh_found slot_found w hint items problems =
    follow fresh_found slot_found items (join (codes "  |  ") problems)
      (route (hinted_context w hint) items)

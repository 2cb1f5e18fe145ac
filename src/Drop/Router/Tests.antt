-- ===== src/Drop/Router/Tests.antt =====
-- Drops on a text tab, decided (crates/openbc-ui-qt/cpp/common/drop_router.h).
use open_bc.Prelude.{
  Text, codes, true, false, none, [], ◌∷◌, ◌≡◌, ◌≢◌, ◌↔◌, ◌&&◌, refl, negate, is_empty,
}
use open_bc.Viewers.{ViewerKind}
use open_bc.Drop.Types.{TabKind, Occupancy, Action, Item, TabContext, same_tab, tab_kind_for}
use open_bc.Drop.Router.{
  route, scan_dirs, accept, settle, choose_target, place, handle_tab, fill_side, side_for_one,
  add_note,
}
use open_bc.Drop.Router.Checks.{IsUsable, one, route-IsUsable}
use open_bc.Drop.Router.Destination.{Destination, route-Destination, route_keeps_unsaved}
use open_bc.Drop.Router.Sides.{sides_after, after, Shows, route-sides_after}

abbrev notes_path : Text
notes_path = codes "/tmp/notes.txt"

abbrev notes : Item
notes = record { path = notes_path; is_dir = false; kind = ViewerKind.text }

abbrev photo : Item
photo = record { path = codes "/tmp/photo.png"; is_dir = false; kind = ViewerKind.picture }

abbrev other_notes : Item
other_notes = record { path = codes "/tmp/other.txt"; is_dir = false; kind = ViewerKind.text }

-- A text tab with unsaved work on its left side.
abbrev dirty_text : TabContext
dirty_text = record {
  tab = TabKind.text;
  occupancy = Occupancy.dirty;
  left_set = true;
  right_set = false;
  side_hint = none;
}

notes_usable : (route dirty_text (notes ∷ [])).action ≢ Action.reject
notes_usable = (route-IsUsable dirty_text (notes ∷ [])).1 (one notes)

shows : Shows dirty_text (codes "draft") []
shows = record { on_left = refl; on_right = refl }

same_kind : (route dirty_text (notes ∷ [])).target ≡ dirty_text.tab
unfolding route scan_dirs accept settle choose_target place handle_tab fill_side side_for_one
    add_note same_tab tab_kind_for
same_kind = refl

route-IsUsable_example :
    ((route dirty_text (notes ∷ photo ∷ [])).action ≢ Action.reject) ↔ IsUsable (notes ∷ photo ∷ [])
route-IsUsable_example = route-IsUsable dirty_text (notes ∷ photo ∷ [])

route-Destination_example :
    Destination TabKind.text
      (route dirty_text (notes ∷ [])).target
      Occupancy.dirty
      (route dirty_text (notes ∷ [])).action
      (route dirty_text (notes ∷ [])).confirm_discard
route-Destination_example = route-Destination dirty_text (notes ∷ []) notes_usable

route_keeps_unsaved_example :
    ((route dirty_text (photo ∷ [])).action ≢ Action.replace_empty_tab)
    × ((route dirty_text (photo ∷ [])).action ≡ Action.apply_to_tab
        → (route dirty_text (photo ∷ [])).confirm_discard ≡ true)
route_keeps_unsaved_example = route_keeps_unsaved dirty_text (photo ∷ []) refl

route-sides_after_example :
    ((
      after (codes "draft") (route dirty_text (notes ∷ [])).left,
      after [] (route dirty_text (notes ∷ [])).right,
    )
      ≡ sides_after (codes "draft") [] none notes_path)
    × ((route dirty_text (notes ∷ [])).run ≡ (
        negate (is_empty (sides_after (codes "draft") [] none notes_path).0)
        && negate (is_empty (sides_after (codes "draft") [] none notes_path).1)))
route-sides_after_example =
    route-sides_after dirty_text (codes "draft") [] shows notes_path refl notes refl same_kind

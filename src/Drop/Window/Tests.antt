-- ===== src/Drop/Window/Tests.antt =====
-- A drop on an empty picture tab (crates/openbc-ui-qt/cpp/app/main_window.h).
use open_bc.Prelude.{codes, true, false, none, [], ◌∷◌, ◌≡◌, ◌≢◌, ◌&&◌, refl}
use open_bc.Viewers.{ViewerKind}
use open_bc.Drop.Types.{Item, same_tab, tab_kind_for}
use open_bc.Drop.Router.{
  route, scan_dirs, accept, settle, choose_target, place, handle_tab, fill_side, side_for_one,
  add_note, is_dirty, is_vacant,
}
use open_bc.Drop.Window.{
  Viewer, Tab, handle_drop, follow, perform, is_reject, hinted_context, drop_context_for,
  viewer_context, occupancy_of, asked, kind_of, is_home,
}
use open_bc.Drop.Window.Effects.{closes, handle_drop-closes_empty}

abbrev empty_picture : Tab
empty_picture = record { viewer = Viewer.picture; left_text = []; right_text = []; unsaved = false }

abbrev notes : Item
notes = record { path = codes "/tmp/notes.txt"; is_dir = false; kind = ViewerKind.text }

text_closes_picture : closes (handle_drop true true empty_picture none (notes ∷ []) []) ≡ true
unfolding closes handle_drop follow perform is_reject hinted_context drop_context_for viewer_context
    occupancy_of asked kind_of is_home route scan_dirs accept settle choose_target place handle_tab
    fill_side side_for_one add_note is_dirty is_vacant same_tab tab_kind_for
text_closes_picture = refl

handle_drop-closes_empty_example :
    (empty_picture.viewer ≢ Viewer.home)
    × (empty_picture.left_text ≡ [])
    × (empty_picture.right_text ≡ [])
    × ((asked empty_picture.viewer && empty_picture.unsaved) ≡ false)
handle_drop-closes_empty_example =
    handle_drop-closes_empty true true empty_picture none (notes ∷ []) [] text_closes_picture

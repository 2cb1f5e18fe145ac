-- ===== src/Drop/Router/Frames.antt =====
-- What each phase of `route` (crates/openbc-ui-qt/cpp/common/drop_router.h) leaves as it was.
use open_bc.Prelude.{Bool, true, false, Option, some, none, [], ◌∷◌, Text, ◌≡◌, refl, arith}
use open_bc.Drop.Types.{Item, TabContext, Decision, TabKind}
use open_bc.Drop.Router.{
  accept, settle, route, scan_dirs, place, handle_tab, add_note, fill_side, side_for_one,
}

module _ (note : Text) (d : Decision) where
  pub add_note-action : (add_note note d).action ≡ d.action
  unfolding add_note
  add_note-action = ground arith

  pub add_note-target : (add_note note d).target ≡ d.target
  unfolding add_note
  add_note-target = ground arith

  pub add_note-confirm_discard : (add_note note d).confirm_discard ≡ d.confirm_discard
  unfolding add_note
  add_note-confirm_discard = ground arith

  pub add_note-left : (add_note note d).left ≡ d.left
  unfolding add_note
  add_note-left = ground arith

  pub add_note-right : (add_note note d).right ≡ d.right
  unfolding add_note
  add_note-right = ground arith

  pub add_note-run : (add_note note d).run ≡ d.run
  unfolding add_note
  add_note-run = ground arith

module _ (ctx : TabContext) (k : Bool) (d : Decision) where
  pub handle_tab-target : (handle_tab ctx k d).target ≡ d.target
  unfolding handle_tab
  handle_tab-target = ground arith

  pub handle_tab-left : (handle_tab ctx k d).left ≡ d.left
  unfolding handle_tab
  handle_tab-left = ground arith

  pub handle_tab-right : (handle_tab ctx k d).right ≡ d.right
  unfolding handle_tab
  handle_tab-right = ground arith

  pub handle_tab-run : (handle_tab ctx k d).run ≡ d.run
  unfolding handle_tab
  handle_tab-run = ground arith

module _ (ctx : TabContext) where
  pub place-target :
      (k : Bool) (a : Item) (b : Option Item) (d : Decision) → (place ctx k a b d).target ≡ d.target
  unfolding place fill_side side_for_one
  place-target k a (some b) d = refl
  place-target true a none d = ground arith
  place-target false a none d = refl

  pub place-confirm_discard :
      (k : Bool) (a : Item) (b : Option Item) (d : Decision)
      → (place ctx k a b d).confirm_discard ≡ d.confirm_discard
  unfolding place fill_side side_for_one
  place-confirm_discard k a (some b) d = refl
  place-confirm_discard true a none d = ground arith
  place-confirm_discard false a none d = refl

-- One item is never rejected.
pub route-singleton :
    (ctx : TabContext) (a : Item) → route ctx (a ∷ []) ≡ accept ctx a.is_dir a none
unfolding route scan_dirs
route-singleton ctx a = ground arith

pub ruleset frames = (
  add_note-action, add_note-target, add_note-confirm_discard, add_note-left, add_note-right,
  add_note-run, handle_tab-target, handle_tab-left, handle_tab-right, handle_tab-run, place-target,
  place-confirm_discard,
)

pub settle-target :
    (ctx : TabContext) (a : Item) (b : Option Item) (target : TabKind) (note : Text)
    → (settle ctx a b target note).target ≡ target
unfolding settle
settle-target ctx a b target note = simp frames

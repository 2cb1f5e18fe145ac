-- ===== src/Drop/Window/Effects.antt =====
-- What a drop may do to the tabs (`handleDrop` of crates/openbc-ui-qt/cpp/app/main_window.h).
use mathlib.Core.Bool.{false≢true, or-false}
use open_bc.Prelude.{
  Bool, true, false, ◌&&◌, ◌||◌, negate, Option, List, [], ◌∷◌, ◌++◌, Text, is_empty, ◌≡◌, ◌≢◌,
  refl, sym, ap, ◌∙◌, inl, inr, arith, Bool-cases,
}
use open_bc.Drop.Types.{TabKind, Occupancy, Side, Action, Item, TabContext, Decision}
use open_bc.Drop.Router.{route}
use open_bc.Drop.Router.Destination.{replaced-Destination, route-Destination}
use open_bc.Drop.Window.{
  Tab, Viewer, Effect, say, close_destination, say_nonempty, perform, follow, is_reject,
  handle_drop, hinted_context, drop_context_for, viewer_context, occupancy_of, asked, is_home,
  blank_context,
}

-- Whether a run of effects closes the destination.
unfoldable pub closes : List Effect → Bool
closes [] = false
closes (close_destination ∷ es) = true
closes (_ ∷ es) = closes es

closes-append : (es fs : List Effect) → closes (es ++ fs) ≡ (closes es || closes fs)
unfolding closes
closes-append [] fs = refl
closes-append (close_destination ∷ es) fs = refl
closes-append (say _ ∷ es) fs = closes-append es fs
closes-append (_ ∷ es) fs = closes-append es fs

closes-say_nonempty : (t : Text) → closes (say_nonempty t) ≡ false
unfolding closes say_nonempty
closes-say_nonempty t = ground arith

closes-perform :
    (x y : Bool) (d : Decision)
    → closes (perform x y d) ≡ true
    → d.action ≡ Action.replace_empty_tab
unfolding closes perform
closes-perform x y d h = ground arith

closes-follow :
    (x y : Bool) (items : List Item) (problems : Text) (d : Decision)
    → closes (follow x y items problems d) ≡ true
    → closes (perform x y d) ≡ true
unfolding follow
closes-follow x y items problems d h = elim (Bool-cases (is_reject d.action)) [
  | inl e ↦ absurd (false≢true (sym (closes-say_nonempty _) ∙ (rw e at h)))
  | inr e ↦ simp (closes-append, closes-say_nonempty, or-false) at (rw e at h)
]

occupancy_of-empty :
    (dirty l r : Bool)
    → occupancy_of dirty l r ≡ Occupancy.empty
    → (dirty ≡ false) × (l ≡ false) × (r ≡ false)
unfolding occupancy_of
occupancy_of-empty dirty l r h = ground arith

is_empty-nil : (t : Text) → negate (is_empty t) ≡ false → t ≡ []
is_empty-nil [] h = refl
is_empty-nil (c ∷ t) h = cc

viewer_context-occupancy :
    (w : Tab)
    → (viewer_context w).occupancy ≡ Occupancy.empty
    → occupancy_of
        (asked w.viewer && w.unsaved)
        (negate (is_empty w.left_text))
        (negate (is_empty w.right_text))
      ≡ Occupancy.empty
unfolding viewer_context
viewer_context-occupancy w h = h

-- A context that describes an empty compare tab comes from one.
vacant-context :
    (w : Tab) (hint : Option Side)
    → ((hinted_context w hint).tab ≢ TabKind.home)
      × ((hinted_context w hint).occupancy ≡ Occupancy.empty)
    → (w.viewer ≢ Viewer.home)
      × (w.left_text ≡ [])
      × (w.right_text ≡ [])
      × ((asked w.viewer && w.unsaved) ≡ false)
unfolding hinted_context drop_context_for blank_context is_home
vacant-context w hint h = elim (Bool-cases (is_home w.viewer)) [
  | inl e ↦ absurd (h.0 (rw e))
  | inr e ↦
      let facts = occupancy_of-empty _ _ _ (viewer_context-occupancy w (rw e at (h.1))) in
      ((λ f. not_home e f), is_empty-nil _ (facts.1), is_empty-nil _ (facts.2), facts.0)
]
  where
    not_home : is_home w.viewer ≡ false → w.viewer ≢ Viewer.home
    not_home e f = false≢true (sym e ∙ ap is_home f)

-- A drop closes the tab it lands on only if that is a compare tab that shows nothing on either side
-- and, if its class is asked for unsaved changes, has none.
pub handle_drop-closes_empty :
    (fresh_found slot_found : Bool) (w : Tab) (hint : Option Side) (items : List Item)
    (problems : List Text)
    → closes (handle_drop fresh_found slot_found w hint items problems) ≡ true
    → (w.viewer ≢ Viewer.home)
      × (w.left_text ≡ [])
      × (w.right_text ≡ [])
      × ((asked w.viewer && w.unsaved) ≡ false)
unfolding handle_drop
handle_drop-closes_empty x y w hint items problems h =
    vacant-context w hint (replaced-Destination (route-Destination ctx items taken) replaced)
  where
    ctx : TabContext
    ctx = hinted_context w hint

    replaced : (route ctx items).action ≡ Action.replace_empty_tab
    replaced = closes-perform x y _ (closes-follow x y items _ _ h)

    taken : (route ctx items).action ≢ Action.reject
    taken e = cc replaced

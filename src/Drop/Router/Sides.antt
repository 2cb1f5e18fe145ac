-- ===== src/Drop/Router/Sides.antt =====
-- Which side a single item fills, as the tab that receives it sees it
-- (crates/openbc-ui-qt/cpp/common/drop_router.h).
use open_bc.Prelude.{
  true, false, ◌&&◌, negate, Option, some, none, [], ◌∷◌, Text, is_empty, ◌≡◌, refl, sym, ap, ◌∙◌,
  arith, if◌then◌else◌,
}
use open_bc.Drop.Types.{TabKind, Side, Item, TabContext, Decision, same_tab, same_tab_refl}
use open_bc.Drop.Router.{route, accept, settle, place, fill_side, side_for_one, reject}
use open_bc.Drop.Router.Frames.{frames, settle-target, route-singleton}

-- A side of a tab after a drop was applied: an empty path leaves it as it is.
pub after : Text → Text → Text
after old new = if is_empty new then old else new

-- The policy for one item in a tab of its kind that shows `l` and `r`: the side under the cursor,
-- else the first empty side, else the left one.
pub sides_after : Text → Text → Option Side → Text → Text × Text
sides_after l r (some Side.left) path = (path, r)
sides_after l r (some Side.right) path = (l, path)
sides_after l r none path =
    if is_empty l then (path, r) else if is_empty r then (l, path) else (path, r)

-- The context describes a tab that shows `l` and `r`.
pub record Shows (ctx : TabContext) (l r : Text) : Type 0 where
  pub on_left : ctx.left_set ≡ negate (is_empty l)
  pub on_right : ctx.right_set ≡ negate (is_empty r)

module _ (ctx : TabContext) (l r : Text) (shown : Shows ctx l r) (path : Text)
    (full : is_empty path ≡ false) where
  filled-sides_after :
      (hint : Option Side) (d : Decision)
      → d.left ≡ []
      → d.right ≡ []
      → (
        after l (fill_side ctx path (side_for_one ctx hint) d).left,
        after r (fill_side ctx path (side_for_one ctx hint) d).right,
      )
        ≡ sides_after l r hint path
  unfolding fill_side side_for_one after sides_after
  filled-sides_after (some Side.left) d p q = ground arith
  filled-sides_after (some Side.right) d p q = ground arith
  filled-sides_after none d p q = ground (arith, shown.on_left, shown.on_right)

  filled_run :
      (hint : Option Side) (d : Decision)
      → d.left ≡ []
      → d.right ≡ []
      → (fill_side ctx path (side_for_one ctx hint) d).run ≡ (
          negate (is_empty (sides_after l r hint path).0)
          && negate (is_empty (sides_after l r hint path).1))
  unfolding fill_side side_for_one sides_after
  filled_run (some Side.left) d p q = ground (arith, shown.on_left, shown.on_right)
  filled_run (some Side.right) d p q = ground (arith, shown.on_left, shown.on_right)
  filled_run none d p q = ground (arith, shown.on_left, shown.on_right)

  settle-sides_after :
      (a : Item) (target : TabKind) (note : Text)
      → a.path ≡ path
      → same_tab ctx.tab target ≡ true
      → ((
        after l (settle ctx a none target note).left,
        after r (settle ctx a none target note).right,
      )
          ≡ sides_after l r ctx.side_hint path)
        × ((settle ctx a none target note).run ≡ (
            negate (is_empty (sides_after l r ctx.side_hint path).0)
            && negate (is_empty (sides_after l r ctx.side_hint path).1)))
  unfolding settle place
  settle-sides_after a target note e same = (
    simp (frames, same, e)
        (filled-sides_after ctx.side_hint _ (unfold reject in refl) (unfold reject in refl)),
    simp (frames, same, e)
        (filled_run ctx.side_hint _ (unfold reject in refl) (unfold reject in refl)),
  )

  -- A single item dropped on a tab of its kind fills exactly one side: the one under the cursor,
  -- else the first empty one, else the left; the other side is preserved, and the comparison starts
  -- exactly if both sides are then set.
  pub route-sides_after :
      (a : Item)
      → a.path ≡ path
      → (route ctx (a ∷ [])).target ≡ ctx.tab
      → ((after l (route ctx (a ∷ [])).left, after r (route ctx (a ∷ [])).right)
          ≡ sides_after l r ctx.side_hint path)
        × ((route ctx (a ∷ [])).run ≡ (
            negate (is_empty (sides_after l r ctx.side_hint path).0)
            && negate (is_empty (sides_after l r ctx.side_hint path).1)))
  unfolding accept
  route-sides_after a e same = rw (route-singleton ctx a) (
      settle-sides_after a _ _ e (
        rw
          (sym (settle-target ctx a none _ _)
            ∙ (ap (λ (d : Decision). d.target) (sym (route-singleton ctx a)) ∙ same))
          (same_tab_refl ctx.tab)))

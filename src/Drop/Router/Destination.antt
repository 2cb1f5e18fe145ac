-- ===== src/Drop/Router/Destination.antt =====
-- Where `route` (crates/openbc-ui-qt/cpp/common/drop_router.h) sends a drop: the comparison type
-- and the tab.
use mathlib.Core.List.{head?}
use open_bc.Prelude.{
  if◌then◌else◌, ltb, length, negate, ◌&&◌, Bool, true, false, Option, List, [], ◌∷◌, Text, ◌≡◌,
  ◌≢◌, refl, Bool-cases, inl, inr, ◌⊎◌,
}
use open_bc.Drop.Types.{
  Action, Item, Occupancy, TabContext, Decision, TabKind, same_tab, same_tab-cases,
}
use open_bc.Drop.Router.Frames.{frames}
use open_bc.Drop.Router.{route, accept, settle, handle_tab, scan_dirs, reject, is_dirty, is_vacant}

-- The header's table of destinations.
pub data Destination (tab target : TabKind) (occupancy : Occupancy) : Action → Bool → Type 0 where
  from_home : tab ≡ TabKind.home → Destination tab target occupancy Action.open_new_tab false
  same_kind_saved :
      tab ≢ TabKind.home
      → tab ≡ target
      → occupancy ≢ Occupancy.dirty
      → Destination tab target occupancy Action.apply_to_tab false
  same_kind_dirty :
      tab ≢ TabKind.home
      → tab ≡ target
      → occupancy ≡ Occupancy.dirty
      → Destination tab target occupancy Action.apply_to_tab true
  other_kind_empty :
      tab ≢ TabKind.home
      → tab ≢ target
      → occupancy ≡ Occupancy.empty
      → Destination tab target occupancy Action.replace_empty_tab false
  other_kind_used :
      tab ≢ TabKind.home
      → tab ≢ target
      → occupancy ≢ Occupancy.empty
      → Destination tab target occupancy Action.open_new_tab false

-- A tab of the drop's kind is reused, and asks first if it holds unsaved work.
same_kind-Destination :
    (tab target : TabKind) (occupancy : Occupancy)
    → tab ≢ TabKind.home
    → tab ≡ target
    → Destination tab target occupancy Action.apply_to_tab (is_dirty occupancy)
unfolding is_dirty
same_kind-Destination tab target Occupancy.dirty h e = same_kind_dirty h e refl
same_kind-Destination tab target Occupancy.empty h e = same_kind_saved h e (λ x. cc)
same_kind-Destination tab target Occupancy.populated h e = same_kind_saved h e (λ x. cc)

other_kind-Destination :
    (tab target : TabKind) (occupancy : Occupancy) (x y : Decision)
    → tab ≢ TabKind.home
    → tab ≢ target
    → x.action ≡ Action.replace_empty_tab
    → x.confirm_discard ≡ false
    → y.action ≡ Action.open_new_tab
    → y.confirm_discard ≡ false
    → Destination tab target occupancy
        (if is_vacant occupancy then x else y).action
        (if is_vacant occupancy then x else y).confirm_discard
unfolding is_vacant
other_kind-Destination tab target Occupancy.empty x y h n p q r s =
    rw (p, q) (other_kind_empty h n refl)
other_kind-Destination tab target Occupancy.populated x y h n p q r s =
    rw (r, s) (other_kind_used h n (λ e. cc))
other_kind-Destination tab target Occupancy.dirty x y h n p q r s =
    rw (r, s) (other_kind_used h n (λ e. cc))

handle_tab-Destination :
    (ctx : TabContext) (target : TabKind) (d : Decision)
    → d.confirm_discard ≡ false
    → Destination ctx.tab target ctx.occupancy
        (handle_tab ctx (same_tab ctx.tab target) d).action
        (handle_tab ctx (same_tab ctx.tab target) d).confirm_discard
unfolding handle_tab
handle_tab-Destination ctx target d h = elim (same_tab-cases ctx.tab TabKind.home) [
  | inl (e, p) ↦ rw e (rw h (from_home p))
  | inr (n, p) ↦ rw n (elim (same_tab-cases ctx.tab target) [
    | inl (e, q) ↦ rw e (same_kind-Destination ctx.tab target ctx.occupancy p q)
    | inr (m, q) ↦ rw m (other_kind-Destination ctx.tab target ctx.occupancy _ _ p q refl h refl h)
  ])
]

settle-Destination :
    (ctx : TabContext) (a : Item) (b : Option Item) (target : TabKind) (note : Text)
    → Destination ctx.tab
        (settle ctx a b target note).target
        ctx.occupancy
        (settle ctx a b target note).action
        (settle ctx a b target note).confirm_discard
unfolding settle reject
settle-Destination ctx a b target note =
    simp frames (handle_tab-Destination ctx target _ (simp frames))

accept-Destination :
    (ctx : TabContext) (all : Bool) (a : Item) (b : Option Item)
    → Destination ctx.tab
        (accept ctx all a b).target
        ctx.occupancy
        (accept ctx all a b).action
        (accept ctx all a b).confirm_discard
unfolding accept
accept-Destination ctx all a b = settle-Destination ctx a b _ _

-- The decision for a list of items, unless it is a rejection.
pub route-accept :
    (ctx : TabContext) (a : Item) (rest : List Item)
    → ((route ctx (a ∷ rest)).action ≡ Action.reject)
      ⊎ ((all : Bool) × (route ctx (a ∷ rest) ≡ accept ctx all a (head? rest)))
unfolding route reject
route-accept ctx a rest = elim (Bool-cases (ltb 2 (length (a ∷ rest)))) [
  | inl e ↦ inl (rw e)
  | inr e ↦
      elim (Bool-cases
        ((scan_dirs (a ∷ rest) false true).0 && negate (scan_dirs (a ∷ rest) false true).1)) [
          | inl m ↦ inl (rw (e, m))
          | inr m ↦ inr ((scan_dirs (a ∷ rest) false true).1, rw (e, m))
        ]
]

-- A drop that is not rejected goes where the table of destinations says: from Home to a new tab, to
-- a tab of its kind (with a confirmation exactly if that tab has unsaved work), in the place of an
-- empty tab of another kind, and beside a used one of another kind.
pub route-Destination :
    (ctx : TabContext) (items : List Item)
    → (route ctx items).action ≢ Action.reject
    → Destination ctx.tab
        (route ctx items).target
        ctx.occupancy
        (route ctx items).action
        (route ctx items).confirm_discard
route-Destination ctx [] h = absurd (h (unfold route reject in refl))
route-Destination ctx (a ∷ rest) h = elim (route-accept ctx a rest) [
  | inl e ↦ absurd (h e)
  | inr (all, e) ↦ rw e (accept-Destination ctx all a (head? rest))
]

-- A tab that is replaced is an empty compare tab.
pub replaced-Destination :
    {tab target : TabKind} {occupancy : Occupancy} {action : Action} {confirm : Bool}
    → Destination tab target occupancy action confirm
    → action ≡ Action.replace_empty_tab
    → (tab ≢ TabKind.home) × (occupancy ≡ Occupancy.empty)
replaced-Destination (from_home _) h = cc
replaced-Destination (same_kind_saved _ _ _) h = cc
replaced-Destination (same_kind_dirty _ _ _) h = cc
replaced-Destination (other_kind_empty n _ e) h = (n, e)
replaced-Destination (other_kind_used _ _ _) h = cc

unsaved-Destination :
    {tab target : TabKind} {occupancy : Occupancy} {action : Action} {confirm : Bool}
    → Destination tab target occupancy action confirm
    → occupancy ≡ Occupancy.dirty
    → (action ≢ Action.replace_empty_tab) × (action ≡ Action.apply_to_tab → confirm ≡ true)
unsaved-Destination (from_home _) h = (λ e. cc, λ e. cc)
unsaved-Destination (same_kind_saved _ _ n) h = absurd (n h)
unsaved-Destination (same_kind_dirty _ _ _) h = (λ e. cc, λ e. refl)
unsaved-Destination (other_kind_empty _ _ e) h = cc
unsaved-Destination (other_kind_used _ _ _) h = (λ e. cc, λ e. cc)

pub reject-cases : (x : Action) → (x ≡ Action.reject) ⊎ (x ≢ Action.reject)
reject-cases Action.reject = inl refl
reject-cases Action.apply_to_tab = inr (λ e. cc)
reject-cases _ = inr (λ e. cc)

-- Whatever is dropped on a tab with unsaved work, the tab is not replaced, and it is changed only
-- after a confirmation.
pub route_keeps_unsaved :
    (ctx : TabContext) (items : List Item)
    → ctx.occupancy ≡ Occupancy.dirty
    → ((route ctx items).action ≢ Action.replace_empty_tab)
      × ((route ctx items).action ≡ Action.apply_to_tab → (route ctx items).confirm_discard ≡ true)
route_keeps_unsaved ctx items h = elim (reject-cases (route ctx items).action) [
  | inl e ↦ (λ f. cc, λ f. cc)
  | inr n ↦ unsaved-Destination (route-Destination ctx items n) h
]

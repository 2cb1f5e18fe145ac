-- ===== src/Drop/Router/Checks.antt =====
-- Which drops `route` (crates/openbc-ui-qt/cpp/common/drop_router.h) accepts.
use open_bc.Prelude.{
  Text, Bool, true, false, Option, some, none, List, [], ◌∷◌, ◌≡◌, ◌≢◌, ◌↔◌, refl, arith,
  Bool-cases, inl, inr,
}
use open_bc.Drop.Types.{Action, Item, TabContext, Decision, TabKind}
use open_bc.Drop.Router.Frames.{add_note-action}
use open_bc.Drop.Router.{route, accept, settle, handle_tab, scan_dirs, reject}

-- What the policy accepts: one item, two files, or two folders.
pub data IsUsable : List Item → Type 0 where
  one : (a : Item) → IsUsable (a ∷ [])
  files : (a b : Item) → a.is_dir ≡ false → b.is_dir ≡ false → IsUsable (a ∷ b ∷ [])
  folders : (a b : Item) → a.is_dir ≡ true → b.is_dir ≡ true → IsUsable (a ∷ b ∷ [])

handle_tab-ne-reject :
    (ctx : TabContext) (k : Bool) (d : Decision) → (handle_tab ctx k d).action ≢ Action.reject
unfolding handle_tab
handle_tab-ne-reject ctx k d = ground arith

settle-ne-reject :
    (ctx : TabContext) (a : Item) (b : Option Item) (target : TabKind) (note : Text)
    → (settle ctx a b target note).action ≢ Action.reject
unfolding settle
settle-ne-reject ctx a b target note = rw (add_note-action note _) (handle_tab-ne-reject ctx _ _)

accept-ne-reject :
    (ctx : TabContext) (all : Bool) (a : Item) (b : Option Item)
    → (accept ctx all a b).action ≢ Action.reject
unfolding accept
accept-ne-reject ctx all a b = settle-ne-reject ctx a b _ _

-- `route` rejects nothing that the policy accepts: one item, two files and two folders are taken.
usable-ne-reject :
    (ctx : TabContext) (items : List Item)
    → IsUsable items
    → (route ctx items).action ≢ Action.reject
unfolding route scan_dirs
usable-ne-reject ctx _ (one a) = ground (arith, accept-ne-reject ctx a.is_dir a none)
usable-ne-reject ctx _ (files a b p q) = ground (arith, accept-ne-reject ctx false a (some b))
usable-ne-reject ctx _ (folders a b p q) = ground (arith, accept-ne-reject ctx true a (some b))

pair-IsUsable :
    (ctx : TabContext) (a b : Item)
    → (route ctx (a ∷ b ∷ [])).action ≢ Action.reject
    → IsUsable (a ∷ b ∷ [])
unfolding route scan_dirs reject
pair-IsUsable ctx a b h = elim (Bool-cases a.is_dir) [
  | inl p ↦ elim (Bool-cases b.is_dir) [
    | inl q ↦ folders a b p q
    | inr q ↦ absurd (h (ground arith))
  ]
  | inr p ↦ elim (Bool-cases b.is_dir) [ inl q ↦ absurd (h (ground arith)) | inr q ↦ files a b p q ]
]

many-reject :
    (ctx : TabContext) (a b c : Item) (rest : List Item)
    → (route ctx (a ∷ b ∷ c ∷ rest)).action ≡ Action.reject
unfolding route reject
many-reject ctx a b c rest = ground arith

-- A drop is taken exactly if it is one item, two files or two folders; all else is rejected: no
-- item, more than two, and a folder together with a file.
pub route-IsUsable :
    (ctx : TabContext) (items : List Item)
    → ((route ctx items).action ≢ Action.reject) ↔ IsUsable items
unfolding route reject
route-IsUsable ctx [] = (λ h. absurd (h refl), λ u. elim u [ ])
route-IsUsable ctx (a ∷ []) = (λ h. one a, usable-ne-reject ctx (a ∷ []))
route-IsUsable ctx (a ∷ b ∷ []) = (pair-IsUsable ctx a b, usable-ne-reject ctx (a ∷ b ∷ []))
route-IsUsable ctx (a ∷ b ∷ c ∷ rest) =
    (λ h. absurd (h (many-reject ctx a b c rest)), λ u. elim u [ ])

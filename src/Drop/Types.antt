-- ===== src/Drop/Types.antt =====
-- The data of the drop router (crates/openbc-ui-qt/cpp/common/drop_router.h).
use open_bc.Prelude.{
  ℕ, zero, suc, ◌≡◌, refl, ap, ◌∙◌, sym, Bool, true, false, Option, Text, codes, ◌==◌, ==_iff,
  Bool-cases, ◌⊎◌, ◌≢◌, inl, inr,
}
use open_bc.Viewers.{ViewerKind}

pub data TabKind : Type 0 where
  home folder text picture model3d table registry hex media : TabKind

pub data Occupancy : Type 0 where
  empty populated dirty : Occupancy

pub data Side : Type 0 where
  left right : Side

pub data Action : Type 0 where
  reject apply_to_tab replace_empty_tab open_new_tab : Action

pub data Assign : Type 0 where
  nothing both only_left only_right : Assign

pub record Item : Type 0 where
  pub path : Text
  pub is_dir : Bool
  pub kind : ViewerKind

pub record TabContext : Type 0 where
  pub tab : TabKind
  pub occupancy : Occupancy
  pub left_set : Bool
  pub right_set : Bool
  pub side_hint : Option Side

-- An empty `left` or `right` leaves that side of the tab unchanged.
pub record Decision : Type 0 where
  pub action : Action
  pub target : TabKind
  pub assign : Assign
  pub left : Text
  pub right : Text
  pub run : Bool
  pub confirm_discard : Bool
  pub message : Text

-- The value of the enumerator, on which C++ compares.
unfoldable pub ordinal : TabKind → ℕ
ordinal TabKind.home = 0
ordinal TabKind.folder = 1
ordinal TabKind.text = 2
ordinal TabKind.picture = 3
ordinal TabKind.model3d = 4
ordinal TabKind.table = 5
ordinal TabKind.registry = 6
ordinal TabKind.hex = 7
ordinal TabKind.media = 8

unfoldable pub same_tab : TabKind → TabKind → Bool
unfolding ordinal
same_tab a b = ordinal a == ordinal b

of_ordinal : ℕ → TabKind
of_ordinal zero = TabKind.home
of_ordinal (suc zero) = TabKind.folder
of_ordinal (suc (suc zero)) = TabKind.text
of_ordinal (suc (suc (suc zero))) = TabKind.picture
of_ordinal (suc (suc (suc (suc zero)))) = TabKind.model3d
of_ordinal (suc (suc (suc (suc (suc zero))))) = TabKind.table
of_ordinal (suc (suc (suc (suc (suc (suc zero)))))) = TabKind.registry
of_ordinal (suc (suc (suc (suc (suc (suc (suc zero))))))) = TabKind.hex
of_ordinal (suc (suc (suc (suc (suc (suc (suc (suc n)))))))) = TabKind.media

of_ordinal-ordinal : (k : TabKind) → of_ordinal (ordinal k) ≡ k
unfolding of_ordinal ordinal
of_ordinal-ordinal TabKind.home = refl
of_ordinal-ordinal _ = refl

pub same_tab_sound : (a b : TabKind) → same_tab a b ≡ true → a ≡ b
unfolding same_tab
same_tab_sound a b h =
    sym (of_ordinal-ordinal a) ∙ (ap of_ordinal ((==_iff _ _).0 h) ∙ of_ordinal-ordinal b)

pub same_tab_refl : (a : TabKind) → same_tab a a ≡ true
unfolding same_tab
same_tab_refl a = (==_iff _ _).1 refl

pub same_tab-cases :
    (a b : TabKind) → ((same_tab a b ≡ true) × (a ≡ b)) ⊎ ((same_tab a b ≡ false) × (a ≢ b))
same_tab-cases a b = elim (Bool-cases (same_tab a b)) [
  | inl e ↦ inl (e, same_tab_sound a b e)
  | inr n ↦ inr (n, λ e. cc (same_tab_refl a))
]

unfoldable pub name : TabKind → Text
name TabKind.home = codes "Home"
name TabKind.folder = codes "Folder Compare"
name TabKind.text = codes "Text Compare"
name TabKind.picture = codes "Picture Compare"
name TabKind.model3d = codes "3D Compare"
name TabKind.table = codes "Table Compare"
name TabKind.registry = codes "Registry Compare"
name TabKind.hex = codes "Hex Compare"
name TabKind.media = codes "Media Compare"

-- Version has no viewer of its own; it is byte-level data, so it goes to Hex.
unfoldable pub tab_kind_for : ViewerKind → TabKind
tab_kind_for ViewerKind.text = TabKind.text
tab_kind_for ViewerKind.picture = TabKind.picture
tab_kind_for ViewerKind.model3d = TabKind.model3d
tab_kind_for ViewerKind.table = TabKind.table
tab_kind_for ViewerKind.media = TabKind.media
tab_kind_for ViewerKind.registry = TabKind.registry
tab_kind_for ViewerKind.version = TabKind.hex
tab_kind_for ViewerKind.hex = TabKind.hex

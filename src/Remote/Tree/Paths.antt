-- ===== src/Remote/Tree/Paths.antt =====
-- The paths of groups: each one is its parent's path and its name
-- (crates/openbc-ui-qt/cpp/remote/remote_profile_store.h).
use mathlib.Core.Bool.{false≢true}
use open_bc.Prelude.{
  Bool, true, false, Option, some, none, List, [], ◌∷◌, ◌++◌, Text, same, is_empty, has_char,
  if◌then◌else◌, ◌≡◌, refl, sym, ap, ◌∙◌, arith, same_sound,
}
use open_bc.Remote.Profile.{RemoteProfile, RemoteProfileNode, node, Nodes, nil, cons}
use open_bc.Remote.Tree.{
  path_of, with_profiles, append_child, with_child, with_changed, beside, change_here, change_node,
  remove_below, remove_node_from, extend_some, before_last_slash, parent_path_of, child_path,
  rewrite_descendant_paths, renamed,
}

-- A name of a group, with no slash.
unfoldable pub IsName : Text → Type 0
IsName name = (is_empty name ≡ false) × (has_char b'/' name ≡ false)

-- The path of every group is that of its parent, a slash and its name.
unfoldable mutual
  pub IsPathed : Text → RemoteProfileNode → Type 0
  IsPathed parent (node name path profiles children) =
      IsName name × (path ≡ child_path parent name) × ArePathed path children

  pub ArePathed : Text → Nodes → Type 0
  ArePathed parent nil = Unit
  ArePathed parent (cons n ns) = IsPathed parent n × ArePathed parent ns

abbrev pub IfSome : {A : Type 0} → (A → Type 0) → Option A → Type 0
IfSome P none = Unit
IfSome P (some a) = P a

IfSome-if :
    {A : Type 0} (P : A → Type 0) (b : Bool) (a : A) (o : Option A)
    → (b ≡ true → P a)
    → IfSome P o
    → IfSome P (if b then some a else o)
IfSome-if P true a o f h = f refl
IfSome-if P false a o f h = h

with_changed-IsPathed :
    (parent name path : Text) (profiles : List RemoteProfile) (o : Option Nodes)
    → IsName name
    → path ≡ child_path parent name
    → IfSome (ArePathed path) o
    → IfSome (IsPathed parent) (with_changed name path profiles o)
unfolding with_changed IsPathed
with_changed-IsPathed parent name path profiles none n e h = tt
with_changed-IsPathed parent name path profiles (some ns) n e h = (n, e, h)

beside-ArePathed :
    (parent : Text) (n : RemoteProfileNode) (ns : Nodes) (o : Option RemoteProfileNode)
    (rest : Option Nodes)
    → ArePathed parent (cons n ns)
    → IfSome (IsPathed parent) o
    → IfSome (ArePathed parent) rest
    → IfSome (ArePathed parent) (beside n ns o rest)
unfolding beside ArePathed
beside-ArePathed parent n ns (some m) rest (p, ps) h r = (h, ps)
beside-ArePathed parent n ns none none (p, ps) h r = tt
beside-ArePathed parent n ns none (some ms) (p, ps) h r = (p, r)

module _ (change : RemoteProfileNode → RemoteProfileNode) (target : Text)
    (keeps : (parent : Text) (n : RemoteProfileNode)
      → path_of n ≡ target
      → IsPathed parent n
      → IsPathed parent (change n)) where
  mutual
    unfolding change_here change_node ArePathed path_of

    change_here-IsPathed :
        (parent : Text) (n : RemoteProfileNode)
        → IsPathed parent n
        → IfSome (IsPathed parent) (change_here change target n)
    change_here-IsPathed parent (node name path profiles children) (m, e, h) =
        IfSome-if (IsPathed parent) (same path target) (change (node name path profiles children)) _
          (λ found.
            keeps parent (node name path profiles children) (same_sound path target found)
              (m, e, h))
          (with_changed-IsPathed parent name path profiles _ m e
            (change_node-ArePathed path children h))

    pub change_node-ArePathed :
        (parent : Text) (ns : Nodes)
        → ArePathed parent ns
        → IfSome (ArePathed parent) (change_node change target ns)
    change_node-ArePathed parent nil h = tt
    change_node-ArePathed parent (cons n ns) (p, ps) =
        beside-ArePathed parent n ns _ _ (p, ps) (change_here-IsPathed parent n p)
          (change_node-ArePathed parent ns ps)

module _ (target : Text) where
  mutual
    unfolding remove_below remove_node_from ArePathed

    remove_below-IsPathed :
        (parent : Text) (n : RemoteProfileNode)
        → IsPathed parent n
        → IfSome (IsPathed parent) (remove_below target n)
    remove_below-IsPathed parent (node name path profiles children) (m, e, h) =
        with_changed-IsPathed parent name path profiles _ m e
          (remove_node_from-ArePathed path children h)

    pub remove_node_from-ArePathed :
        (parent : Text) (ns : Nodes)
        → ArePathed parent ns
        → IfSome (ArePathed parent) (remove_node_from target ns)
    remove_node_from-ArePathed parent nil h = tt
    remove_node_from-ArePathed parent (cons n ns) (p, ps) =
        IfSome-if (ArePathed parent) (same (path_of n) target) ns _ (λ found. ps)
          (beside-ArePathed parent n ns _ _ (p, ps) (remove_below-IsPathed parent n p)
            (remove_node_from-ArePathed parent ns ps))

-- A change of the profiles, and a child with a name of its own.
pub with_profiles-IsPathed :
    (f : List RemoteProfile → List RemoteProfile) (parent : Text) (n : RemoteProfileNode)
    → IsPathed parent n
    → IsPathed parent (with_profiles f n)
unfolding with_profiles IsPathed
with_profiles-IsPathed f parent (node name path profiles children) h = h

pub append_child-ArePathed :
    (parent : Text) (ns : Nodes) (n : RemoteProfileNode)
    → IsPathed parent n
    → ArePathed parent ns
    → ArePathed parent (append_child ns n)
unfolding append_child ArePathed
append_child-ArePathed parent nil n p h = (p, tt)
append_child-ArePathed parent (cons m ms) n p (q, h) = (q, append_child-ArePathed parent ms n p h)

pub with_child-IsPathed :
    (child : RemoteProfileNode) (parent : Text) (n : RemoteProfileNode)
    → IsPathed (path_of n) child
    → IsPathed parent n
    → IsPathed parent (with_child child n)
unfolding with_child IsPathed path_of
with_child-IsPathed child parent (node name path profiles children) c (m, e, h) =
    (m, e, append_child-ArePathed path children child c h)

-- The parent's path is what stands before the last slash.
name_has_no_slash : (name : Text) → has_char b'/' name ≡ false → before_last_slash name ≡ none
unfolding has_char before_last_slash extend_some
name_has_no_slash [] h = refl
name_has_no_slash (c ∷ name) h = rw (name_has_no_slash name (ground (arith, h))) (ground (arith, h))

before_last_slash-child :
    (parent name : Text)
    → has_char b'/' name ≡ false
    → before_last_slash (parent ++ b'/' ∷ name) ≡ some parent
unfolding before_last_slash extend_some
before_last_slash-child [] name h = rw (name_has_no_slash name h) refl
before_last_slash-child (c ∷ parent) name h =
    ap (extend_some c) (before_last_slash-child parent name h)

parent_path_of-child :
    (parent name : Text)
    → has_char b'/' name ≡ false
    → parent_path_of (child_path parent name) ≡ parent
unfolding parent_path_of child_path
parent_path_of-child [] name h = rw (parent_path_of, name_has_no_slash name h) refl
parent_path_of-child (c ∷ parent) name h =
    rw (parent_path_of, before_last_slash-child (c ∷ parent) name h) refl

child_path_nonempty :
    (parent name : Text) → is_empty name ≡ false → is_empty (child_path parent name) ≡ false
unfolding child_path
child_path_nonempty [] name h = h
child_path_nonempty (c ∷ parent) name h = refl

slash_nonempty : (path name : Text) → is_empty (path ++ b'/' ∷ name) ≡ false
slash_nonempty [] name = refl
slash_nonempty (c ∷ path) name = refl

slash_child :
    (path name : Text) → is_empty path ≡ false → (path ++ b'/' ∷ name) ≡ child_path path name
unfolding child_path
slash_child [] name h = absurd (false≢true (sym h))
slash_child (c ∷ path) name h = refl

rewrite_descendant_paths-ArePathed :
    (path old : Text) (ns : Nodes)
    → is_empty path ≡ false
    → ArePathed old ns
    → ArePathed path (rewrite_descendant_paths path ns)
unfolding rewrite_descendant_paths ArePathed
rewrite_descendant_paths-ArePathed path old nil h p = tt
rewrite_descendant_paths-ArePathed path old (cons (node name q profiles children) ns) h
      ((m, e, c), ps) =
    (
      (
        m,
        slash_child path name h,
        rewrite_descendant_paths-ArePathed (path ++ b'/' ∷ name) q children
            (slash_nonempty path name) c,
      ),
      rewrite_descendant_paths-ArePathed path old ns h ps,
    )

pub renamed-IsPathed :
    (target new_name parent : Text) (n : RemoteProfileNode)
    → IsName new_name
    → path_of n ≡ target
    → IsPathed parent n
    → IsPathed parent (renamed target new_name n)
unfolding renamed IsPathed path_of IsName
renamed-IsPathed target new_name parent (node name path profiles children) (some_name, no_slash)
      found ((n, s), e, h) =
    (
      (some_name, no_slash),
      ap (λ q. child_path q new_name)
          (ap parent_path_of (sym found ∙ e) ∙ parent_path_of-child parent name s),
      rewrite_descendant_paths-ArePathed _ path children
          (child_path_nonempty (parent_path_of target) new_name some_name) h,
    )

-- ===== src/Remote/Tree.antt =====
-- Groups found by their paths, and changed
-- (crates/openbc-ui-qt/cpp/remote/remote_profile_store.h).
pub mod Paths
use open_bc.Prelude.{
  ℕ, Bool, true, false, ◌&&◌, ◌||◌, negate, Option, some, none, List, [], ◌∷◌, ◌++◌, Text, codes,
  same, is_empty, starts_with, ◌==◌, if◌then◌else◌,
}
use open_bc.Remote.Profile.{
  RemoteProfile, is_network_drive, display_address, RemoteProfileNode, node, Nodes, nil, cons,
}

unfoldable pub path_of : RemoteProfileNode → Text
path_of (node name path profiles children) = path

unfoldable pub profiles_of : RemoteProfileNode → List RemoteProfile
profiles_of (node name path profiles children) = profiles

unfoldable pub with_profiles :
    (List RemoteProfile → List RemoteProfile) → RemoteProfileNode → RemoteProfileNode
with_profiles f (node name path profiles children) = node name path (f profiles) children

unfoldable pub append_child : Nodes → RemoteProfileNode → Nodes
append_child nil n = cons n nil
append_child (cons m ms) n = cons m (append_child ms n)

unfoldable pub with_child : RemoteProfileNode → RemoteProfileNode → RemoteProfileNode
with_child child (node name path profiles children) =
    node name path profiles (append_child children child)

unfoldable pub or_else : {A : Type 0} → Option A → Option A → Option A
or_else (some a) o = some a
or_else none o = o

-- The first group with the path, each group before those in it.
unfoldable mutual
  pub find_here : Text → RemoteProfileNode → Option RemoteProfileNode
  find_here target (node name path profiles children) =
      let inside = find_node target children in
      if same path target then some (node name path profiles children) else inside

  pub find_node : Text → Nodes → Option RemoteProfileNode
  find_node target nil = none
  find_node target (cons n ns) = or_else (find_here target n) (find_node target ns)

-- What a group becomes when one in it, or one beside it, is changed.
unfoldable pub with_changed :
    Text → Text → List RemoteProfile → Option Nodes → Option RemoteProfileNode
with_changed name path profiles none = none
with_changed name path profiles (some children) = some (node name path profiles children)

unfoldable pub beside :
    RemoteProfileNode → Nodes → Option RemoteProfileNode → Option Nodes → Option Nodes
beside n ns (some m) rest = some (cons m ns)
beside n ns none none = none
beside n ns none (some ms) = some (cons n ms)

-- The tree with the group that `find_node` points to changed; `none` if there is none.
module _ (change : RemoteProfileNode → RemoteProfileNode) (target : Text) where
  unfoldable mutual
    pub change_here : RemoteProfileNode → Option RemoteProfileNode
    change_here (node name path profiles children) =
        let inside = with_changed name path profiles (change_node children) in
        if same path target then some (change (node name path profiles children)) else inside

    pub change_node : Nodes → Option Nodes
    change_node nil = none
    change_node (cons n ns) = beside n ns (change_here n) (change_node ns)

-- `removeNodeFrom`: the tree without the first such group; `none` if there is none.
module _ (target : Text) where
  unfoldable mutual
    pub remove_below : RemoteProfileNode → Option RemoteProfileNode
    remove_below (node name path profiles children) =
        with_changed name path profiles (remove_node_from children)

    pub remove_node_from : Nodes → Option Nodes
    remove_node_from nil = none
    remove_node_from (cons n ns) =
        let deeper = beside n ns (remove_below n) (remove_node_from ns) in
        if same (path_of n) target then some ns else deeper

-- `path.left(path.lastIndexOf('/'))`, or an empty path if there is no slash.
unfoldable pub extend_some : ℕ → Option Text → Option Text
extend_some c (some t) = some (c ∷ t)
extend_some c none = if c == b'/' then some [] else none

unfoldable pub before_last_slash : Text → Option Text
before_last_slash [] = none
before_last_slash (c ∷ t) = extend_some c (before_last_slash t)

unfoldable pub parent_path_of : Text → Text
parent_path_of path = elim (before_last_slash path) [ none ↦ [] | some t ↦ t ]

-- The path of a group in the group at `parent`, or at the top.
unfoldable pub child_path : Text → Text → Text
child_path parent name = if is_empty parent then name else (parent ++ b'/' ∷ name)

-- The loop over the children of the group at `path`.
unfoldable pub rewrite_descendant_paths : Text → Nodes → Nodes
rewrite_descendant_paths path nil = nil
rewrite_descendant_paths path (cons (node name old profiles children) ns) =
    cons
      (node name (path ++ b'/' ∷ name) profiles
        (rewrite_descendant_paths (path ++ b'/' ∷ name) children))
      (rewrite_descendant_paths path ns)

-- What `renameNode` does to the group.
unfoldable pub renamed : Text → Text → RemoteProfileNode → RemoteProfileNode
renamed target new_name (node name old profiles children) =
    let path = child_path (parent_path_of target) new_name in
    node new_name path profiles (rewrite_descendant_paths path children)

-- Whether a compared path lies where a connection leads.
unfoldable pub leads_to : Text → RemoteProfile → Bool
leads_to path p =
    if is_network_drive p.protocol
    then (negate (is_empty p.mount_path)
        && (same path p.mount_path
            || starts_with path (p.mount_path ++ codes "/")
            || starts_with path (p.mount_path ++ codes "\\")))
    else (negate (is_empty (display_address p))
        && (same path (display_address p) || starts_with path (display_address p ++ codes "/")))

unfoldable pub first_profile : (RemoteProfile → Bool) → List RemoteProfile → Option RemoteProfile
first_profile test [] = none
first_profile test (p ∷ ps) = if test p then some p else first_profile test ps

-- The first connection that leads to a path: those of a group before those of the groups in it.
unfoldable mutual
  pub walk : Text → RemoteProfileNode → Option RemoteProfile
  walk path (node name own profiles children) =
      or_else (first_profile (leads_to path) profiles) (walk_all path children)

  pub walk_all : Text → Nodes → Option RemoteProfile
  walk_all path nil = none
  walk_all path (cons n ns) = or_else (walk path n) (walk_all path ns)

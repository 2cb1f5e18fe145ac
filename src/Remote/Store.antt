-- ===== src/Remote/Store.antt =====
-- The store of saved connections: a tree in memory and in the settings
-- (`RemoteProfileStore` of crates/openbc-ui-qt/cpp/remote/remote_profile_store.h).
pub mod Edits
pub mod Restart
pub mod Paths
use open_bc.Prelude.{
  ℕ, suc, ◌-◌, Bool, true, false, ◌&&◌, Option, some, none, List, [], ◌∷◌, ◌++◌, Text, codes, same,
  is_empty, length, get_elem?, max, ltb, if◌then◌else◌,
}
use open_bc.Prelude.Qt.{Qt}
use open_bc.Sessions.{Index, checked, remove_at, replace_at}
use open_bc.Remote.Json.{Json}
use open_bc.Remote.Secrets.{Encodings}
use open_bc.Remote.Profile.{RemoteProfile, RemoteProfileNode, node, Nodes, nil, cons}
use open_bc.Remote.Codec.{nodes_to_json, nodes_from_json}
use open_bc.Remote.Tree.{
  profiles_of, with_profiles, append_child, with_child, find_node, change_node, remove_node_from,
  child_path, renamed, first_profile, walk_all,
}

unfoldable pub append_nodes : Nodes → Nodes → Nodes
append_nodes nil ns = ns
append_nodes (cons m ms) ns = cons m (append_nodes ms ns)

-- The group that a new user starts with.
abbrev pub personal : RemoteProfileNode
personal = node (codes "Personal") (codes "Personal") [] nil

unfoldable pub with_personal : Nodes → Nodes
with_personal nil = cons personal nil
with_personal (cons n ns) = cons n ns

-- `saveProfile`: replaced at an index in range, else appended.
unfoldable pub saved_at : RemoteProfile → Option ℕ → List RemoteProfile → List RemoteProfile
saved_at p none ps = ps ++ p ∷ []
saved_at p (some i) ps = replace_at i (λ (old : RemoteProfile). p) ps

unfoldable pub save_at : Index → RemoteProfile → List RemoteProfile → List RemoteProfile
save_at index p ps = saved_at p (checked index (length ps)) ps

-- `profiles.removeAt(index)` or `takeAt(index)`.
unfoldable pub without : Index → List RemoteProfile → List RemoteProfile
without Index.negative ps = ps
without (Index.at i) ps = remove_at i ps

unfoldable pub profile_in : Index → List RemoteProfile → Option RemoteProfile
profile_in Index.negative ps = none
profile_in (Index.at i) ps = get_elem? ps i

-- The connection at an index of a group, if there are both.
unfoldable pub profile_at : Index → Option RemoteProfileNode → Option RemoteProfile
profile_at index none = none
profile_at index (some n) = profile_in index (profiles_of n)

unfoldable pub and_then : {A B : Type 0} → Option A → (A → Option B) → Option B
and_then none f = none
and_then (some a) f = f a

module _ (json : Json) (encodings : Encodings) where
  open json use {Value, Bytes, is_no_bytes, to_json, from_json, nesting}

  -- `treeCache()`, `loaded()`, and the settings' value of "remoteConnections/tree".
  pub record Store : Type 0 where
    pub cache : Nodes
    pub loaded : Bool
    pub saved : Bytes

  unfoldable pub deepest : List Value → ℕ
  deepest [] = 0
  deepest (v ∷ vs) = max (nesting v) (deepest vs)

  -- The groups that are read; no object lies deeper than the deepest one.
  unfoldable pub read_nodes : Bytes → Nodes
  read_nodes bytes =
      if is_no_bytes bytes
      then nil
      else nodes_from_json json encodings (suc (deepest (from_json bytes))) (from_json bytes)

  unfoldable pub load_tree : Store → Store
  load_tree s = if s.loaded then s else record s {
    cache = with_personal (append_nodes s.cache (read_nodes s.saved));
    loaded = true;
  }

  unfoldable pub persist : Store → Store
  persist s = record s { saved = to_json (nodes_to_json json encodings s.cache) }

  -- The end of an operation: the changed tree is written, or there is nothing to change.
  unfoldable pub commit : Store → Option Nodes → Store × Bool
  commit s none = (s, false)
  commit s (some nodes) = (persist (record s { cache = nodes }), true)

  unfoldable pub remove_node : Text → Store → Store × Bool
  remove_node path s = let t = load_tree s in commit t (remove_node_from path t.cache)

  unfoldable pub save_profile : Text → Index → RemoteProfile → Store → Store × Bool
  save_profile node_path index profile s =
      let t = load_tree s in
      commit t (change_node (with_profiles (save_at index profile)) node_path t.cache)

  unfoldable pub removed_profile : Option RemoteProfile → Text → Index → Nodes → Option Nodes
  removed_profile none node_path index nodes = none
  removed_profile (some p) node_path index nodes =
      change_node (with_profiles (without index)) node_path nodes

  unfoldable pub remove_profile : Text → Index → Store → Store × Bool
  remove_profile node_path index s =
      let t = load_tree s in
      commit t
        (removed_profile (profile_at index (find_node node_path t.cache)) node_path index t.cache)

  -- The profile is taken from the source and appended to the target, if there are both.
  unfoldable pub moved_profile : Option RemoteProfile → Text → Index → Text → Nodes → Option Nodes
  moved_profile none source index target nodes = none
  moved_profile (some p) source index target nodes =
      and_then (change_node (with_profiles (without index)) source nodes)
        (change_node (with_profiles (λ ps. ps ++ p ∷ [])) target)

  unfoldable pub move_profile : Text → Index → Text → Store → Store × Bool
  move_profile source index target s =
      let t = load_tree s in
      commit t
        (moved_profile (profile_at index (find_node source t.cache)) source index target t.cache)

  named_profile : Text → Option RemoteProfileNode → Option RemoteProfile
  named_profile name none = none
  named_profile name (some n) = first_profile (λ p. same p.name name) (profiles_of n)

  pub find_profile_by_name : Text → Text → Store → Option RemoteProfile
  find_profile_by_name node_path name s =
      named_profile name (find_node node_path ((load_tree s).cache))

  pub find_profile_for_path : Text → Store → Option RemoteProfile
  find_profile_for_path path s = walk_all path ((load_tree s).cache)

  module _ (qt : Qt) where
    unfoldable pub create_checked : Text → Text → Store → Store × Bool
    create_checked parent name t =
        let child = node name (child_path parent name) [] nil in
        if is_empty parent
        then commit t (some (append_child t.cache child))
        else commit t (change_node (with_child child) parent t.cache)

    unfoldable pub create_node : Text → Text → Store → Store × Bool
    create_node parent_path name s =
        if is_empty (qt.trimmed name)
        then (s, false)
        else create_checked parent_path (qt.trimmed name) (load_tree s)

    unfoldable pub rename_node : Text → Text → Store → Store × Bool
    rename_node path new_name s =
        let t = load_tree s in
        if is_empty (qt.trimmed new_name)
        then (s, false)
        else commit t (change_node (renamed path (qt.trimmed new_name)) path t.cache)

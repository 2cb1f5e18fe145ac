-- ===== src/Remote/Store/Paths.antt =====
-- The paths of groups over a sequence of changes
-- (crates/openbc-ui-qt/cpp/remote/remote_profile_store.h).
use open_bc.Prelude.{
  Bool, true, false, Option, some, none, List, [], ◌∷◌, ◌++◌, Text, is_empty, has_char, All,
  if◌then◌else◌, ◌≡◌, refl, ap, sym, subst, inl, inr, Bool-cases,
}
use open_bc.Prelude.Qt.{Qt}
use open_bc.Sessions.{Index}
use open_bc.Remote.Json.{Json}
use open_bc.Remote.Secrets.{Encodings}
use open_bc.Remote.Profile.{RemoteProfile, RemoteProfileNode, node, Nodes, nil}
use open_bc.Remote.Tree.{path_of, with_profiles, with_child, change_node, child_path}
use open_bc.Remote.Tree.Paths.{
  IsName, IsPathed, ArePathed, IfSome, change_node-ArePathed, remove_node_from-ArePathed,
  with_profiles-IsPathed, append_child-ArePathed, with_child-IsPathed, renamed-IsPathed,
}
use open_bc.Remote.Store.{
  without, and_then, Store, load_tree, persist, commit, remove_node, save_profile, removed_profile,
  remove_profile, moved_profile, move_profile, create_checked, create_node, rename_node,
}
use open_bc.Remote.Store.Edits.{
  Edit, edit, run_edits, creates, renames, removes, saves, drops, moves,
}

-- The new names have no slash.
unfoldable pub HasPlainName : Edit → Type 0
HasPlainName (creates parent name) = has_char b'/' name ≡ false
HasPlainName (renames path name) = has_char b'/' name ≡ false
HasPlainName _ = Unit

module _ (json : Json) (encodings : Encodings) where
  -- The tree that the next operation works on.
  unfoldable pub tree : Store json encodings → Nodes
  tree s = (load_tree json encodings s).cache

  load_tree-loaded : (s : Store json encodings) → (load_tree json encodings s).loaded ≡ true
  unfolding load_tree
  load_tree-loaded s = elim (Bool-cases s.loaded) [ inl e ↦ rw (e) refl | inr e ↦ rw (e) refl ]

  tree_loaded : (t : Store json encodings) → t.loaded ≡ true → tree t ≡ t.cache
  unfolding tree load_tree
  tree_loaded t e = rw (e) refl

  commit-ArePathed :
      (t : Store json encodings) (o : Option Nodes)
      → t.loaded ≡ true
      → ArePathed [] t.cache
      → IfSome (ArePathed []) o
      → ArePathed [] (tree ((commit json encodings t o).0))
  unfolding commit persist
  commit-ArePathed t none e h p = subst (ArePathed []) (sym (tree_loaded t e)) h
  commit-ArePathed t (some nodes) e h p =
      subst (ArePathed [])
        (sym (tree_loaded (persist json encodings (record t { cache = nodes })) e)) p

  if-ArePathed :
      (b : Bool) (s : Store json encodings) (x : Store json encodings × Bool)
      → ArePathed [] (tree s)
      → (b ≡ false → ArePathed [] (tree (x.0)))
      → ArePathed [] (tree ((if b then (s, false) else x).0))
  if-ArePathed true s x h f = h
  if-ArePathed false s x h f = f refl

  change_profiles-ArePathed :
      (f : List RemoteProfile → List RemoteProfile) (path : Text) (ns : Nodes)
      → ArePathed [] ns
      → IfSome (ArePathed []) (change_node (with_profiles f) path ns)
  change_profiles-ArePathed f path ns h =
      change_node-ArePathed (with_profiles f) path
        (λ parent n found p. with_profiles-IsPathed f parent n p) [] ns h

  removed_profile-ArePathed :
      (o : Option RemoteProfile) (path : Text) (index : Index) (ns : Nodes)
      → ArePathed [] ns
      → IfSome (ArePathed []) (removed_profile json encodings o path index ns)
  unfolding removed_profile
  removed_profile-ArePathed none path index ns h = tt
  removed_profile-ArePathed (some p) path index ns h =
      change_profiles-ArePathed (without index) path ns h

  and_then-ArePathed :
      (o : Option Nodes) (f : Nodes → Option Nodes)
      → IfSome (ArePathed []) o
      → ((ns : Nodes) → ArePathed [] ns → IfSome (ArePathed []) (f ns))
      → IfSome (ArePathed []) (and_then o f)
  unfolding and_then
  and_then-ArePathed none f h g = tt
  and_then-ArePathed (some ns) f h g = g ns h

  moved_profile-ArePathed :
      (o : Option RemoteProfile) (source : Text) (index : Index) (target : Text) (ns : Nodes)
      → ArePathed [] ns
      → IfSome (ArePathed []) (moved_profile json encodings o source index target ns)
  unfolding moved_profile
  moved_profile-ArePathed none source index target ns h = tt
  moved_profile-ArePathed (some p) source index target ns h =
      and_then-ArePathed (change_node (with_profiles (without index)) source ns)
        (change_node (with_profiles (λ ps. ps ++ p ∷ [])) target)
        (change_profiles-ArePathed (without index) source ns h)
        (λ ms g. change_profiles-ArePathed (λ ps. ps ++ p ∷ []) target ms g)

  create_checked-ArePathed :
      (qt : Qt) (parent name : Text) (t : Store json encodings)
      → IsName name
      → t.loaded ≡ true
      → ArePathed [] t.cache
      → ArePathed [] (tree ((create_checked json encodings qt parent name t).0))
  unfolding create_checked child_path
  create_checked-ArePathed qt [] name t m e h = commit-ArePathed t _ e h (
      append_child-ArePathed [] t.cache (node name name [] nil) (unfold IsPathed in (m, refl, tt))
        h)
  create_checked-ArePathed qt (c ∷ parent) name t m e h = commit-ArePathed t _ e h (
      change_node-ArePathed (with_child child) (c ∷ parent)
        (λ p n found q. with_child-IsPathed child p n (placed p n found) q) [] t.cache h)
    where
      child : RemoteProfileNode
      child = node name (child_path (c ∷ parent) name) [] nil

      placed :
          (p : Text) (n : RemoteProfileNode) → path_of n ≡ c ∷ parent → IsPathed (path_of n) child
      placed p n found = unfold IsPathed in (m, ap (λ q. child_path q name) (sym found), tt)

  module _ (qt : Qt) where
    edit-ArePathed :
        (e : Edit) (s : Store json encodings)
        → HasPlainName e
        → ArePathed [] (tree s)
        → ArePathed [] (tree ((edit qt json encodings e s).0))
    unfolding edit create_node rename_node remove_node save_profile remove_profile move_profile
        HasPlainName IsName tree
    edit-ArePathed (creates parent name) s plain h =
        if-ArePathed (is_empty (qt.trimmed name)) s _ h (λ some_name.
          create_checked-ArePathed qt parent (qt.trimmed name) (load_tree json encodings s)
            (some_name, qt.trimmed_lacks b'/' name plain) (load_tree-loaded s) h)
    edit-ArePathed (renames path name) s plain h =
        if-ArePathed (is_empty (qt.trimmed name)) s _ h (λ some_name.
          commit-ArePathed (load_tree json encodings s) _ (load_tree-loaded s) h (
            change_node-ArePathed _ path
              (λ parent n found p.
                renamed-IsPathed path (qt.trimmed name) parent n
                  (some_name, qt.trimmed_lacks b'/' name plain) found p)
              [] (tree s) h))
    edit-ArePathed (removes path) s plain h =
        commit-ArePathed (load_tree json encodings s) _ (load_tree-loaded s) h
          (remove_node_from-ArePathed path [] (tree s) h)
    edit-ArePathed (saves path index profile) s plain h =
        commit-ArePathed (load_tree json encodings s) _ (load_tree-loaded s) h
          (change_profiles-ArePathed _ path (tree s) h)
    edit-ArePathed (drops path index) s plain h =
        commit-ArePathed (load_tree json encodings s) _ (load_tree-loaded s) h
          (removed_profile-ArePathed _ path index (tree s) h)
    edit-ArePathed (moves source index target) s plain h =
        commit-ArePathed (load_tree json encodings s) _ (load_tree-loaded s) h
          (moved_profile-ArePathed _ source index target (tree s) h)

-- Over any sequence of operations that give groups no name with a slash, creating, renaming and removing
-- groups and saving, removing and moving connections, the path of every group stays that of its parent,
-- a slash and its name, if it is so in the tree at the start.
pub run_edits-ArePathed :
    (json : Json) (encodings : Encodings) (qt : Qt) (es : List Edit) (s : Store json encodings)
    → All HasPlainName es
    → ArePathed [] (tree json encodings s)
    → ArePathed [] (tree json encodings (run_edits qt json encodings es s))
unfolding run_edits
run_edits-ArePathed json encodings qt [] s plain h = h
run_edits-ArePathed json encodings qt (e ∷ es) s (p, plain) h =
    run_edits-ArePathed json encodings qt es _ plain (edit-ArePathed json encodings qt e s p h)

-- ===== src/Remote/Store/Restart.antt =====
-- What the program finds when it is started again
-- (crates/openbc-ui-qt/cpp/remote/remote_profile_store.h).
use mathlib.Core.Bool.{false≢true}
use open_bc.Prelude.{
  ℕ, suc, ◌≤◌, ◌<◌, Bool, true, false, Option, some, none, List, [], ◌∷◌, is_empty, All,
  if◌then◌else◌, ◌≡◌, refl, ap, ◌∙◌, arith,
}
use open_bc.Prelude.Qt.{Qt}
use open_bc.Remote.Json.{Json}
use open_bc.Remote.Secrets.{Encodings}
use open_bc.Remote.Profile.{Nodes, nil}
use open_bc.Remote.Codec.{nodes_to_json, nodes_from_json}
use open_bc.Remote.Codec.RoundTrip.{stored_nodes, AreStorable, nodes_read}
use open_bc.Remote.Store.{
  append_nodes, with_personal, Store, deepest, read_nodes, load_tree, persist, commit, remove_node,
  save_profile, remove_profile, move_profile, create_checked, create_node, rename_node,
}
use open_bc.Remote.Store.Edits.{Edit, edit, creates, renames, removes, saves, drops, moves}

module _ (json : Json) (encodings : Encodings) where
  open json use {
    Value, Bytes, is_no_bytes, to_json, from_json, nesting, max_nesting, to_json_bytes,
    from-to_json,
  }

  -- A new process, with the settings that the last one left.
  unfoldable pub restarted : Store json encodings → Store json encodings
  restarted s = record { cache = nil; loaded = false; saved = s.saved }

  unfoldable pub IsWritten : Store json encodings → Type 0
  IsWritten s = s.saved ≡ to_json (nodes_to_json json encodings s.cache)

  commit-IsWritten :
      (t : Store json encodings) (o : Option Nodes)
      → (commit json encodings t o).1 ≡ true
      → IsWritten ((commit json encodings t o).0)
  unfolding commit persist IsWritten
  commit-IsWritten t none h = absurd (false≢true h)
  commit-IsWritten t (some nodes) h = refl

  if-IsWritten :
      (b : Bool) (s : Store json encodings) (x : Store json encodings × Bool)
      → (x.1 ≡ true → IsWritten (x.0))
      → (if b then (s, false) else x).1 ≡ true
      → IsWritten ((if b then (s, false) else x).0)
  if-IsWritten true s x f h = absurd (false≢true h)
  if-IsWritten false s x f h = f h

  create_checked-IsWritten :
      (qt : Qt) (parent name : _) (t : Store json encodings)
      → (create_checked json encodings qt parent name t).1 ≡ true
      → IsWritten ((create_checked json encodings qt parent name t).0)
  unfolding create_checked
  create_checked-IsWritten qt [] name t h = commit-IsWritten t _ h
  create_checked-IsWritten qt (c ∷ parent) name t h = commit-IsWritten t _ h

  edit-IsWritten :
      (qt : Qt) (e : Edit) (s : Store json encodings)
      → (edit qt json encodings e s).1 ≡ true
      → IsWritten ((edit qt json encodings e s).0)
  unfolding edit create_node rename_node remove_node save_profile remove_profile move_profile
  edit-IsWritten qt (creates parent name) s h =
      if-IsWritten (is_empty (qt.trimmed name)) s _
        (create_checked-IsWritten qt parent (qt.trimmed name) (load_tree json encodings s)) h
  edit-IsWritten qt (renames path name) s h =
      if-IsWritten (is_empty (qt.trimmed name)) s _
        (commit-IsWritten (load_tree json encodings s) _) h
  edit-IsWritten qt (removes path) s h = commit-IsWritten (load_tree json encodings s) _ h
  edit-IsWritten qt (saves path index profile) s h =
      commit-IsWritten (load_tree json encodings s) _ h
  edit-IsWritten qt (drops path index) s h = commit-IsWritten (load_tree json encodings s) _ h
  edit-IsWritten qt (moves source index target) s h =
      commit-IsWritten (load_tree json encodings s) _ h

  deepest_bound :
      (vs : List Value) (d : ℕ) → deepest json encodings vs ≤ d → All (λ v. nesting v < suc d) vs
  unfolding deepest
  deepest_bound [] d h = tt
  deepest_bound (v ∷ vs) d h = (omega (arith, h), deepest_bound vs d (omega (arith, h)))

  read-written :
      (ns : Nodes) (bytes : Bytes)
      → bytes ≡ to_json (nodes_to_json json encodings ns)
      → AreStorable json encodings ns
      → All (λ v. nesting v ≤ max_nesting) (nodes_to_json json encodings ns)
      → read_nodes json encodings bytes ≡ stored_nodes ns
  unfolding read_nodes
  read-written ns bytes e good small =
      rw (some_bytes)
        (ap (λ l. nodes_from_json json encodings (suc (deepest json encodings l)) l) whole ∙ known)
    where
      values : List Value
      values = nodes_to_json json encodings ns

      some_bytes : is_no_bytes bytes ≡ false
      some_bytes = ap is_no_bytes e ∙ to_json_bytes values

      whole : from_json bytes ≡ values
      whole = ap from_json e ∙ from-to_json values small

      known :
          nodes_from_json json encodings (suc (deepest json encodings values)) values
          ≡ stored_nodes ns
      known =
          nodes_read json encodings ns (suc (deepest json encodings values))
            (deepest_bound values (deepest json encodings values) (omega arith)) good

-- After an operation that succeeds, creating, renaming or removing a group, or saving, removing or
-- moving a connection, a new start of the program reads the tree as the operation left it: with the
-- same groups, paths and connections, the passwords only of those that are to save theirs, and the
-- group "Personal" if there is none. The ports are 32-bit numbers, the passwords Unicode texts, and
-- the tree is not nested deeper than the JSON parser reads.
pub restart-edit :
    (qt : Qt) (json : Json) (encodings : Encodings) (e : Edit) (s : Store json encodings)
    → (edit qt json encodings e s).1 ≡ true
    → AreStorable json encodings ((edit qt json encodings e s).0).cache
    → All
        (λ v. json.nesting v ≤ json.max_nesting)
        (nodes_to_json json encodings ((edit qt json encodings e s).0).cache)
    → (load_tree json encodings (restarted json encodings ((edit qt json encodings e s).0))).cache
      ≡ with_personal (stored_nodes ((edit qt json encodings e s).0).cache)
unfolding load_tree append_nodes restarted IsWritten
restart-edit qt json encodings e s done good small =
    ap with_personal (read-written json encodings _ _ written good small)
  where
    written : IsWritten json encodings ((edit qt json encodings e s).0)
    written = edit-IsWritten json encodings qt e s done

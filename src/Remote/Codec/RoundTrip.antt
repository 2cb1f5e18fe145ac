-- ===== src/Remote/Codec/RoundTrip.antt =====
-- The tree of saved connections is read as it was written
-- (crates/openbc-ui-qt/cpp/remote/remote_profile_store.h).
use open_bc.Prelude.{
  ℕ, zero, suc, ◌≤◌, ◌<◌, List, [], ◌∷◌, Text, codes, same, map, All, ◌≡◌, refl, ap, ap₂, subst,
  ◌∙◌, arith,
}
use open_bc.Remote.Json.{Json, last_assigned, at-assign}
use open_bc.Remote.Secrets.{Encodings}
use open_bc.Remote.Profile.{RemoteProfile, RemoteProfileNode, node, Nodes, nil, cons}
use open_bc.Remote.Codec.{
  profile_to_json, profile_from_json, to_nodes, node_fields, node_to_json, nodes_to_json,
  node_from_json, nodes_from_json,
}
use open_bc.Remote.Codec.Fields.{stored, IsStorable, profile_from-to_json}

-- What is kept of a tree.
unfoldable mutual
  pub stored_node : RemoteProfileNode → RemoteProfileNode
  stored_node (node name path profiles children) =
      node name path (map stored profiles) (stored_nodes children)

  pub stored_nodes : Nodes → Nodes
  stored_nodes nil = nil
  stored_nodes (cons n ns) = cons (stored_node n) (stored_nodes ns)

pub All-weaken {ℓ κ μ} :
    {A : Type ℓ} (P : A → Type κ) (Q : A → Type μ)
    → ((a : A) → P a → Q a)
    → (l : List A) → All P l
    → All Q l
All-weaken P Q f [] h = tt
All-weaken P Q f (x ∷ l) (p, h) = (f x p, All-weaken P Q f l h)

module _ (json : Json) (encodings : Encodings) where
  open json use {
    Value, Object, empty, at, to_text, of_text, of_array, to_array, of_object, to_object, nesting,
    to-of_text, to-of_array, to-of_object, nesting-at, nesting-element,
  }

  unfoldable mutual
    pub IsStorableNode : RemoteProfileNode → Type 0
    IsStorableNode (node name path profiles children) =
        All (IsStorable json encodings) profiles × AreStorable children

    pub AreStorable : Nodes → Type 0
    AreStorable nil = Unit
    AreStorable (cons n ns) = IsStorableNode n × AreStorable ns

  profiles_read :
      (ps : List RemoteProfile)
      → All (IsStorable json encodings) ps
      → map
          (λ v. profile_from_json json encodings (to_object v))
          (map (λ p. of_object (profile_to_json json encodings p)) ps)
        ≡ map stored ps
  profiles_read [] h = refl
  profiles_read (p ∷ ps) (s, h) =
      ap₂ (λ x xs. x ∷ xs)
        (ap (profile_from_json json encodings) (to-of_object (profile_to_json json encodings p))
          ∙ profile_from-to_json json encodings p s)
        (profiles_read ps h)

  -- The values of an object's array lie less deep than the object.
  inner_nesting :
      (obj : Object) (key : Text) (vs : List Value) (depth : ℕ)
      → to_array (at obj key) ≡ vs
      → nesting (of_object obj) < suc depth
      → All (λ v. nesting v < depth) vs
  inner_nesting obj key vs depth e h = subst (All (λ v. nesting v < depth)) e (
      All-weaken (λ v. nesting v < nesting (at obj key)) (λ v. nesting v < depth)
        (λ v lt. omega (arith, lt, h, around)) (to_array (at obj key))
        (nesting-element (at obj key)))
    where
      around : nesting (at obj key) ≤ nesting (of_object obj)
      around =
          subst (λ o. nesting (at o key) ≤ nesting (of_object obj)) (to-of_object obj)
            (nesting-at (of_object obj) key)

  mutual
    unfolding node_from_json nodes_from_json node_to_json nodes_to_json IsStorableNode AreStorable
        stored_node stored_nodes to_nodes node_fields last_assigned same

    node_read :
        (n : RemoteProfileNode) (depth : ℕ)
        → nesting (of_object (node_to_json json encodings n)) < depth
        → IsStorableNode n
        → node_from_json json encodings depth (node_to_json json encodings n) ≡ stored_node n
    node_read n zero h s = absurd (omega (arith, h))
    node_read (node name path profiles children) (suc depth) h (ps, cs) =
        let read = λ (key : Text).
          at-assign json empty key (
            node_fields json encodings name path profiles
              (nodes_to_json json encodings children)) in
        let values =
          ap to_array (read (codes "children"))
          ∙ to-of_array (nodes_to_json json encodings children) in
        let inner =
          inner_nesting (node_to_json json encodings (node name path profiles children))
            (codes "children") _ depth values h in
        λ i.
          node ((ap (to_text []) (read (codes "name")) ∙ to-of_text [] name) i)
            ((ap (to_text []) (read (codes "path")) ∙ to-of_text [] path) i)
            ((ap (map (λ v. profile_from_json json encodings (to_object v)))
                  (ap to_array (read (codes "profiles")) ∙ to-of_array _)
                ∙ profiles_read profiles ps)
              i)
            ((ap (nodes_from_json json encodings depth) values ∙ nodes_read children depth inner cs)
              i)

    pub nodes_read :
        (ns : Nodes) (depth : ℕ)
        → All (λ v. nesting v < depth) (nodes_to_json json encodings ns)
        → AreStorable ns
        → nodes_from_json json encodings depth (nodes_to_json json encodings ns) ≡ stored_nodes ns
    nodes_read nil depth h s = refl
    nodes_read (cons n ns) depth (p, h) (s, t) =
        ap₂ cons
          (ap (node_from_json json encodings depth) (to-of_object (node_to_json json encodings n))
            ∙ node_read n depth p s)
          (nodes_read ns depth h t)

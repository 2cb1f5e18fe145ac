-- ===== src/Remote/Json.antt =====
-- What the saved connections take from Qt's JSON classes. Qt is not part of the repository, so its
-- operations are a parameter, with the documented behaviour that the code relies on.
pub mod Plain
use open_bc.Prelude.{
  ℕ, ◌≤◌, ◌<◌, Bool, true, false, List, [], ◌∷◌, Text, same, All, ℤ, is_int32, ◌≡◌, if◌then◌else◌,
  Bool-cases, inl, inr, same_sound, ap, subst, refl, ◌∙◌,
}

pub record Json : Type 1 where
  -- `QJsonValue`, `QJsonObject` and a document's bytes.
  pub Value : Type 0
  pub Object : Type 0
  pub Bytes : Type 0
  -- `obj[key] = value` and `obj[key]`.
  pub empty : Object
  pub insert : Text → Value → Object → Object
  pub at : Object → Text → Value
  -- Conversions to a value, and from a value with the default that it has for one of another type.
  pub of_text : Text → Value
  pub to_text : Text → Value → Text
  pub of_int : ℤ → Value
  pub to_int : ℤ → Value → ℤ
  pub of_bool : Bool → Value
  pub to_bool : Bool → Value → Bool
  pub of_array : List Value → Value
  pub to_array : Value → List Value
  pub of_object : Object → Value
  pub to_object : Value → Object
  -- `QJsonDocument(array).toJson` and `QJsonDocument::fromJson(bytes).array()`.
  pub no_bytes : Bytes
  pub is_no_bytes : Bytes → Bool
  pub to_json : List Value → Bytes
  pub from_json : Bytes → List Value
  -- How deep arrays and objects are nested in a value, and how deep the parser takes them.
  pub nesting : Value → ℕ
  pub max_nesting : ℕ
  pub at-insert : (key : Text) (v : Value) (o : Object) → at (insert key v o) key ≡ v
  pub at-insert_other :
      (key other : Text) (v : Value) (o : Object)
      → same key other ≡ false
      → at (insert key v o) other ≡ at o other
  pub to-of_text : (d t : Text) → to_text d (of_text t) ≡ t
  pub to-of_int : (d n : ℤ) → is_int32 n ≡ true → to_int d (of_int n) ≡ n
  pub to-of_bool : (d b : Bool) → to_bool d (of_bool b) ≡ b
  pub to-of_array : (vs : List Value) → to_array (of_array vs) ≡ vs
  pub to-of_object : (o : Object) → to_object (of_object o) ≡ o
  pub nesting-at : (v : Value) (key : Text) → nesting (at (to_object v) key) ≤ nesting v
  pub nesting-element : (v : Value) → All (λ w. nesting w < nesting v) (to_array v)
  pub no_bytes_empty : is_no_bytes no_bytes ≡ true
  pub to_json_bytes : (vs : List Value) → is_no_bytes (to_json vs) ≡ false
  pub from-to_json :
      (vs : List Value) → All (λ v. nesting v ≤ max_nesting) vs → from_json (to_json vs) ≡ vs

module _ (json : Json) where
  open json use {Value, Object, insert, at, at-insert, at-insert_other}

  -- Assignments to an object, in order.
  unfoldable pub assign : Object → List (Text × Value) → Object
  assign o [] = o
  assign o ((key, v) ∷ rest) = assign (insert key v o) rest

  -- The value that is assigned last.
  unfoldable pub last_assigned : Text → Value → List (Text × Value) → Value
  last_assigned key d [] = d
  last_assigned key d ((other, v) ∷ rest) = last_assigned key (if same other key then v else d) rest

  at-insert_any :
      (other : Text) (v : Value) (o : Object) (key : Text)
      → at (insert other v o) key ≡ (if same other key then v else at o key)
  at-insert_any other v o key = elim (Bool-cases (same other key)) [
    | inl e ↦
        rw (e)
          (subst (λ k. at (insert other v o) k ≡ v) (same_sound other key e) (at-insert other v o))
    | inr e ↦ rw (e) (at-insert_other other key v o e)
  ]

  pub at-assign :
      (o : Object) (key : Text) (fields : List (Text × Value))
      → at (assign o fields) key ≡ last_assigned key (at o key) fields
  unfolding assign last_assigned
  at-assign o key [] = refl
  at-assign o key ((other, v) ∷ rest) =
      at-assign (insert other v o) key rest
      ∙ ap (λ d. last_assigned key d rest) (at-insert_any other v o key)

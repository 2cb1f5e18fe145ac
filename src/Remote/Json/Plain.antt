-- ===== src/Remote/Json/Plain.antt =====
-- JSON values as a data type, for the tests.
use open_bc.Prelude.{
  ℕ, suc, ◌≤◌, ◌<◌, max, Bool, true, false, Option, none, some, List, [], ◌∷◌, Text, same,
  same_refl, All, ℤ, if◌then◌else◌, ◌≡◌, refl, ap, arith, inl, inr, Bool-cases,
}
use open_bc.Remote.Json.{Json}

mutual
  pub data JsonValue : Type 0 where
    undefined : JsonValue
    text : Text → JsonValue
    number : ℤ → JsonValue
    truth : Bool → JsonValue
    array : JsonValues → JsonValue
    object : JsonObject → JsonValue

  pub data JsonValues : Type 0 where
    no_values : JsonValues
    values : JsonValue → JsonValues → JsonValues

  pub data JsonObject : Type 0 where
    no_fields : JsonObject
    field : Text → JsonValue → JsonObject → JsonObject

abbrev of_list : List JsonValue → JsonValues
of_list [] = no_values
of_list (v ∷ vs) = values v (of_list vs)

abbrev to_list : JsonValues → List JsonValue
to_list no_values = []
to_list (values v vs) = v ∷ to_list vs

pub to-of_list : (vs : List JsonValue) → to_list (of_list vs) ≡ vs
to-of_list [] = refl
to-of_list (v ∷ vs) = ap (λ l. v ∷ l) (to-of_list vs)

abbrev look_up : JsonObject → Text → JsonValue
look_up no_fields key = undefined
look_up (field other v o) key = let rest = look_up o key in if same other key then v else rest

abbrev fields_of : JsonValue → JsonObject
fields_of (object o) = o
fields_of _ = no_fields

abbrev list_of : JsonValue → List JsonValue
list_of (array vs) = to_list vs
list_of _ = []

unfoldable mutual
  pub depth : JsonValue → ℕ
  depth (array vs) = suc (depth_values vs)
  depth (object o) = depth_fields o
  depth _ = 0

  pub depth_values : JsonValues → ℕ
  depth_values no_values = 0
  depth_values (values v vs) = max (depth v) (depth_values vs)

  pub depth_fields : JsonObject → ℕ
  depth_fields no_fields = 0
  depth_fields (field key v o) = max (depth v) (depth_fields o)

depth-look_up : (o : JsonObject) (key : Text) → depth (look_up o key) ≤ depth_fields o
unfolding depth
depth-look_up no_fields key = omega arith
depth-look_up (field other v o) key = elim (Bool-cases (same other key)) [
  | inl e ↦ rw (e) (omega arith)
  | inr e ↦ rw (e) (omega (arith, depth-look_up o key))
]

pub depth-fields_of : (v : JsonValue) (key : Text) → depth (look_up (fields_of v) key) ≤ depth v
unfolding depth
depth-fields_of (object o) key = depth-look_up o key
depth-fields_of undefined key = omega arith
depth-fields_of (text t) key = omega arith
depth-fields_of (number n) key = omega arith
depth-fields_of (truth b) key = omega arith
depth-fields_of (array vs) key = omega arith

depth_values-All :
    (vs : JsonValues) (d : ℕ) → depth_values vs ≤ d → All (λ w. depth w < suc d) (to_list vs)
unfolding depth
depth_values-All no_values d h = tt
depth_values-All (values v vs) d h = (omega (arith, h), depth_values-All vs d (omega (arith, h)))

pub depth-list_of : (v : JsonValue) → All (λ w. depth w < depth v) (list_of v)
unfolding depth
depth-list_of (array vs) = depth_values-All vs (depth_values vs) (omega arith)
depth-list_of undefined = tt
depth-list_of (text t) = tt
depth-list_of (number n) = tt
depth-list_of (truth b) = tt
depth-list_of (object o) = tt

abbrev read_text : Text → JsonValue → Text
read_text d (text t) = t
read_text d _ = d

abbrev read_number : ℤ → JsonValue → ℤ
read_number d (number n) = n
read_number d _ = d

abbrev read_truth : Bool → JsonValue → Bool
read_truth d (truth b) = b
read_truth d _ = d

abbrev is_none : Option (List JsonValue) → Bool
is_none none = true
is_none (some vs) = false

abbrev or_empty : Option (List JsonValue) → List JsonValue
or_empty none = []
or_empty (some vs) = vs

abbrev pub plain_json : Json
plain_json = record {
  Value = JsonValue;
  Object = JsonObject;
  Bytes = Option (List JsonValue);
  empty = no_fields;
  insert = field;
  at = look_up;
  of_text = text;
  to_text = read_text;
  of_int = number;
  to_int = read_number;
  of_bool = truth;
  to_bool = read_truth;
  of_array = λ vs. array (of_list vs);
  to_array = list_of;
  of_object = object;
  to_object = fields_of;
  no_bytes = none;
  is_no_bytes = is_none;
  to_json = some;
  from_json = or_empty;
  nesting = depth;
  max_nesting = 1024;
  at-insert = λ key v o. rw (same_refl key) refl;
  at-insert_other = λ key other v o e. rw (e) refl;
  to-of_text = λ d t. refl;
  to-of_int = λ d n e. refl;
  to-of_bool = λ d b. refl;
  to-of_array = to-of_list;
  to-of_object = λ o. refl;
  nesting-at = depth-fields_of;
  nesting-element = depth-list_of;
  no_bytes_empty = refl;
  to_json_bytes = λ vs. refl;
  from-to_json = λ vs h. refl;
}

-- ===== src/Runtime/Depth.antt =====
-- How deep a serialized result nests (src/ida_bridge/ida_runtime.py, `serialize_result`).
use package.text.Mathlib.Text.{starts_with}
use ida_bridge.Common.{
  ℕ, zero, suc, ◌+◌, ◌≤◌, max, String, Bool, true, false, List, [], ◌∷◌, ltb, ◌≡◌, refl, arith,
  ◌==◌, text_key, if◌then◌else◌,
}
use ida_bridge.Protocol.Json.{
  Json, null, bool, int, float, text, arr, obj, Items, nil, cons, Fields, end, field,
}
use ida_bridge.Runtime.Serialize.{
  Node, none_value, bool_value, int_value, float_value, str_value, bytes_value, sequence_value,
  dict_value, model_value, instance_value, other_value, Object, set_field, items_of, fields_of,
  public_of, node_to_json, serialize_below, serialize_result, max_depth,
}

unfoldable mutual
  pub json_depth : Json → ℕ
  json_depth null = 0
  json_depth (bool b) = 0
  json_depth (int z) = 0
  json_depth (float x) = 0
  json_depth (text s) = 0
  json_depth (arr xs) = suc (items_depth xs)
  json_depth (obj d) = suc (fields_depth d)

  pub items_depth : Items → ℕ
  items_depth nil = 0
  items_depth (cons x xs) = max (json_depth x) (items_depth xs)

  pub fields_depth : Fields → ℕ
  fields_depth end = 0
  fields_depth (field key x d) = max (json_depth x) (fields_depth d)

max_least : (a b c : ℕ) → a ≤ c → b ≤ c → max a b ≤ c
max_least a b c h g = omega arith

max_left : (a b c : ℕ) → max a b ≤ c → a ≤ c
max_left a b c h = omega arith

max_right : (a b c : ℕ) → max a b ≤ c → b ≤ c
max_right a b c h = omega arith

chosen :
    (t : Bool) (d e : Fields) (b : ℕ)
    → fields_depth d ≤ b
    → fields_depth e ≤ b
    → fields_depth (if t then d else e) ≤ b
chosen true d e b h g = h
chosen false d e b h g = g

set_field-depth :
    (key : String) (x : Json) (d : Fields) (b : ℕ)
    → json_depth x ≤ b
    → fields_depth d ≤ b
    → fields_depth (set_field key x d) ≤ b
unfolding set_field fields_depth
set_field-depth key x end b hx hd = max_least (json_depth x) 0 b hx hd
set_field-depth key x (field k v d) b hx hd =
    let tail = max_right (json_depth v) (fields_depth d) b hd in
    chosen (k == key) _ _ b (max_least (json_depth x) (fields_depth d) b hx tail) (
      max_least (json_depth v) _ b (max_left (json_depth v) (fields_depth d) b hd)
        (set_field-depth key x d b hx tail))

-- The dump of a pydantic model that the heap holds nests at most so deep.
abbrev pub DumpsWithin : ℕ → Node → Type 0
DumpsWithin b (model_value dump) = json_depth dump ≤ b
DumpsWithin b _ = Unit

module _ (heap : ℕ → Object) (to_json : ℕ → Json) (b : ℕ)
    (below : (x : ℕ) → json_depth (to_json x) ≤ b) where
  items_of-depth : (xs : List ℕ) → items_depth (items_of heap to_json xs) ≤ b
  unfolding items_depth
  items_of-depth [] = omega arith
  items_of-depth (x ∷ xs) = max_least (json_depth (to_json x)) _ b (below x) (items_of-depth xs)

  fields_of-depth :
      (entries : List (String × ℕ)) (d : Fields)
      → fields_depth d ≤ b
      → fields_depth (fields_of heap to_json entries d) ≤ b
  fields_of-depth [] d h = h
  fields_of-depth ((key, x) ∷ entries) d h =
      fields_of-depth entries (set_field key (to_json x) d)
        (set_field-depth key (to_json x) d b (below x) h)

  public_of-depth :
      (attributes : List (String × ℕ)) (d : Fields)
      → fields_depth d ≤ b
      → fields_depth (public_of heap to_json attributes d) ≤ b
  public_of-depth [] d h = h
  public_of-depth ((name, x) ∷ attributes) d h =
      public_of-depth attributes _
        (chosen (starts_with name "_") d _ b h (set_field-depth name (to_json x) d b (below x) h))

  shallow :
      (t : Bool) (d e : Fields)
      → fields_depth d ≡ 0
      → fields_depth e ≡ 0
      → json_depth (if t then obj d else obj e) ≤ suc b
  unfolding json_depth
  shallow true d e h g = omega arith
  shallow false d e h g = omega arith

  node-depth :
      (o : Object) (n : Node)
      → DumpsWithin (suc b) n
      → json_depth (node_to_json heap to_json o n) ≤ suc b
  unfolding json_depth fields_depth
  node-depth o none_value h = omega arith
  node-depth o (bool_value t) h = omega arith
  node-depth o (int_value z) h = omega arith
  node-depth o (float_value x) h = omega arith
  node-depth o (str_value s) h = omega arith
  node-depth o (bytes_value hex size) h = shallow (ltb 1024 size) _ _ refl refl
  node-depth o (sequence_value xs) h = omega (arith, items_of-depth xs)
  node-depth o (dict_value entries) h = omega (arith, fields_of-depth entries end (omega arith))
  node-depth o (model_value dump) h = h
  node-depth o (instance_value attributes) h = omega (
    arith,
    public_of-depth attributes (field "_type" (text o.type_name) end)
        (max_least 0 0 b (omega arith) (omega arith)),
  )
  node-depth o other_value h = omega arith

module _ (heap : ℕ → Object) (b : ℕ) (dumps : (x : ℕ) → DumpsWithin b (heap x).node) where
  DumpsWithin-weaken : (c : ℕ) (n : Node) → b ≤ c → DumpsWithin b n → DumpsWithin c n
  DumpsWithin-weaken c (model_value dump) h d = omega arith
  DumpsWithin-weaken c none_value h d = tt
  DumpsWithin-weaken c (bool_value t) h d = tt
  DumpsWithin-weaken c (int_value z) h d = tt
  DumpsWithin-weaken c (float_value x) h d = tt
  DumpsWithin-weaken c (str_value s) h d = tt
  DumpsWithin-weaken c (bytes_value hex size) h d = tt
  DumpsWithin-weaken c (sequence_value xs) h d = tt
  DumpsWithin-weaken c (dict_value entries) h d = tt
  DumpsWithin-weaken c (instance_value attributes) h d = tt
  DumpsWithin-weaken c other_value h d = tt

  serialize_below-depth :
      (levels x : ℕ) → json_depth (serialize_below heap levels x) ≤ levels + suc b
  unfolding serialize_below json_depth
  serialize_below-depth zero x = omega arith
  serialize_below-depth (suc levels) x =
      let h =
        node-depth heap (serialize_below heap levels) (levels + suc b)
          (serialize_below-depth levels) (heap x) (heap x).node
          (DumpsWithin-weaken (suc (levels + suc b)) (heap x).node (omega arith) (dumps x)) in
      omega (arith, h)

  -- Whatever the objects refer to, also themselves, a serialized result nests at most
  -- `max_depth` + 2 levels deeper than the deepest dump of a pydantic model in it.
  pub serialize_result-depth : (x : ℕ) → json_depth (serialize_result heap x) ≤ max_depth + 2 + b
  unfolding serialize_result
  serialize_result-depth x = omega (arith, serialize_below-depth (max_depth + 1) x)

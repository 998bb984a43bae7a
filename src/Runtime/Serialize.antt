-- ===== src/Runtime/Serialize.antt =====
-- src/ida_bridge/ida_runtime.py: `serialize_result`, on objects that may refer to each other in circles.
use package.text.Mathlib.Text.{starts_with}
use Prim.Native.String.{slice}
use ida_bridge.Common.{
  ℕ, zero, suc, ◌+◌, String, Bool, true, List, [], ◌∷◌, ltb, ◌==◌, text_key, if◌then◌else◌,
}
use ida_bridge.Common.Int.{ℤ, pos}
use ida_bridge.Protocol.Json.{
  Json, null, bool, int, float, text, arr, obj, Items, nil, cons, Fields, end, field,
}

-- What `serialize_result` asks of an object; a number names the object that a reference leads to. A
-- `dict` has its keys as `str` gives them, and a pydantic model what its own dump is.
pub data Node : Type 0 where
  none_value : Node
  bool_value : Bool → Node
  int_value : ℤ → Node
  float_value : String → Node
  str_value : String → Node
  bytes_value : String → ℕ → Node
  sequence_value : List ℕ → Node
  dict_value : List (String × ℕ) → Node
  model_value : Json → Node
  instance_value : List (String × ℕ) → Node
  other_value : Node

pub record Object : Type 0 where
  pub type_name : String
  pub repr : String
  pub node : Node

-- d[key] = value
unfoldable pub set_field : String → Json → Fields → Fields
set_field key value end = field key value end
set_field key value (field k v rest) =
    let rest' = set_field key value rest in
    if k == key then field key value rest else field k v rest'

abbrev pub max_depth : ℕ
max_depth = 4

abbrev pub truncated : ℕ → Object → Json
truncated depth o = obj (
    field "_truncated_at_depth" (int (pos depth))
      (field "_type" (text o.type_name) (field "_repr" (text o.repr) end)))

abbrev pub serialized_bytes : String → ℕ → Json
serialized_bytes hex size =
    if ltb 1024 size
    then obj (
        field "_bytes_hex" (text (slice hex 0 2048))
          (field "_truncated" (bool true) (field "_len" (int (pos size)) end)))
    else obj (field "_bytes_hex" (text hex) (field "_len" (int (pos size)) end))

-- The levels that are left stand for `max_depth - depth + 1`, so that nothing is left beyond the last.
module _ (heap : ℕ → Object) where
  abbrev pub items_of : (ℕ → Json) → List ℕ → Items
  items_of to_json [] = nil
  items_of to_json (x ∷ xs) = cons (to_json x) (items_of to_json xs)

  abbrev pub fields_of : (ℕ → Json) → List (String × ℕ) → Fields → Fields
  fields_of to_json [] d = d
  fields_of to_json ((key, x) ∷ rest) d = fields_of to_json rest (set_field key (to_json x) d)

  -- The attributes whose name does not start with an underscore.
  abbrev pub public_of : (ℕ → Json) → List (String × ℕ) → Fields → Fields
  public_of to_json [] d = d
  public_of to_json ((name, x) ∷ rest) d =
      public_of to_json rest (if starts_with name "_" then d else set_field name (to_json x) d)

  abbrev pub node_to_json : (ℕ → Json) → Object → Node → Json
  node_to_json to_json o none_value = null
  node_to_json to_json o (bool_value b) = bool b
  node_to_json to_json o (int_value z) = int z
  node_to_json to_json o (float_value x) = float x
  node_to_json to_json o (str_value s) = text s
  node_to_json to_json o (bytes_value hex size) = serialized_bytes hex size
  node_to_json to_json o (sequence_value xs) = arr (items_of to_json xs)
  node_to_json to_json o (dict_value entries) = obj (fields_of to_json entries end)
  node_to_json to_json o (model_value dump) = dump
  node_to_json to_json o (instance_value attributes) =
      obj (public_of to_json attributes (field "_type" (text o.type_name) end))
  node_to_json to_json o other_value =
      obj (field "_type" (text o.type_name) (field "_repr" (text o.repr) end))

  unfoldable pub serialize_below : ℕ → ℕ → Json
  unfolding set_field
  serialize_below zero x = truncated (max_depth + 1) (heap x)
  serialize_below (suc levels) x = node_to_json (serialize_below levels) (heap x) (heap x).node

  unfoldable pub serialize_result : ℕ → Json
  unfolding serialize_below
  serialize_result x = serialize_below (max_depth + 1) x

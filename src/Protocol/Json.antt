-- ===== src/Protocol/Json.antt =====
-- JSON values as Python holds them (`dict[str, Any]`): metadata, traces and results.
use ida_bridge.Common.{String, Bool}
use ida_bridge.Common.Int.{ℤ}

mutual
  pub data Json : Type 0 where
    null : Json
    bool : Bool → Json
    int : ℤ → Json
    float : String → Json
    text : String → Json
    arr : Items → Json
    obj : Fields → Json

  pub data Items : Type 0 where
    nil : Items
    cons : Json → Items → Items

  pub data Fields : Type 0 where
    end : Fields
    field : String → Json → Fields → Fields

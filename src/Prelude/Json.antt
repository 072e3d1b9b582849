-- ===== src/Prelude/Json.antt =====
-- Values that the program stores and passes on without looking into them (`unknown`).
use Prim.Native.String.{String}
use mathlib.Core.Bool.{Bool}
use multi_robot_supervision.Prelude.Int.{ℤ}

mutual
  pub data Json : Type 0 where
    null : Json
    bool : Bool → Json
    number : ℤ → Json
    text : String → Json
    array : Items → Json
    object : Fields → Json

  pub data Items : Type 0 where
    nil : Items
    cons : Json → Items → Items

  pub data Fields : Type 0 where
    end : Fields
    field : String → Json → Fields → Fields

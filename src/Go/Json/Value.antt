-- ===== src/Go/Json/Value.antt =====
-- The tree of a JSON text, with its strings decoded and its numbers as they are spelled.
use runtime_class_manager.Base.{Text, Bool}

mutual
  pub data Value : Type 0 where
    null : Value
    bool : Bool → Value
    num : Text → Value
    str : Text → Value
    arr : Items → Value
    obj : Fields → Value

  pub data Items : Type 0 where
    nil : Items
    cons : Value → Items → Items

  pub data Fields : Type 0 where
    end : Fields
    field : Text → Value → Fields → Fields

-- ===== src/Domain/Json.antt =====
-- The values that `encoding/json` decodes into `any`, and `map[string]any`.
use my_safe.Prelude.{Bool}
use my_safe.Prelude.Text.{Text}

-- A number is its decimal text: no code of the repository computes with one.
mutual
  pub data Value : Type 0 where
    null : Value
    bool : Bool → Value
    num : Text → Value
    str : Text → Value
    arr : Items → Value
    obj : Fields → Value

  pub data Items : Type 0 where
    nil : Items
    item : Value → Items → Items

  pub data Fields : Type 0 where
    end : Fields
    field : Text → Value → Fields → Fields

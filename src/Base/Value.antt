-- ===== src/Base/Value.antt =====
-- `serde_json::Value`, as far as the program builds such values: its numbers are natural.
use Prim.Native.Nat.{ℕ}
use mathlib.Core.Bool.{Bool}
use openjarvis.Base.Str.{Text}

mutual
  pub data Json : Type 0 where
    null : Json
    bool : Bool → Json
    num : ℕ → Json
    str : Text → Json
    arr : Items → Json
    obj : Fields → Json

  pub data Items : Type 0 where
    nil : Items
    cons : Json → Items → Items

  pub data Fields : Type 0 where
    end : Fields
    field : Text → Json → Fields → Fields

-- `json!({})`
abbrev pub empty_object : Json
empty_object = obj end

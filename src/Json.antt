-- ===== src/Json.antt =====
-- Values of `JSON.parse`, and the `any` values that the program reads by optional chaining.
pub mod Reading
use pasarelapagos_backend.Prelude.{String, Bool, List, [], ◌∷◌, String_eq}
use pasarelapagos_backend.Prelude.Int.{ℤ}

mutual
  pub data Json : Type 0 where
    null : Json
    bool : Bool → Json
    num : ℤ → Json
    str : String → Json
    arr : Items → Json
    obj : Fields → Json

  pub data Items : Type 0 where
    nil : Items
    cons : Json → Items → Items

  pub data Fields : Type 0 where
    end : Fields
    field : String → Json → Fields → Fields

-- An object with the given fields.
abbrev pub object : List (String × Json) → Json
object entries = obj (fields entries)
  where
    fields : List (String × Json) → Fields
    fields [] = end
    fields ((k, v) ∷ rest) = field k v (fields rest)

-- ===== src/Bench/Serialize.antt =====
-- What serde's derived implementations of `Serialize` in bench.rs call on a serializer: the calls
-- are values, in their order.
use sim_tooling.Support.{ℕ, String, Bool, Option, none, some, List, [], ◌∷◌, ◌++◌}
use sim_tooling.Support.Maps.{Map}

-- `Value` is `serde_json::Value`, which writes itself.
pub data Call (F Value : Type 0) : Type 0 where
  null begin_struct begin_map begin_sequence end : Call F Value
  boolean : Bool → Call F Value
  number : ℕ → Call F Value
  float : F → Call F Value
  text key : String → Call F Value
  json : Value → Call F Value

module _ {F Value : Type 0} where
  -- The members of a struct under their names.
  unfoldable pub write_fields : List (String × List (Call F Value)) → List (Call F Value)
  write_fields [] = end ∷ []
  write_fields ((name, calls) ∷ rest) = key name ∷ calls ++ write_fields rest

  abbrev pub write_struct : List (String × List (Call F Value)) → List (Call F Value)
  write_struct fields = begin_struct ∷ write_fields fields

  unfoldable pub write_option : Option String → List (Call F Value)
  write_option none = null ∷ []
  write_option (some value) = text value ∷ []

  unfoldable pub write_texts : List String → List (Call F Value)
  write_texts [] = end ∷ []
  write_texts (value ∷ rest) = text value ∷ write_texts rest

  unfoldable pub write_parameters : Map String Value → List (Call F Value)
  write_parameters [] = end ∷ []
  write_parameters ((name, value) ∷ rest) = key name ∷ json value ∷ write_parameters rest

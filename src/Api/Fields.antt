-- ===== src/Api/Fields.antt =====
-- The JSON objects that the wrappers send, as lists of their keys with values.
use xp_panel.Shared.{ℤ, Text, Bool, Option, none, some, List, [], ◌∷◌}
use xp_panel.Api.Calls.{ApiCall}

pub data Value : Type 0 where
  string : Text → Value
  boolean : Bool → Value
  number : ℤ → Value
  strings : List Text → Value
  empty_object null : Value

abbrev pub Fields : Type 0
Fields = List (Text × Value)

abbrev pub FieldCall : Type 0
FieldCall = ApiCall Fields

-- A key whose value may be undefined: it is then left out.
abbrev pub optional : Text → Option Text → Fields
optional key none = []
optional key (some s) = (key, string s) ∷ []

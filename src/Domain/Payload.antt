-- ===== src/Domain/Payload.antt =====
-- Values of serde_json, as far as payloads and declarations use them: the type is the library's.
use nyuka.Common.{ℤ, Bool, Text, text_eq, Option, none, some, if◌then◌else◌}

mutual
  pub data Json : Type 0 where
    null : Json
    bool : Bool → Json
    number : ℤ → Json
    string : Text → Json
    array : Items → Json
    object : Fields → Json

  pub data Items : Type 0 where
    nil : Items
    cons : Json → Items → Items

  pub data Fields : Type 0 where
    end : Fields
    field : Text → Json → Fields → Fields

pub get_field : Text → Fields → Option Json
get_field k end = none
get_field k (field j v fs) = let rest = get_field k fs in if text_eq j k then some v else rest

-- `Value::get` by a key, `Value::as_str`, `Value::as_bool`, `Value::as_array`.
unfoldable pub get : Json → Text → Option Json
unfolding get_field
get (object fs) k = get_field k fs
get _ k = none

unfoldable pub as_str : Json → Option Text
as_str (string s) = some s
as_str _ = none

unfoldable pub as_bool : Json → Option Bool
as_bool (bool b) = some b
as_bool _ = none

unfoldable pub as_array : Json → Option Items
as_array (array xs) = some xs
as_array _ = none

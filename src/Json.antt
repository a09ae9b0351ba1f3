-- ===== src/Json.antt =====
-- The values that JSON.parse gives. An object lists each of its names once; an array is a list without names.
use model_mux.Prelude.{Bool, String, Option, none, some, if◌then◌else◌, str_eq}
use model_mux.Prelude.Int.{ℤ}

mutual
  pub data Json : Type 0 where
    json_null json_fraction : Json
    json_bool : Bool → Json
    json_integer : ℤ → Json
    json_string : String → Json
    json_array : Fields → Json
    json_object : Fields → Json

  pub data Fields : Type 0 where
    no_fields : Fields
    field : String → Json → Fields → Fields

-- A property; `none` stands for undefined.
unfoldable pub get_field : String → Fields → Option Json
get_field name no_fields = none
get_field name (field n value rest) = if str_eq n name then some value else get_field name rest

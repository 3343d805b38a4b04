-- ===== src/Json/Types.antt =====
-- `JsonNode`'s types: what `AsObject` and the others give, where none is a `TypeError`.
use uriscv.Prelude.{Bool, Option, none, some}
use uriscv.Json.{Bytes, ℤ, JsonNode, Members, Items, object, array, string, number, bool, null}

pub data JsonType : Type 0 where
  json_object json_array json_string json_number json_bool json_null : JsonType

unfoldable pub type_of : JsonNode → JsonType
type_of (object ms) = json_object
type_of (array is) = json_array
type_of (string s) = json_string
type_of (number n) = json_number
type_of (bool b) = json_bool
type_of null = json_null

unfoldable pub as_object : JsonNode → Option Members
as_object (object ms) = some ms
as_object _ = none

unfoldable pub as_array : JsonNode → Option Items
as_array (array is) = some is
as_array _ = none

unfoldable pub as_string : JsonNode → Option Bytes
as_string (string s) = some s
as_string _ = none

unfoldable pub as_number : JsonNode → Option ℤ
as_number (number n) = some n
as_number _ = none

unfoldable pub as_bool : JsonNode → Option Bool
as_bool (bool b) = some b
as_bool _ = none

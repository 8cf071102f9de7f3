-- ===== src/Json/Library.antt =====
-- What json_client.cpp uses of nlohmann::json.
use auroralink.Prelude.{ℕ, ◌<◌, ◌^◌, ◌≡◌, Text, Bool, List, [], ◌∷◌, Option, some}
use auroralink.Prelude.Order.{text_less, in_order}

-- The types that the client asks for by `get<T>()`.
pub data CppType : Type 0 where
  int8 : CppType
  uint8 : CppType
  int16 : CppType
  uint16 : CppType
  int32 : CppType
  uint32 : CppType
  int64 : CppType
  uint64 : CppType
  float : CppType
  double : CppType

-- `sizeof`.
abbrev pub size_of : CppType → ℕ
size_of CppType.int8 = 1
size_of CppType.uint8 = 1
size_of CppType.int16 = 2
size_of CppType.uint16 = 2
size_of CppType.int32 = 4
size_of CppType.uint32 = 4
size_of CppType.int64 = 8
size_of CppType.uint64 = 8
size_of CppType.float = 4
size_of CppType.double = 8

-- A value that the client stores into a JSON object: a Boolean, or a number of a C++ type, by its
-- bit pattern.
pub data JsonValue : Type 0 where
  boolean : Bool → JsonValue
  number : CppType → ℕ → JsonValue

-- The value that is dumped: `null` until a member is set, then an object with its members, by name.
pub data JsonMessage : Type 0 where
  null : JsonMessage
  object : List (Text × JsonValue) → JsonMessage

abbrev pub message_of : List (Text × JsonValue) → JsonMessage
message_of [] = null
message_of (member ∷ members) = object (in_order text_less (member ∷ members))

-- A text that does not parse is `none`, and so is a `get` that throws. `get` gives the bit pattern
-- of the value; `dump` throws `type_error.316` on a name that is not UTF-8, and is then `none`.
pub record JsonLibrary : Type 1 where
  pub Json : Type 0
  pub parse : Text → Option Json
  pub is_object : Json → Bool
  pub is_array : Json → Bool
  pub is_string : Json → Bool
  pub is_boolean : Json → Bool
  pub items : Json → List (Text × Json)
  pub get_bool : Json → Option Bool
  pub get : CppType → Json → Option ℕ
  pub dump : JsonMessage → Option Text

-- A value that `get<T>` returns is one of `T`.
abbrev pub GetFits : JsonLibrary → Type 0
GetFits l = (t : CppType) (j : l.Json) (v : ℕ) → l.get t j ≡ some v → v < 256 ^ size_of t

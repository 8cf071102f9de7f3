-- ===== src/Json/Decode.antt =====
-- libEGD-master/src/egd/client/json_client.cpp, the loop of `JsonProxyCallback`: the variables of a
-- page out of a payload.
pub mod RoundTrip
pub mod Values
use Prim.Native.Nat.{bit_and}
use auroralink.Prelude.{ℕ, ◌/◌, ◌^◌, Text, Bool, Option, none, some, List, [], ◌∷◌, ◌==◌, not}
use auroralink.Prelude.Eq.{text_eq}
use auroralink.Prelude.Assoc.{assign}
use auroralink.Bytes.{load}
use auroralink.Config.Types.{EgdDataType, EgdVarInfo, EgdVarMap}
use auroralink.Json.Library.{CppType, size_of, JsonValue, boolean, number}
use auroralink.Json.Encode.{Result, done, ◌>>=◌, or_fault, cpp_type, byte_offset, bit_in_byte}

-- `((*value_ptr) >> bit_offset) & 0x01`, as a `bool`.
unfoldable pub bit_at : ℕ → ℕ → Bool
bit_at b k = not (bit_and (b / 2 ^ k) 1 == 0)

unfoldable pub load_bit : List ℕ → ℕ → ℕ → Result Bool
unfolding load bit_at
load_bit payload off k = do b ← or_fault (load payload off 1); done (bit_at b k)

unfoldable pub decode_number : List ℕ → ℕ → Option CppType → Result (Option JsonValue)
unfolding load
decode_number payload off none = done none
decode_number payload off (some t) = do
  v ← or_fault (load payload off (size_of t))
  done (some (number t v))

-- The `switch`; a type without a case sets no member.
unfoldable pub decode_as : EgdDataType → List ℕ → ℕ → ℕ → Result (Option JsonValue)
unfolding load_bit decode_number cpp_type
decode_as EgdDataType.bool payload off k = do b ← load_bit payload off k; done (some (boolean b))
decode_as type payload off k = decode_number payload off (cpp_type type)

unfoldable pub decode_value : List ℕ → EgdVarInfo → Result (Option JsonValue)
unfolding decode_as
decode_value payload info =
    decode_as info.data_type.type payload (byte_offset info) (bit_in_byte info)

-- `json_message[var_name] = …`
abbrev pub set_member : Text → Option JsonValue → List (Text × JsonValue) → List (Text × JsonValue)
set_member name none members = members
set_member name (some v) members = assign name v members

unfoldable pub decode_vars :
    List ℕ → EgdVarMap → List (Text × JsonValue) → Result (List (Text × JsonValue))
unfolding decode_value assign
decode_vars payload [] members = done members
decode_vars payload ((name, info) ∷ vars) members = do
  v ← decode_value payload info
  decode_vars payload vars (set_member name v members)

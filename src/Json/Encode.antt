-- ===== src/Json/Encode.antt =====
-- libEGD-master/src/egd/client/json_client.cpp, the loop of `Publish`: a JSON object's members into
-- the payload.
pub mod Bits
pub mod Inversion
pub mod Safety
use Prim.Native.Nat.{bit_and, bit_or}
use auroralink.Prelude.{
  ℕ, ◌+◌, ◌-◌, ◌*◌, ◌/◌, ◌%◌, ◌^◌, Text, Bool, true, false, not, ◌||◌, Option, none, some, List, [],
  ◌∷◌, leb, ◌==◌, if◌then◌else◌,
}
use auroralink.Prelude.Int.{ℤ, pos, negsuc}
use auroralink.Prelude.Eq.{text_eq}
use auroralink.Prelude.Assoc.{find}
use auroralink.Status.{EgdStatus, err_out_of_bounds}
use auroralink.Bytes.{le_bytes, store, load}
use auroralink.Spec.{max_egd_payload}
use auroralink.Config.Types.{EgdDataType, EgdVarInfo, EgdVarMap}
use auroralink.Json.Library.{CppType, size_of, JsonLibrary}

-- What a piece of the loop comes to: a value, an early return, an exception that nothing catches,
-- or an access outside the payload, which C++ leaves undefined.
pub data Result {ℓ} (A : Type ℓ) : Type ℓ where
  done : A → Result A
  returned : EgdStatus → Result A
  thrown : Result A
  fault : Result A

infixl 5 ◌>>=◌
abbrev pub ◌>>=◌ {ℓ κ} : {A : Type ℓ} {B : Type κ} → Result A → (A → Result B) → Result B
done a >>= f = f a
returned s >>= f = returned s
thrown >>= f = thrown
fault >>= f = fault

abbrev pub or_throw {ℓ} : {A : Type ℓ} → Option A → Result A
or_throw none = thrown
or_throw (some a) = done a

abbrev pub or_fault {ℓ} : {A : Type ℓ} → Option A → Result A
or_fault none = fault
or_fault (some a) = done a

-- The C++ type in which the `switch` handles a type; Booleans have a case of their own, and the
-- other types none.
unfoldable pub cpp_type : EgdDataType → Option CppType
cpp_type EgdDataType.real = some CppType.float
cpp_type EgdDataType.lreal = some CppType.double
cpp_type EgdDataType.sint = some CppType.int8
cpp_type EgdDataType.int = some CppType.int16
cpp_type EgdDataType.dint = some CppType.int32
cpp_type EgdDataType.lint = some CppType.int64
cpp_type EgdDataType.byte = some CppType.uint8
cpp_type EgdDataType.usint = some CppType.uint8
cpp_type EgdDataType.word = some CppType.uint16
cpp_type EgdDataType.uint = some CppType.uint16
cpp_type EgdDataType.dword = some CppType.uint32
cpp_type EgdDataType.udint = some CppType.uint32
cpp_type EgdDataType.ulint = some CppType.uint64
cpp_type EgdDataType.bool = none
cpp_type EgdDataType.dt = none
cpp_type EgdDataType.time = none
cpp_type EgdDataType.string = none
cpp_type EgdDataType.undefined = none

abbrev pub byte_offset : EgdVarInfo → ℕ
byte_offset info = info.bit_offset / 8

abbrev pub bit_in_byte : EgdVarInfo → ℕ
bit_in_byte info = info.bit_offset % 8

-- `bits / 8`, an `int` rounded towards 0, as the unsigned number that it becomes in the sum.
unfoldable pub bytes_of_bits : ℤ → ℕ
bytes_of_bits (pos n) = n / 8 % 2 ^ 32
bytes_of_bits (negsuc n) = (2 ^ 32 - (n + 1) / 8 % 2 ^ 32) % 2 ^ 32

unfoldable pub is_out_of_bounds : EgdVarInfo → Bool
unfolding bytes_of_bits
is_out_of_bounds info =
    leb max_egd_payload (byte_offset info)
    || leb max_egd_payload ((byte_offset info + bytes_of_bits info.data_type.bits) % 2 ^ 32)

-- `*value_ptr |= (val << bit_offset) & (0x01 << bit_offset)`, into a byte.
unfoldable pub or_bit : ℕ → Bool → ℕ → ℕ
or_bit b true k = bit_or b (bit_and (1 * 2 ^ k) (1 * 2 ^ k)) % 256
or_bit b false k = bit_or b (bit_and (0 * 2 ^ k) (1 * 2 ^ k)) % 256

unfoldable pub store_bit : List ℕ → ℕ → ℕ → Bool → Result (List ℕ)
unfolding load store or_bit
store_bit buf off k val = do
  b ← or_fault (load buf off 1)
  or_fault (store buf off (or_bit b val k ∷ []))

unfoldable pub store_number : List ℕ → ℕ → CppType → ℕ → Result (List ℕ)
unfolding le_bytes store
store_number buf off t v = or_fault (store buf off (le_bytes (size_of t) v))

module _ (l : JsonLibrary) where
  open l use {Json, is_object, is_array, is_string, is_boolean, get_bool, get}

  -- A Boolean, or any number but 0 as `uint8_t`.
  unfoldable pub bool_of : Json → Result Bool
  bool_of j =
      if is_boolean j
      then or_throw (get_bool j)
      else (do v ← or_throw (get CppType.uint8 j); done (not (v == 0)))

  unfoldable pub encode_number : List ℕ → ℕ → Option CppType → Json → Result (List ℕ)
  unfolding store_number
  encode_number buf off none j = done buf
  encode_number buf off (some t) j = do v ← or_throw (get t j); store_number buf off t v

  -- The `switch` on the type of the variable.
  unfoldable pub encode_as : EgdDataType → List ℕ → ℕ → ℕ → Json → Result (List ℕ)
  unfolding bool_of store_bit encode_number cpp_type
  encode_as EgdDataType.bool buf off k j = do v ← bool_of j; store_bit buf off k v
  encode_as type buf off k j = encode_number buf off (cpp_type type) j

  unfoldable pub encode_value : EgdVarInfo → List ℕ → Json → Result (List ℕ)
  unfolding encode_as
  encode_value info buf j =
      encode_as info.data_type.type buf (byte_offset info) (bit_in_byte info) j

  -- A member that is no plain value, or that names no variable of the page, is skipped.
  unfoldable pub is_skipped : Json → Bool
  is_skipped j = is_object j || is_array j || is_string j

  unfoldable pub encode_variable : Option EgdVarInfo → List ℕ → Json → Result (List ℕ)
  unfolding encode_value is_out_of_bounds
  encode_variable none buf j = done buf
  encode_variable (some info) buf j =
      if is_out_of_bounds info then returned err_out_of_bounds else encode_value info buf j

  unfoldable pub encode_entry : EgdVarMap → List ℕ → Text → Json → Result (List ℕ)
  unfolding is_skipped encode_variable find
  encode_entry vars buf name j =
      if is_skipped j then done buf else encode_variable (find name vars) buf j

  unfoldable pub encode_items : EgdVarMap → List (Text × Json) → List ℕ → Result (List ℕ)
  unfolding encode_entry
  encode_items vars [] buf = done buf
  encode_items vars ((name, j) ∷ rest) buf = do
    buf' ← encode_entry vars buf name j
    encode_items vars rest buf'

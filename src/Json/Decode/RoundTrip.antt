-- ===== src/Json/Decode/RoundTrip.antt =====
-- What a variable decodes to after values have been encoded: its own value, untouched by those of
-- variables in other places.
use auroralink.Prelude.{ℕ, ◌<◌, ◌≡◌, ◌≢◌, inl, inr, Bool, false, some, List, All, arith}
use auroralink.Prelude.Eq.{text_eq}
use auroralink.Bytes.{IsByte}
use auroralink.Bytes.Buffer.{Apart, load-store_elsewhere}
use auroralink.Config.Types.{EgdDataType, EgdVarInfo}
use auroralink.Json.Library.{JsonLibrary, GetFits, JsonValue, boolean, number}
use auroralink.Json.Layout.{width, Separate}
use auroralink.Json.Encode.{
  done, cpp_type, byte_offset, bit_in_byte, bool_of, encode_as, encode_value,
}
use auroralink.Json.Decode.Values.{
  decode_own_number, decode_own_bool, encode_as-effect, decode_as-load, elsewhere_or_same,
  other_bit,
}
use auroralink.Json.Decode.{decode_as, decode_value}

-- What a value encodes: the number that `get` gives, or the Boolean.
abbrev pub Encodes : (l : JsonLibrary) → EgdVarInfo → l.Json → JsonValue → Type 0
Encodes l info j (boolean v) = (info.data_type.type ≡ EgdDataType.bool) × (bool_of l j ≡ done v)
Encodes l info j (number t v) = (cpp_type info.data_type.type ≡ some t) × (l.get t j ≡ some v)

-- An encoding into bytes that are apart from a variable's.
decode_elsewhere :
    (l : JsonLibrary) (i n : EgdVarInfo) (buf : List ℕ) (j : l.Json) (buf' : List ℕ)
    → Apart (byte_offset i) (width i.data_type.type) (byte_offset n) (width n.data_type.type)
    → encode_value l n buf j ≡ done buf'
    → decode_value buf' i ≡ decode_value buf i
unfolding encode_value decode_value
decode_elsewhere l i n buf j buf' apart e =
    elim (encode_as-effect l n.data_type.type buf (byte_offset n) (bit_in_byte n) j buf' e) [
      | inl same ↦ rw same
      | inr (bs, len, stored) ↦
          decode_as-load i.data_type.type buf buf' (byte_offset i) (bit_in_byte i) (
            load-store_elsewhere buf (byte_offset n) bs buf' (byte_offset i)
              (width i.data_type.type) (rw len apart) stored)
    ]

-- Two Booleans in one byte, at any place.
other_bit_of_byte :
    (l : JsonLibrary) (ti tn : EgdDataType) (oi on ki kn : ℕ) (buf : List ℕ) (j : l.Json)
    (buf' : List ℕ)
    → All IsByte buf
    → ti ≡ EgdDataType.bool
    → tn ≡ EgdDataType.bool
    → oi ≡ on
    → ki < 8
    → kn < 8
    → ki ≢ kn
    → encode_as l tn buf on kn j ≡ done buf'
    → decode_as ti buf' oi ki ≡ decode_as ti buf oi ki
other_bit_of_byte l ti tn oi on ki kn buf j buf' bytes i_bool n_bool same small small' ne e =
    rw (i_bool, same) (other_bit l buf on kn j buf' ki bytes small' small ne (rw n_bool at e))

-- Encoding a variable leaves what a separate one decodes to.
pub decode_value-Separate :
    (l : JsonLibrary) (i n : EgdVarInfo) (buf : List ℕ) (j : l.Json) (buf' : List ℕ)
    → All IsByte buf
    → Separate i n
    → encode_value l n buf j ≡ done buf'
    → decode_value buf' i ≡ decode_value buf i
decode_value-Separate l i n buf j buf' bytes (inl apart) e =
    decode_elsewhere l i n buf j buf' apart e
decode_value-Separate l i n buf j buf' bytes (inr (i_bool, n_bool, ne)) e =
    elim (elsewhere_or_same (byte_offset i) (byte_offset n)) [
      | inl apart ↦ decode_elsewhere l i n buf j buf' (unfold width in rw (i_bool, n_bool) apart) e
      | inr same ↦
          unfold encode_value decode_value in
          other_bit_of_byte l i.data_type.type n.data_type.type (byte_offset i) (byte_offset n)
            (bit_in_byte i) (bit_in_byte n) buf j buf' bytes i_bool n_bool same (omega arith)
            (omega arith) ne e
    ]

-- What a variable must decode to before it is encoded: a Boolean's bit is clear.
abbrev pub IsClear : List ℕ → EgdVarInfo → Type 0
IsClear buf i =
    i.data_type.type ≡ EgdDataType.bool → decode_value buf i ≡ done (some (boolean false))

own_bool :
    (l : JsonLibrary) (type : EgdDataType) (buf : List ℕ) (off k : ℕ) (j : l.Json) (v : Bool)
    (buf' : List ℕ)
    → All IsByte buf
    → k < 8
    → type ≡ EgdDataType.bool
    → bool_of l j ≡ done v
    → decode_as type buf off k ≡ done (some (boolean false))
    → encode_as l type buf off k j ≡ done buf'
    → decode_as type buf' off k ≡ done (some (boolean v))
own_bool l type buf off k j v buf' bytes small is_bool got clear e =
    rw is_bool
      (decode_own_bool l buf off k j v buf' bytes small got (rw is_bool at clear) (rw is_bool at e))

-- A variable decodes to the value that was encoded into it.
pub decode_value-encode_value :
    (l : JsonLibrary) (i : EgdVarInfo) (buf : List ℕ) (j : l.Json) (value : JsonValue)
    (buf' : List ℕ)
    → GetFits l
    → All IsByte buf
    → IsClear buf i
    → Encodes l i j value
    → encode_value l i buf j ≡ done buf'
    → decode_value buf' i ≡ done (some value)
unfolding encode_value decode_value
decode_value-encode_value l i buf j (boolean v) buf' fits bytes clear (is_bool, got) e =
    own_bool l i.data_type.type buf (byte_offset i) (bit_in_byte i) j v buf' bytes (omega arith)
      is_bool got (clear is_bool) e
decode_value-encode_value l i buf j (number t v) buf' fits bytes clear (is_t, got) e =
    decode_own_number l i.data_type.type t buf (byte_offset i) (bit_in_byte i) j v buf' fits is_t
      got e

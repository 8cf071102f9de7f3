-- ===== src/Json/Layout.antt =====
-- The places of variables in a payload.
use auroralink.Prelude.{ℕ, ◌≡◌, ◌≢◌, ◌⊎◌, Option, none, some}
use auroralink.Bytes.Buffer.{Apart}
use auroralink.Config.Types.{EgdDataType, EgdVarInfo}
use auroralink.Json.Library.{CppType, size_of}
use auroralink.Json.Encode.{cpp_type, byte_offset, bit_in_byte}

-- The number of bytes that a type is stored in.
abbrev pub width_of : Option CppType → ℕ
width_of none = 0
width_of (some t) = size_of t

unfoldable pub width : EgdDataType → ℕ
unfolding cpp_type
width EgdDataType.bool = 1
width type = width_of (cpp_type type)

-- Two variables do not share a bit: their bytes are apart, or they are different bits.
abbrev pub Separate : EgdVarInfo → EgdVarInfo → Type 0
Separate i j =
    Apart (byte_offset i) (width i.data_type.type) (byte_offset j) (width j.data_type.type)
    ⊎ ((i.data_type.type ≡ EgdDataType.bool)
        × (j.data_type.type ≡ EgdDataType.bool)
        × (bit_in_byte i ≢ bit_in_byte j))

-- ===== src/Json/Decode/Values.antt =====
-- What one encoded number or Boolean decodes to, and which bytes an encoding changes.
use auroralink.Prelude.{
  ℕ, zero, suc, ◌<◌, ◌≡◌, refl, ap, sym, ◌∙◌, ◌≢◌, ◌⊎◌, inl, inr, Bool, false, Option, none, some,
  List, [], ◌∷◌, length, All, arith,
}
use auroralink.Prelude.Eq.{text_eq}
use auroralink.Bytes.{IsByte, of_le_bytes, word_at, store, load, le_bytes}
use auroralink.Bytes.Words.{length-le_bytes, of_le_bytes-le_bytes}
use auroralink.Bytes.Buffer.{Apart, load-store}
use auroralink.Config.Types.{EgdDataType}
use auroralink.Json.Library.{CppType, size_of, JsonLibrary, GetFits, boolean, number}
use auroralink.Json.Layout.{width, width_of}
use auroralink.Json.Encode.{
  done, ◌>>=◌, or_fault, cpp_type, or_bit, bool_of, encode_number, encode_as,
}
use auroralink.Json.Encode.Inversion.{encode_number-done, encode_bool-done}
use auroralink.Json.Encode.Bits.{bit_at-or_bit, bit_at-or_bit_ne}
use auroralink.Json.Decode.{bit_at, decode_number, decode_as}

-- A byte of a payload is a byte.
word_at-lt : (buf : List ℕ) (off : ℕ) → All IsByte buf → word_at buf off 1 < 256
unfolding word_at of_le_bytes
word_at-lt [] zero h = omega arith
word_at-lt [] (suc off) h = omega arith
word_at-lt (x ∷ xs) zero (hx, hs) = omega arith
word_at-lt (x ∷ xs) (suc off) (hx, hs) = word_at-lt xs off hs

load_byte-lt : (buf : List ℕ) (off b : ℕ) → All IsByte buf → load buf off 1 ≡ some b → b < 256
unfolding load
load_byte-lt buf off b h e = unfold word_at in ground (arith, word_at-lt buf off h)

-- The types with a C++ type go through the common case.
encode_as-number :
    (l : JsonLibrary) (type : EgdDataType) (t : CppType) (buf : List ℕ) (off k : ℕ) (j : l.Json)
    → cpp_type type ≡ some t
    → encode_as l type buf off k j ≡ encode_number l buf off (some t) j
unfolding encode_as
encode_as-number l EgdDataType.bool t buf off k j e = cc
encode_as-number l type t buf off k j e = ap (λ (o : Option CppType). encode_number l buf off o j) e

decode_as-number :
    (type : EgdDataType) (t : CppType) (payload : List ℕ) (off k : ℕ)
    → cpp_type type ≡ some t
    → decode_as type payload off k ≡ decode_number payload off (some t)
unfolding decode_as
decode_as-number EgdDataType.bool t payload off k e = cc
decode_as-number type t payload off k e = ap (λ (o : Option CppType). decode_number payload off o) e

-- A number is read back.
pub decode_own_number :
    (l : JsonLibrary) (type : EgdDataType) (t : CppType) (buf : List ℕ) (off k : ℕ) (j : l.Json)
    (v : ℕ) (buf' : List ℕ)
    → GetFits l
    → cpp_type type ≡ some t
    → l.get t j ≡ some v
    → encode_as l type buf off k j ≡ done buf'
    → decode_as type buf' off k ≡ done (some (number t v))
unfolding decode_number
decode_own_number l type t buf off k j v buf' fits is_t got e =
    let (w, got', stored) =
      encode_number-done l buf off t j buf'
        (sym (encode_as-number l type t buf off k j is_t) ∙ e) in
    let same : w ≡ v = cc in
    let loaded = load-store buf off (le_bytes (size_of t) w) buf' stored in
    decode_as-number type t buf' off k is_t
    ∙ rw (
        (rw (length-le_bytes (size_of t) w) at loaded)
        ∙ ap some (of_le_bytes-le_bytes (size_of t) w (fits t j w got') ∙ same))

pub decode_bool_at :
    (payload : List ℕ) (off k b : ℕ)
    → load payload off 1 ≡ some b
    → decode_as EgdDataType.bool payload off k ≡ done (some (boolean (bit_at b k)))
unfolding decode_as
decode_bool_at payload off k b e =
    ap (λ (o : Option ℕ). (or_fault o >>= λ b. done (bit_at b k)) >>= λ b. done (some (boolean b)))
      e

load_stored_byte :
    (buf : List ℕ) (off x : ℕ) (buf' : List ℕ)
    → store buf off (x ∷ []) ≡ some buf'
    → load buf' off 1 ≡ some x
load_stored_byte buf off x buf' e =
    load-store buf off (x ∷ []) buf' e ∙ ap some (unfold of_le_bytes in omega arith)

-- A Boolean is read back where its bit was clear.
pub decode_own_bool :
    (l : JsonLibrary) (buf : List ℕ) (off k : ℕ) (j : l.Json) (v : Bool) (buf' : List ℕ)
    → All IsByte buf
    → k < 8
    → bool_of l j ≡ done v
    → decode_as EgdDataType.bool buf off k ≡ done (some (boolean false))
    → encode_as l EgdDataType.bool buf off k j ≡ done buf'
    → decode_as EgdDataType.bool buf' off k ≡ done (some (boolean v))
decode_own_bool l buf off k j v buf' bytes small got clear e =
    let (w, b, got', loaded, stored) = encode_bool-done l buf off k j buf' e in
    let was_clear : bit_at b k ≡ false = cc (decode_bool_at buf off k b loaded) in
    let same : w ≡ v = cc in
    decode_bool_at buf' off k (or_bit b w k) (load_stored_byte buf off (or_bit b w k) buf' stored)
    ∙ ap (λ (c : Bool). done (some (boolean c)))
        (bit_at-or_bit b w k (load_byte-lt buf off b bytes loaded) small ∙ rw was_clear same)

number_effect :
    (l : JsonLibrary) (o : Option CppType) (buf : List ℕ) (off : ℕ) (j : l.Json) (buf' : List ℕ)
    → encode_number l buf off o j ≡ done buf'
    → (buf' ≡ buf) ⊎ ((bs : List ℕ) × (length bs ≡ width_of o) × (store buf off bs ≡ some buf'))
number_effect l none buf off j buf' e = inl (unfold encode_number in cc)
number_effect l (some t) buf off j buf' e =
    let (v, _, stored) = encode_number-done l buf off t j buf' e in
    inr (le_bytes (size_of t) v, length-le_bytes (size_of t) v, stored)

number_load :
    (o : Option CppType) (buf buf' : List ℕ) (off : ℕ)
    → load buf' off (width_of o) ≡ load buf off (width_of o)
    → decode_number buf' off o ≡ decode_number buf off o
unfolding decode_number
number_load none buf buf' off e = refl
number_load (some t) buf buf' off e =
    ap (λ (o : Option ℕ). or_fault o >>= λ v. done (some (number t v))) e

-- What an encoding leaves of the payload: all of it, or the bytes of the variable are new.
pub encode_as-effect :
    (l : JsonLibrary) (type : EgdDataType) (buf : List ℕ) (off k : ℕ) (j : l.Json) (buf' : List ℕ)
    → encode_as l type buf off k j ≡ done buf'
    → (buf' ≡ buf) ⊎ ((bs : List ℕ) × (length bs ≡ width type) × (store buf off bs ≡ some buf'))
unfolding width
encode_as-effect l EgdDataType.bool buf off k j buf' e =
    let (v, b, _, _, stored) = encode_bool-done l buf off k j buf' e in
    inr (or_bit b v k ∷ [], refl, stored)
encode_as-effect l type buf off k j buf' e =
    number_effect l (cpp_type type) buf off j buf' (unfold encode_as in e)

-- A decoding sees the bytes of its variable only.
pub decode_as-load :
    (type : EgdDataType) (buf buf' : List ℕ) (off k : ℕ)
    → load buf' off (width type) ≡ load buf off (width type)
    → decode_as type buf' off k ≡ decode_as type buf off k
unfolding decode_as width
decode_as-load EgdDataType.bool buf buf' off k e =
    ap (λ (o : Option ℕ). (or_fault o >>= λ b. done (bit_at b k)) >>= λ b. done (some (boolean b)))
      e
decode_as-load type buf buf' off k e = number_load (cpp_type type) buf buf' off e

pub elsewhere_or_same : (o p : ℕ) → Apart o 1 p 1 ⊎ (o ≡ p)
elsewhere_or_same o p = ground arith

-- Two bits of one byte.
pub other_bit :
    (l : JsonLibrary) (buf : List ℕ) (off k : ℕ) (j : l.Json) (buf' : List ℕ) (k' : ℕ)
    → All IsByte buf
    → k < 8
    → k' < 8
    → k' ≢ k
    → encode_as l EgdDataType.bool buf off k j ≡ done buf'
    → decode_as EgdDataType.bool buf' off k' ≡ decode_as EgdDataType.bool buf off k'
other_bit l buf off k j buf' k' bytes small small' ne e =
    let (w, b, _, loaded, stored) = encode_bool-done l buf off k j buf' e in
    decode_bool_at buf' off k' (or_bit b w k) (load_stored_byte buf off (or_bit b w k) buf' stored)
    ∙ ap (λ (c : Bool). done (some (boolean c)))
        (bit_at-or_bit_ne b w k k' (load_byte-lt buf off b bytes loaded) small small'
          (λ q. ne (sym q)))
    ∙ sym (decode_bool_at buf off k' b loaded)

-- ===== src/Json/Encode/Safety.antt =====
-- Every store of `Publish` is inside the payload, for variables whose sizes belong to their types.
use auroralink.Prelude.{
  ℕ, zero, suc, ◌+◌, ◌%◌, ◌^◌, ◌≤◌, ◌<◌, ◌≡◌, ap, ◌∙◌, ◌⊎◌, inl, inr, Text, Bool, false, not, ◌==◌,
  le→leb, Option, none, some, List, [], ◌∷◌, length, length-replicate, replicate, All, arith,
  Bool-cases, Option-cases,
}
use auroralink.Prelude.Int.{ℤ, pos}
use auroralink.Prelude.Eq.{text_eq}
use auroralink.Prelude.Assoc.{find}
use auroralink.Bytes.{IsByte, overwrite, write_at, store, le_bytes, word_at}
use auroralink.Bytes.Words.{length-le_bytes, le_bytes-IsByte}
use auroralink.Bytes.Buffer.{length-write_at, store-IsSome}
use auroralink.Spec.{max_egd_payload}
use auroralink.Config.Types.{EgdDataType, EgdTypeInfo, EgdVarInfo, EgdVarMap}
use auroralink.Config.Parse.Typing.{bits_of, IsTyped, VarsTyped, find-All}
use auroralink.Json.Library.{CppType, size_of, JsonLibrary}
use auroralink.Json.Layout.{width, width_of}
use auroralink.Json.Encode.{
  Result, done, returned, thrown, fault, ◌>>=◌, or_throw, or_fault, cpp_type, byte_offset,
  bit_in_byte, bytes_of_bits, is_out_of_bounds, or_bit, store_bit, store_number, bool_of,
  encode_number, encode_as, is_skipped, encode_variable, encode_entry, encode_items,
}
use auroralink.Json.Encode.Bits.{or_bit-lt}

in_bounds_type :
    (type : EgdDataType) (bits : ℤ) (off : ℕ)
    → (bits ≡ bits_of type) ⊎ ((type ≡ EgdDataType.bool) × (bits ≡ pos 0))
    → off < max_egd_payload
    → (off + bytes_of_bits bits) % 2 ^ 32 < max_egd_payload
    → off + width type ≤ max_egd_payload
unfolding bits_of width bytes_of_bits
in_bounds_type EgdDataType.bool bits off typed low high = ground arith
in_bounds_type type bits off typed low high = ground arith

-- The test leaves room for the bytes that the variable is stored in.
pub in_bounds :
    (info : EgdVarInfo)
    → IsTyped info.data_type
    → is_out_of_bounds info ≡ false
    → byte_offset info + width info.data_type.type ≤ max_egd_payload
unfolding is_out_of_bounds
in_bounds info typed inside =
    in_bounds_type info.data_type.type info.data_type.bits (byte_offset info) (kind typed)
      (ground arith) (unfold bytes_of_bits in ground arith)
  where
    kind :
        IsTyped info.data_type
        → (info.data_type.bits ≡ bits_of info.data_type.type)
          ⊎ ((info.data_type.type ≡ EgdDataType.bool) × (info.data_type.bits ≡ pos 0))
    kind (inl e) = inl e
    kind (inr e) = inr (ap (λ (t : EgdTypeInfo). t.type) e, ap (λ (t : EgdTypeInfo). t.bits) e)

-- A payload: 1400 bytes.
abbrev pub IsPayload : List ℕ → Type 0
IsPayload buf = (length buf ≡ max_egd_payload) × All IsByte buf

-- No access was outside the payload, and a value is a payload.
abbrev pub IsSafe : Result (List ℕ) → Type 0
IsSafe (done buf) = IsPayload buf
IsSafe (returned s) = Unit
IsSafe thrown = Unit
IsSafe fault = ⊥

overwrite-IsByte :
    (buf bs : List ℕ) → All IsByte buf → All IsByte bs → All IsByte (overwrite buf bs)
unfolding overwrite
overwrite-IsByte [] bs h k = tt
overwrite-IsByte (x ∷ xs) [] h k = h
overwrite-IsByte (x ∷ xs) (b ∷ bs) (hx, hs) (kb, ks) = (kb, overwrite-IsByte xs bs hs ks)

write_at-IsByte :
    (buf : List ℕ) (off : ℕ) (bs : List ℕ)
    → All IsByte buf
    → All IsByte bs
    → All IsByte (write_at buf off bs)
unfolding write_at
write_at-IsByte [] zero bs h k = overwrite-IsByte [] bs h k
write_at-IsByte (x ∷ xs) zero bs h k = overwrite-IsByte (x ∷ xs) bs h k
write_at-IsByte [] (suc off) bs h k = tt
write_at-IsByte (x ∷ xs) (suc off) bs (hx, hs) k = (hx, write_at-IsByte xs off bs hs k)

store-IsSafe :
    (buf : List ℕ) (off : ℕ) (bs : List ℕ)
    → IsPayload buf
    → All IsByte bs
    → off + length bs ≤ max_egd_payload
    → IsSafe (or_fault (store buf off bs))
store-IsSafe buf off bs (len, bytes) new fits =
    rw (store-IsSome buf off bs (omega (arith, len)))
      (length-write_at buf off bs ∙ len, write_at-IsByte buf off bs bytes new)

store_bit-IsSafe :
    (buf : List ℕ) (off k : ℕ) (v : Bool)
    → IsPayload buf
    → off + 1 ≤ max_egd_payload
    → IsSafe (store_bit buf off k v)
unfolding store_bit
store_bit-IsSafe buf off k v payload fits =
    rw (le→leb (off + 1) (length buf) (omega (arith, payload.0))) (
      length-write_at buf off (or_bit (word_at buf off 1) v k ∷ []) ∙ payload.0,
      write_at-IsByte buf off (or_bit (word_at buf off 1) v k ∷ []) payload.1
          (or_bit-lt (word_at buf off 1) v k, tt),
    )

or_throw-IsSafe {ℓ} :
    {A : Type ℓ} (o : Option A) (f : A → Result (List ℕ))
    → ((a : A) → IsSafe (f a))
    → IsSafe (or_throw o >>= f)
or_throw-IsSafe none f h = tt
or_throw-IsSafe (some a) f h = h a

bool_of-IsSafe :
    (l : JsonLibrary) (j : l.Json) (f : Bool → Result (List ℕ))
    → ((v : Bool) → IsSafe (f v))
    → IsSafe (bool_of l j >>= f)
unfolding bool_of
bool_of-IsSafe l j f h = elim (Bool-cases (l.is_boolean j)) [
  | inl yes_bool ↦ rw yes_bool (or_throw-IsSafe (l.get_bool j) f h)
  | inr no_bool ↦ elim (Option-cases (l.get CppType.uint8 j)) [
    | inl throws ↦ rw no_bool (rw throws tt)
    | inr (v, e) ↦ rw no_bool (rw e (h (not (v == 0))))
  ]
]

encode_number-IsSafe :
    (l : JsonLibrary) (buf : List ℕ) (off : ℕ) (t : Option CppType) (j : l.Json)
    → IsPayload buf
    → off + width_of t ≤ max_egd_payload
    → IsSafe (encode_number l buf off t j)
unfolding encode_number
encode_number-IsSafe l buf off none j payload fits = payload
encode_number-IsSafe l buf off (some t) j payload fits =
    or_throw-IsSafe (l.get t j) (λ v. store_number buf off t v)
      λ v.
        store-IsSafe buf off (le_bytes (size_of t) v) payload (le_bytes-IsByte (size_of t) v)
          (omega (arith, length-le_bytes (size_of t) v))

encode_as-IsSafe :
    (l : JsonLibrary) (type : EgdDataType) (buf : List ℕ) (off k : ℕ) (j : l.Json)
    → IsPayload buf
    → off + width type ≤ max_egd_payload
    → IsSafe (encode_as l type buf off k j)
unfolding encode_as width
encode_as-IsSafe l EgdDataType.bool buf off k j payload fits =
    bool_of-IsSafe l j (λ v. store_bit buf off k v) λ v. store_bit-IsSafe buf off k v payload fits
encode_as-IsSafe l type buf off k j payload fits =
    encode_number-IsSafe l buf off (cpp_type type) j payload fits

encode_variable-IsSafe :
    (l : JsonLibrary) (info : EgdVarInfo) (buf : List ℕ) (j : l.Json)
    → IsTyped info.data_type
    → IsPayload buf
    → IsSafe (encode_variable l (some info) buf j)
unfolding encode_variable
encode_variable-IsSafe l info buf j typed payload = elim (Bool-cases (is_out_of_bounds info)) [
  | inl outside ↦ rw outside tt
  | inr inside ↦ rw inside (
      encode_as-IsSafe l info.data_type.type buf (byte_offset info) (bit_in_byte info) j payload
        (in_bounds info typed inside))
]

pub encode_entry-IsSafe :
    (l : JsonLibrary) (vars : EgdVarMap) (buf : List ℕ) (name : Text) (j : l.Json)
    → VarsTyped vars
    → IsPayload buf
    → IsSafe (encode_entry l vars buf name j)
unfolding encode_entry
encode_entry-IsSafe l vars buf name j typed payload = elim (Bool-cases (is_skipped l j)) [
  | inl skipped ↦ rw skipped payload
  | inr plain ↦ rw plain (elim (Option-cases (find name vars)) [
    | inl missing ↦ rw missing payload
    | inr (info, e) ↦ rw e (
        encode_variable-IsSafe l info buf j
          (find-All (λ v. IsTyped v.data_type) name vars info typed e) payload)
  ])
]

-- One piece of the loop after another.
pub >>=-IsSafe :
    (r : Result (List ℕ)) (f : List ℕ → Result (List ℕ))
    → IsSafe r
    → ((buf : List ℕ) → IsPayload buf → IsSafe (f buf))
    → IsSafe (r >>= f)
>>=-IsSafe (done buf) f h k = k buf h
>>=-IsSafe (returned s) f h k = tt
>>=-IsSafe thrown f h k = tt
>>=-IsSafe fault f h k = elim h [ ]

-- For variables whose sizes belong to their types, the loop makes no access outside the payload,
-- and where it ends normally the payload has its 1400 bytes.
pub encode_items-IsSafe :
    (l : JsonLibrary) (vars : EgdVarMap) (items : List (Text × l.Json)) (buf : List ℕ)
    → VarsTyped vars
    → IsPayload buf
    → IsSafe (encode_items l vars items buf)
unfolding encode_items
encode_items-IsSafe l vars [] buf typed payload = payload
encode_items-IsSafe l vars ((name, j) ∷ rest) buf typed payload =
    >>=-IsSafe (encode_entry l vars buf name j) (encode_items l vars rest)
      (encode_entry-IsSafe l vars buf name j typed payload)
      λ buf' payload'. encode_items-IsSafe l vars rest buf' typed payload'

-- The zeros that `Publish` starts with.
pub zeros-IsPayload : IsPayload (replicate max_egd_payload 0)
zeros-IsPayload = (length-replicate {A = ℕ} max_egd_payload 0, zeros max_egd_payload)
  where
    zeros : (n : ℕ) → All IsByte (replicate n 0)
    zeros zero = tt
    zeros (suc n) = (omega arith, zeros n)

-- ===== src/Json/Encode/Inversion.antt =====
-- What an encoding that ended normally has done.
use auroralink.Prelude.{ℕ, ◌≡◌, refl, Bool, Option, none, some, List, [], ◌∷◌}
use auroralink.Bytes.{store, load, le_bytes}
use auroralink.Config.Types.{EgdDataType}
use auroralink.Json.Library.{CppType, size_of, JsonLibrary}
use auroralink.Json.Encode.{
  Result, done, returned, thrown, fault, ◌>>=◌, or_throw, or_fault, or_bit, store_bit, store_number,
  bool_of, encode_number, encode_as,
}

pub >>=-eq-done {ℓ κ} :
    {A : Type ℓ} {B : Type κ} (m : Result A) (f : A → Result B) (b : B)
    → (m >>= f) ≡ done b
    → (a : A) × (m ≡ done a) × (f a ≡ done b)
>>=-eq-done (done a) f b h = (a, refl, h)
>>=-eq-done (returned s) f b h = cc
>>=-eq-done thrown f b h = cc
>>=-eq-done fault f b h = cc

pub or_throw-eq-done {ℓ} : {A : Type ℓ} (o : Option A) (a : A) → or_throw o ≡ done a → o ≡ some a
or_throw-eq-done none a h = cc
or_throw-eq-done (some b) a h = cc

pub or_fault-eq-done {ℓ} : {A : Type ℓ} (o : Option A) (a : A) → or_fault o ≡ done a → o ≡ some a
or_fault-eq-done none a h = cc
or_fault-eq-done (some b) a h = cc

pub encode_number-done :
    (l : JsonLibrary) (buf : List ℕ) (off : ℕ) (t : CppType) (j : l.Json) (buf' : List ℕ)
    → encode_number l buf off (some t) j ≡ done buf'
    → (v : ℕ) × (l.get t j ≡ some v) × (store buf off (le_bytes (size_of t) v) ≡ some buf')
unfolding encode_number
encode_number-done l buf off t j buf' e =
    let (v, got, stored) =
      >>=-eq-done (or_throw (l.get t j)) (λ v. store_number buf off t v) buf' e in
    (
      v,
      or_throw-eq-done (l.get t j) v got,
      or_fault-eq-done (store buf off (le_bytes (size_of t) v)) buf' stored,
    )

pub encode_bool-done :
    (l : JsonLibrary) (buf : List ℕ) (off k : ℕ) (j : l.Json) (buf' : List ℕ)
    → encode_as l EgdDataType.bool buf off k j ≡ done buf'
    → (v : Bool) × (b : ℕ) × (bool_of l j ≡ done v)
      × (load buf off 1 ≡ some b)
      × (store buf off (or_bit b v k ∷ []) ≡ some buf')
unfolding encode_as
encode_bool-done l buf off k j buf' e =
    let (v, got, rest) = >>=-eq-done (bool_of l j) (λ v. store_bit buf off k v) buf' e in
    let (b, loaded, stored) =
      >>=-eq-done (or_fault (load buf off 1)) (λ b. or_fault (store buf off (or_bit b v k ∷ [])))
        buf' rest in
    (
      v,
      b,
      got,
      or_fault-eq-done (load buf off 1) b loaded,
      or_fault-eq-done (store buf off (or_bit b v k ∷ [])) buf' stored,
    )

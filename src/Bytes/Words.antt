-- ===== src/Bytes/Words.antt =====
-- Words as byte strings, and back.
use auroralink.Prelude.{
  ℕ, zero, suc, ◌/◌, ◌^◌, ◌<◌, ◌≡◌, refl, ap, List, [], ◌∷◌, length, All, arith,
}
use auroralink.Bytes.{le_bytes, of_le_bytes, IsByte}
use native.Mathlib.Nat.{pow-suc, div-add-mod}

pub length-le_bytes : (n v : ℕ) → length (le_bytes n v) ≡ n
unfolding le_bytes
length-le_bytes zero v = refl
length-le_bytes (suc n) v = ap suc (length-le_bytes n (v / 256))

pub le_bytes-IsByte : (n v : ℕ) → All IsByte (le_bytes n v)
unfolding le_bytes
le_bytes-IsByte zero v = tt
le_bytes-IsByte (suc n) v = (omega arith, le_bytes-IsByte n (v / 256))

-- A word that fits its bytes is read back from them.
pub of_le_bytes-le_bytes : (n v : ℕ) → v < 256 ^ n → of_le_bytes (le_bytes n v) ≡ v
unfolding le_bytes of_le_bytes
of_le_bytes-le_bytes zero v h = omega arith
of_le_bytes-le_bytes (suc n) v h =
    omega
      (arith, of_le_bytes-le_bytes n (v / 256) (omega (arith, pow-suc 256 n)), div-add-mod v 256)

-- What bytes spell fits in their number.
pub of_le_bytes-lt : (bs : List ℕ) → All IsByte bs → of_le_bytes bs < 256 ^ length bs
unfolding of_le_bytes
of_le_bytes-lt [] h = omega arith
of_le_bytes-lt (b ∷ bs) (hb, hs) = omega (arith, of_le_bytes-lt bs hs, pow-suc 256 (length bs))

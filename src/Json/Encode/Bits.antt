-- ===== src/Json/Encode/Bits.antt =====
-- One bit of a byte: what is set is read back, and the other bits stay.
use auroralink.Prelude.{ℕ, ◌<◌, ◌≡◌, refl, ◌≢◌, Bool, true, false, ◌||◌, ◌==◌, arith}
use auroralink.Prelude.Table.{each_below, each_below-lt, same, same→eq}
use auroralink.Json.Encode.{or_bit}
use auroralink.Json.Decode.{bit_at}

pub or_bit-lt : (b : ℕ) (v : Bool) (k : ℕ) → or_bit b v k < 256
unfolding or_bit
or_bit-lt b true k = omega arith
or_bit-lt b false k = omega arith

abbrev self_test : Bool → ℕ → ℕ → Bool
self_test v b k = same (bit_at (or_bit b v k) k) (bit_at b k || v)

abbrev other_test : Bool → ℕ → ℕ → ℕ → Bool
other_test v b k j = k == j || same (bit_at (or_bit b v k) j) (bit_at b j)

self_table : (v : Bool) → each_below 256 (λ b. each_below 8 (self_test v b)) ≡ true
unfolding each_below or_bit bit_at
self_table true = refl
self_table false = refl

other_table :
    (v : Bool) → each_below 256 (λ b. each_below 8 (λ k. each_below 8 (other_test v b k))) ≡ true
unfolding each_below or_bit bit_at
other_table true = refl
other_table false = refl

pub bit_at-or_bit :
    (b : ℕ) (v : Bool) (k : ℕ) → b < 256 → k < 8 → bit_at (or_bit b v k) k ≡ (bit_at b k || v)
bit_at-or_bit b v k hb hk = same→eq _ _ (
    each_below-lt 8 (self_test v b) k
      (each_below-lt 256 (λ b. each_below 8 (self_test v b)) b (self_table v) hb) hk)

pub bit_at-or_bit_ne :
    (b : ℕ) (v : Bool) (k j : ℕ)
    → b < 256
    → k < 8
    → j < 8
    → k ≢ j
    → bit_at (or_bit b v k) j ≡ bit_at b j
bit_at-or_bit_ne b v k j hb hk hj ne = same→eq _ _ (
    other (
      each_below-lt 8 (other_test v b k) j
        (each_below-lt 8 (λ k. each_below 8 (other_test v b k)) k
          (each_below-lt 256 (λ b. each_below 8 (λ k. each_below 8 (other_test v b k))) b
            (other_table v) hb)
          hk)
        hj))
  where
    other : {t : Bool} → ((k == j) || t) ≡ true → t ≡ true
    other h = ground arith

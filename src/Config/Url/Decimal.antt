-- ===== src/Config/Url/Decimal.antt =====
-- Decimal numbers: their length and their value.
use auroralink.Prelude.{
  ℕ, zero, suc, ◌+◌, ◌*◌, ◌/◌, ◌%◌, ◌≤◌, ◌<◌, ◌^◌, ◌≡◌, refl, Text, [], ◌∷◌, ◌++◌, length,
  length-append, arith, ◌-◌,
}
use native.Mathlib.Nat.{pow-suc}
use auroralink.Config.Url.{decimal_digits, decimal}

-- A number below 10 ^ k, with k positive, has at most k digits.
length-decimal_digits : (fuel k n : ℕ) → n < 10 ^ suc k → length (decimal_digits fuel n) ≤ suc k
unfolding decimal_digits
length-decimal_digits zero k n h = omega arith
length-decimal_digits (suc fuel) zero n h = ground arith
length-decimal_digits (suc fuel) (suc k) n h = ground (
  arith,
  length-append (decimal_digits fuel (n / 10)) ((48 + n % 10) ∷ []),
  length-decimal_digits fuel k (n / 10) (omega (arith, pow-suc 10 (suc k))),
)

-- A 32-bit number prints in at most ten digits.
pub length-decimal : (n : ℕ) → n < 2 ^ 32 → length (decimal n) ≤ 10
unfolding decimal
length-decimal n h = length-decimal_digits n 9 n (omega arith)

-- The number that a text of digits spells.
abbrev pub spells : ℕ → Text → ℕ
spells acc [] = acc
spells acc (c ∷ s) = spells (acc * 10 + (c - 48)) s

spells-append : (acc : ℕ) (s t : Text) → spells acc (s ++ t) ≡ spells (spells acc s) t
spells-append acc [] t = refl
spells-append acc (c ∷ s) t = spells-append (acc * 10 + (c - 48)) s t

spells-decimal_digits : (fuel n : ℕ) → n < 10 ^ suc fuel → spells 0 (decimal_digits fuel n) ≡ n
unfolding decimal_digits
spells-decimal_digits zero n h = omega arith
spells-decimal_digits (suc fuel) n h = ground (
  arith,
  spells-append 0 (decimal_digits fuel (n / 10)) ((48 + n % 10) ∷ []),
  spells-decimal_digits fuel (n / 10) (omega (arith, pow-suc 10 (suc fuel))),
)

pub lt-pow_ten : (n : ℕ) → n < 10 ^ suc n
lt-pow_ten zero = omega arith
lt-pow_ten (suc n) = omega (arith, lt-pow_ten n, pow-suc 10 (suc n))

-- The printed text spells the number.
pub spells-decimal : (n : ℕ) → spells 0 (decimal n) ≡ n
unfolding decimal
spells-decimal n = spells-decimal_digits n n (lt-pow_ten n)

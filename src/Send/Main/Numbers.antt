-- ===== src/Send/Main/Numbers.antt =====
-- The numbers that `ParsePositiveInt` takes.
use auroralink.Prelude.{
  ℕ, zero, suc, ◌+◌, ◌-◌, ◌*◌, ◌/◌, ◌%◌, ◌^◌, ◌≤◌, ◌<◌, ◌≡◌, ◌≢◌, refl, ap, sym, ◌∙◌, Text, true,
  false, Option, none, some, [], ◌∷◌, All, length, ltb, ◌==◌, arith, Bool-cases, inl, inr,
  All-append, List-cases, subst, length-append,
}
use native.Mathlib.Nat.{pow-suc}
use auroralink.Prelude.Int.{ℤ, pos, negsuc}
use auroralink.Config.Url.{decimal_digits, decimal}
use auroralink.Config.Url.Decimal.{spells, spells-decimal, lt-pow_ten}
use auroralink.Send.Main.{
  is_digit, is_space, skip_spaces, read_sign, read_digits, strtol, checked_int, parse_positive_int,
}

-- Texts of digits.
abbrev pub IsDigits : Text → Type 0
IsDigits s = All (λ c. is_digit c ≡ true) s

read_digits-IsDigits : (acc : ℕ) (s : Text) → IsDigits s → read_digits acc s ≡ (spells acc s, [])
unfolding read_digits
read_digits-IsDigits acc [] h = refl
read_digits-IsDigits acc (c ∷ s) (hc, hs) = rw hc (read_digits-IsDigits (acc * 10 + (c - 48)) s hs)

-- A digit is no space and no sign.
head_digit :
    (c : ℕ) (s : Text) → is_digit c ≡ true → read_sign (skip_spaces (c ∷ s)) ≡ (false, c ∷ s)
head_digit c s h = rw (not_space c h, not_minus c h, not_plus c h) refl
  where
    not_space : (c : ℕ) → is_digit c ≡ true → is_space c ≡ false
    not_space c h = ground arith

    not_minus : (c : ℕ) → is_digit c ≡ true → (c == 45) ≡ false
    not_minus c h = ground arith

    not_plus : (c : ℕ) → is_digit c ≡ true → (c == 43) ≡ false
    not_plus c h = ground arith

one_digit : (n : ℕ) → n < 10 → IsDigits ((48 + n) ∷ [])
one_digit n h = (ground arith, tt)

decimal_digits-IsDigits : (fuel n : ℕ) → n < 10 ^ suc fuel → IsDigits (decimal_digits fuel n)
unfolding decimal_digits
decimal_digits-IsDigits zero n h = one_digit (n % 10) (omega arith)
decimal_digits-IsDigits (suc fuel) n h = elim (Bool-cases (ltb n 10)) [
  | inl small ↦ rw small (one_digit n (ground arith))
  | inr large ↦ rw large (
      All-append (λ c. is_digit c ≡ true) (decimal_digits fuel (n / 10)) ((48 + n % 10) ∷ [])
        (decimal_digits-IsDigits fuel (n / 10) (omega (arith, pow-suc 10 (suc fuel))))
        (one_digit (n % 10) (omega arith)))
]

decimal_digits-nonempty : (fuel n : ℕ) → length (decimal_digits fuel n) ≢ 0
unfolding decimal_digits
decimal_digits-nonempty zero n = ground arith
decimal_digits-nonempty (suc fuel) n =
    ground (arith, length-append (decimal_digits fuel (n / 10)) ((48 + n % 10) ∷ []))

-- The text of a number is scanned whole: it has no sign, at least one digit, and nothing behind.
pub scan-decimal :
    (n : ℕ)
    → (read_sign (skip_spaces (decimal n)) ≡ (false, decimal n))
      × (read_digits 0 (decimal n) ≡ (n, []))
      × (length (decimal n) ≢ 0)
unfolding decimal_digits decimal
scan-decimal n = elim (List-cases (decimal n)) [
  | inl empty ↦ absurd (decimal_digits-nonempty n n (ap length empty))
  | inr (c, s, e) ↦
      let digits : IsDigits (c ∷ s) =
        subst IsDigits e (decimal_digits-IsDigits n n (lt-pow_ten n)) in
      (
        ap (λ t. read_sign (skip_spaces t)) e
            ∙ head_digit c s digits.0
            ∙ ap (λ t. (false, t)) (sym e),
        read_digits-IsDigits 0 (decimal n) (decimal_digits-IsDigits n n (lt-pow_ten n))
            ∙ ap (λ m. (m, [])) (spells-decimal n),
        decimal_digits-nonempty n n,
      )
]

pub strtol-decimal : (n : ℕ) → n < 2 ^ 63 → strtol (decimal n) ≡ some (pos n, [])
unfolding strtol
strtol-decimal n small =
    let (sign, digits, nonempty) = scan-decimal n in
    rw sign (
      rw digits (elim (Bool-cases (0 == length (decimal n))) [
        | inl empty ↦ absurd (nonempty (ground arith))
        | inr some_digits ↦ rw some_digits (ap (λ m. some (pos m, [])) (omega arith))
      ]))

-- An `int` that is not negative is read back from the text that it prints as.
pub parse_positive_int-decimal : (n : ℕ) → n ≤ 2147483647 → parse_positive_int (decimal n) ≡ some n
unfolding parse_positive_int
parse_positive_int-decimal n small = rw (strtol-decimal n (omega arith)) (ground arith)

-- A number that is taken is an `int` that is not negative.
pub parse_positive_int-le : (s : Text) (n : ℕ) → parse_positive_int s ≡ some n → n ≤ 2147483647
unfolding parse_positive_int
parse_positive_int-le s n e = checked (strtol s) e
  where
    checked : (o : Option (ℤ × Text)) → checked_int o ≡ some n → n ≤ 2147483647
    checked none h = cc
    checked (some (pos m, [])) h = ground arith
    checked (some (pos m, c ∷ rest)) h = cc
    checked (some (negsuc m, rest)) h = cc

-- ===== src/Prelude/Table.antt =====
-- Facts about small numbers, checked value by value.
use Prim.Native.Nat.{ℕ, zero, suc, ◌<◌}
use mathlib.Core.Path.{◌≡◌}
use mathlib.Core.Bool.{Bool, true, false}
use native.Mathlib.Omega.{arith}
use auroralink.Prelude.Tests.{if◌then◌else◌}

-- Whether a test passes on each number below a bound.
unfoldable pub each_below : ℕ → (ℕ → Bool) → Bool
each_below zero test = true
each_below (suc top) test = if test top then each_below top test else false

pub each_below-lt :
    (bound : ℕ) (test : ℕ → Bool) (i : ℕ) → each_below bound test ≡ true → i < bound → test i ≡ true
unfolding each_below
each_below-lt zero test i passes below = absurd (omega arith)
each_below-lt (suc top) test i passes below = ground (arith, each_below-lt top test i)

-- Equality of Booleans.
abbrev pub same : Bool → Bool → Bool
same true b = b
same false true = false
same false false = true

pub same→eq : (a b : Bool) → same a b ≡ true → a ≡ b
same→eq a b h = ground arith

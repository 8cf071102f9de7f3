-- ===== src/Prelude/Order/Ascending.antt =====
-- The entries of a `std::map` are met by ascending keys.
use native.Mathlib.Omega.{arith}
use mathlib.Core.Path.{◌≡◌, refl}
use mathlib.Core.Logic.{inl, inr}
use mathlib.Core.Bool.{Bool, true, false}
use mathlib.Core.List.{List, [], ◌∷◌}
use auroralink.Prelude.Tests.{Bool-cases, ltb}
use auroralink.Prelude.Assoc.{Map}
use auroralink.Prelude.Order.{text_less, pair_less, place, in_order, keys}

-- No two keys are less than each other.
abbrev pub IsOneWay {ℓ} : {K : Type ℓ} → (K → K → Bool) → Type ℓ
IsOneWay {K} less = (a b : K) → less a b ≡ true → less b a ≡ false

pub ltb-IsOneWay : IsOneWay ltb
ltb-IsOneWay a b h = ground arith

pub text_less-IsOneWay : IsOneWay text_less
text_less-IsOneWay [] (b ∷ t) h = refl
text_less-IsOneWay [] [] h = cc
text_less-IsOneWay (a ∷ s) [] h = cc
text_less-IsOneWay (a ∷ s) (b ∷ t) h = ground (arith, text_less-IsOneWay s t)

pub pair_less-IsOneWay {ℓ κ} :
    {A : Type ℓ} {B : Type κ} (less : A → A → Bool) (less' : B → B → Bool)
    → IsOneWay less
    → IsOneWay less'
    → IsOneWay (pair_less less less')
pair_less-IsOneWay less less' one one' (a, b) (c, d) h = ground (arith, one a c, one c a, one' b d)

-- No key is less than the one before it.
abbrev pub IsAscending {ℓ} : {K : Type ℓ} → (K → K → Bool) → List K → Type 0
IsAscending less [] = Unit
IsAscending less (k ∷ []) = Unit
IsAscending less (k ∷ j ∷ ks) = (less j k ≡ false) × IsAscending less (j ∷ ks)

module _ {ℓ κ} {K : Type ℓ} {V : Type κ} (less : K → K → Bool) (one : IsOneWay less) where
  place-behind :
      (i : K) (u : V) (k : K) (v : V) (m : Map K V)
      → less k i ≡ false
      → IsAscending less (i ∷ keys less m)
      → IsAscending less (i ∷ keys less (place less k v m))
  unfolding place
  place-behind i u k v [] h asc = (h, tt)
  place-behind i u k v ((j, w) ∷ m) h (first, asc) = elim (Bool-cases (less k j)) [
    | inl before ↦ rw before (h, (one k j before, asc))
    | inr after ↦ rw after (first, place-behind j w k v m after asc)
  ]

  place_ascends :
      (k : K) (v : V) (m : Map K V)
      → IsAscending less (keys less m)
      → IsAscending less (keys less (place less k v m))
  unfolding place
  place_ascends k v [] asc = tt
  place_ascends k v ((j, w) ∷ m) asc = elim (Bool-cases (less k j)) [
    | inl before ↦ rw before (one k j before, asc)
    | inr after ↦ rw after (place-behind j w k v m after asc)
  ]

  pub in_order-IsAscending : (m : Map K V) → IsAscending less (keys less (in_order less m))
  unfolding in_order
  in_order-IsAscending [] = tt
  in_order-IsAscending ((k, v) ∷ m) = place_ascends k v (in_order less m) (in_order-IsAscending m)

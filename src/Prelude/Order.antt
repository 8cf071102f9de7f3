-- ===== src/Prelude/Order.antt =====
-- The order in which a `for` over a `std::map` meets the entries: by key, ascending, whatever the
-- order in which they were added.
pub mod Ascending
use Prim.Native.Nat.{ℕ}
use mathlib.Core.Logic.{inl, inr}
use mathlib.Core.Bool.{Bool, true, false, not, ◌&&◌, ◌||◌}
use mathlib.Core.List.{List, [], ◌∷◌, map, Perm}
use mathlib.Core.List.Perm
use auroralink.Prelude.Tests.{if◌then◌else◌, Bool-cases, ltb}
use auroralink.Prelude.Lists.{All}
use auroralink.Prelude.Assoc.{Map}

-- `std::string` compares byte by byte, and `std::tuple` and `std::pair` member by member.
abbrev pub text_less : List ℕ → List ℕ → Bool
text_less [] [] = false
text_less [] (b ∷ t) = true
text_less (a ∷ s) [] = false
text_less (a ∷ s) (b ∷ t) = ltb a b || (not (ltb b a) && text_less s t)

abbrev pub pair_less {ℓ κ} :
    {A : Type ℓ} {B : Type κ} → (A → A → Bool) → (B → B → Bool) → A × B → A × B → Bool
pair_less less less' (a, b) (c, d) = less a c || (not (less c a) && less' b d)

module _ {ℓ κ} {K : Type ℓ} {V : Type κ} (less : K → K → Bool) where
  unfoldable pub place : K → V → Map K V → Map K V
  place k v [] = (k, v) ∷ []
  place k v ((j, w) ∷ m) =
      let rest = place k v m in if less k j then (k, v) ∷ (j, w) ∷ m else (j, w) ∷ rest

  unfoldable pub in_order : Map K V → Map K V
  unfolding place
  in_order [] = []
  in_order ((k, v) ∷ m) = place k v (in_order m)

  abbrev pub keys : Map K V → List K
  keys = map (λ (entry : K × V). entry.0)

  module _ (P : K → Type ℓ) where
    place-All : (k : K) (v : V) (m : Map K V) → P k → All P (keys m) → All P (keys (place k v m))
    unfolding place
    place-All k v [] p ps = (p, ps)
    place-All k v ((j, w) ∷ m) p (q, ps) = elim (Bool-cases (less k j)) [
      | inl first ↦ rw first (p, (q, ps))
      | inr later ↦ rw later (q, place-All k v m p ps)
    ]

    pub in_order-All : (m : Map K V) → All P (keys m) → All P (keys (in_order m))
    unfolding in_order
    in_order-All [] ps = ps
    in_order-All ((k, v) ∷ m) (p, ps) = place-All k v (in_order m) p (in_order-All m ps)

  place-perm : (k : K) (v : V) (m : Map K V) → Perm (place k v m) ((k, v) ∷ m)
  unfolding place
  place-perm k v [] = Perm.refl ((k, v) ∷ [])
  place-perm k v ((j, w) ∷ m) = elim (Bool-cases (less k j)) [
    | inl first ↦ rw first (Perm.refl ((k, v) ∷ (j, w) ∷ m))
    | inr later ↦
        rw later (Perm.trans (Perm.cons (j, w) (place-perm k v m)) (Perm.swap (k, v) (j, w) m))
  ]

  -- Each entry is met once.
  pub in_order-perm : (m : Map K V) → Perm (in_order m) m
  unfolding in_order
  in_order-perm [] = Perm.refl []
  in_order-perm ((k, v) ∷ m) =
      Perm.trans (place-perm k v (in_order m)) (Perm.cons (k, v) (in_order-perm m))

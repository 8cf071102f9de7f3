-- ===== src/Prelude/Eq.antt =====
-- Boolean equality as an interface, and its instances for numbers, texts and pairs.
use Prim.Native.Nat.{ℕ}
use mathlib.Core.Path.{◌≡◌, refl}
use mathlib.Core.Logic.{◌↔◌}
use mathlib.Core.Bool.{Bool, true, false, ◌&&◌}
use mathlib.Core.List.{List, [], ◌∷◌}
use native.Mathlib.Omega.{arith}
use auroralink.Prelude.Tests.{◌==◌ as nat_eqb, ==_iff}

pub record Eq {ℓ} (A : Type ℓ) : Type ℓ where
  pub beq : A → A → Bool
  pub beq_iff : (a b : A) → (beq a b ≡ true) ↔ (a ≡ b)

-- Two texts, byte by byte.
abbrev pub text_eqb : List ℕ → List ℕ → Bool
text_eqb [] [] = true
text_eqb [] (b ∷ bs) = false
text_eqb (a ∷ as') [] = false
text_eqb (a ∷ as') (b ∷ bs) = nat_eqb a b && text_eqb as' bs

pub text_eqb_iff : (s t : List ℕ) → (text_eqb s t ≡ true) ↔ (s ≡ t)
text_eqb_iff [] [] = (λ _. refl, λ _. refl)
text_eqb_iff [] (b ∷ bs) = (λ h. cc, λ h. cc)
text_eqb_iff (a ∷ as') [] = (λ h. cc, λ h. cc)
text_eqb_iff (a ∷ as') (b ∷ bs) =
    (λ h. ground (arith, text_eqb_iff as' bs), λ h. ground (arith, text_eqb_iff as' bs))

instance abbrev pub nat_eq : Eq ℕ
nat_eq = record { beq = nat_eqb; beq_iff = ==_iff }

instance abbrev pub text_eq : Eq (List ℕ)
text_eq = record { beq = text_eqb; beq_iff = text_eqb_iff }

module _ {ℓ κ} {A : Type ℓ} {B : Type κ} ⦃d : Eq A⦄ ⦃e : Eq B⦄ where
  pub pair_eqb_iff : (p q : A × B) → ((d.beq p.0 q.0 && e.beq p.1 q.1) ≡ true) ↔ (p ≡ q)
  pair_eqb_iff p q = (
    λ h. ground (arith, d.beq_iff p.0 q.0, e.beq_iff p.1 q.1),
    λ h. ground (arith, d.beq_iff p.0 q.0, e.beq_iff p.1 q.1),
  )

  instance abbrev pub pair_eq : Eq (A × B)
  pair_eq = record { beq = λ p q. d.beq p.0 q.0 && e.beq p.1 q.1; beq_iff = pair_eqb_iff }

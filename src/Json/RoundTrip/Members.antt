-- ===== src/Json/RoundTrip/Members.antt =====
-- The zeros that `Publish` starts with, and a value through the loop of `JsonProxyCallback`.
use auroralink.Prelude.{
  ℕ, ◌≡◌, refl, ap, ◌∙◌, ◌≢◌, ◌⊎◌, inl, inr, Text, Bool, false, Option, none, some, List, [], ◌∷◌,
  arith, replicate, ◌+◌, ◌<◌, ◌≤◌, zero, suc, le→leb, length-replicate,
}
use auroralink.Prelude.Table.{each_below, each_below-lt, same, same→eq}
use auroralink.Prelude.Eq.{text_eq, text_eqb_iff}
use auroralink.Prelude.Assoc.{find, find-assign}
use auroralink.Bytes.{load, word_at, of_le_bytes}
use auroralink.Spec.{max_egd_payload}
use auroralink.Config.Types.{EgdVarInfo, EgdVarMap}
use auroralink.Json.Library.{JsonValue, boolean}
use auroralink.Json.Layout.{Separate}
use auroralink.Json.Encode.{done, is_out_of_bounds, byte_offset, bit_in_byte}
use auroralink.Json.Encode.Inversion.{>>=-eq-done}
use auroralink.Json.Decode.Values.{decode_bool_at}
use auroralink.Json.Decode.{bit_at, decode_value, decode_vars, set_member}
use auroralink.Json.Decode.RoundTrip.{IsClear}
use auroralink.Json.RoundTrip.{IsApart}

zero_bit : (k : ℕ) → k < 8 → bit_at 0 k ≡ false
unfolding bit_at each_below
zero_bit k small = same→eq _ _ (each_below-lt 8 (λ k. same (bit_at 0 k) false) k refl small)

zero_word : (n off : ℕ) → word_at (replicate n 0) off 1 ≡ 0
unfolding word_at of_le_bytes
zero_word zero zero = refl
zero_word zero (suc off) = refl
zero_word (suc n) zero = refl
zero_word (suc n) (suc off) = zero_word n off

load_zeros : (n off : ℕ) → off + 1 ≤ n → load (replicate n 0) off 1 ≡ some 0
unfolding load
load_zeros n off fits = rw (length-replicate {A = ℕ} n 0, le→leb (off + 1) n fits, zero_word n off)

-- The zeros that `Publish` starts with.
pub zeros-IsClear :
    (i : EgdVarInfo) → is_out_of_bounds i ≡ false → IsClear (replicate max_egd_payload 0) i
unfolding decode_value is_out_of_bounds
zeros-IsClear i inside is_bool = rw is_bool (
    decode_bool_at (replicate max_egd_payload 0) (byte_offset i) (bit_in_byte i) 0
      (load_zeros max_egd_payload (byte_offset i) (ground arith))
    ∙ ap (λ (c : Bool). done (some (boolean c))) (zero_bit (bit_in_byte i) (omega arith)))

-- The loop of `JsonProxyCallback`.
pub members_keep :
    (name : Text) (i : EgdVarInfo) (v : JsonValue) (payload : List ℕ) (vars : EgdVarMap)
    (members result : List (Text × JsonValue))
    → IsApart name i vars
    → decode_value payload i ≡ done (some v)
    → (find name vars ≡ some i) ⊎ (find name members ≡ some v)
    → decode_vars payload vars members ≡ done result
    → find name result ≡ some v
unfolding decode_vars
members_keep name i v payload [] members result apart value_is (inl found) e = unfold find in cc
members_keep name i v payload [] members result apart value_is (inr kept) e = cc
members_keep name i v payload ((k, n) ∷ vars) members result (h, hs) value_is known e =
    let (o, first, rest_done) =
      >>=-eq-done (decode_value payload n) (λ o. decode_vars payload vars (set_member k o members))
        result e in
    members_keep name i v payload vars (set_member k o members) result hs value_is
      (next o first h known) rest_done
  where
    next :
        (o : Option JsonValue)
        → decode_value payload n ≡ done o
        → ((k ≡ name) × (n ≡ i)) ⊎ ((k ≢ name) × Separate i n)
        → (find name ((k, n) ∷ vars) ≡ some i) ⊎ (find name members ≡ some v)
        → (find name vars ≡ some i) ⊎ (find name (set_member k o members) ≡ some v)
    next none first (inl (is_name, is_i)) known =
        let absurd : decode_value payload n ≡ done (some v) = rw is_i value_is in cc
    next (some w) first (inl (is_name, is_i)) known =
        let is_v : w ≡ v =
          (let again : decode_value payload n ≡ done (some v) = rw is_i value_is in cc) in
        inr (ground (arith, find-assign k name w members, text_eqb_iff k name))
    next o first (inr (ne, _)) (inl found) =
        inl (unfold find in ground (arith, text_eqb_iff k name))
    next none first (inr (ne, _)) (inr kept) = inr kept
    next (some w) first (inr (ne, _)) (inr kept) =
        inr (ground (arith, find-assign k name w members, text_eqb_iff k name))

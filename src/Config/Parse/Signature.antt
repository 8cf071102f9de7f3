-- ===== src/Config/Parse/Signature.antt =====
-- The 16-bit signature of a page and its two halves.
use auroralink.Prelude.{ℕ, ◌+◌, ◌*◌, ◌/◌, ◌%◌, ◌<◌, ◌≡◌, refl, true, ◌==◌, ==_iff, arith}
use auroralink.Prelude.Table.{each_below, each_below-lt}
use auroralink.Config.Parse.{page_signature}

signature_table :
    each_below 256 (λ a. each_below 256 (λ b. page_signature a b == a * 256 + b)) ≡ true
unfolding each_below page_signature
signature_table = refl

-- For two bytes, the signature's high byte is `sig_major` and its low byte `sig_minor`.
pub page_signature-halves :
    (a b : ℕ) → a < 256 → b < 256 → (page_signature a b / 256 ≡ a) × (page_signature a b % 256 ≡ b)
page_signature-halves a b ha hb =
    let row = each_below-lt 256 _ a signature_table ha in
    let sum = (==_iff _ _).0 (each_below-lt 256 _ b row hb) in omega (arith, sum)

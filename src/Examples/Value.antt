-- ===== src/Examples/Value.antt =====
-- What raw_bytes_subscribe.cpp prints of the data that raw_bytes_publish.cpp fills.
use auroralink.Prelude.{
  ℕ, zero, suc, ◌+◌, ◌*◌, ◌/◌, ◌≤◌, ◌≡◌, refl, some, List, [], ◌∷◌, take, drop, length, le→leb,
  arith,
}
use auroralink.Bytes.{of_le_bytes, word_at, load, write_at, overwrite}
use auroralink.Bytes.Buffer.{length-write_at, store-IsSome}
use auroralink.Config.Types.{EgdDataType, EgdVarInfo}
use auroralink.Json.Encode.{done}
use auroralink.Examples.{fill_data, print_variable}

-- The seven bytes behind the first.
abbrev pub rest_at : List ℕ → ℕ → ℕ
rest_at bytes off = of_le_bytes (take 7 (drop (suc off) bytes))

drop-write_at :
    (bytes : List ℕ) (off b : ℕ)
    → suc off ≤ length bytes
    → drop off (write_at bytes off (b ∷ [])) ≡ b ∷ drop (suc off) bytes
unfolding write_at overwrite
drop-write_at [] off b h = absurd (omega arith)
drop-write_at (x ∷ []) zero b h = refl
drop-write_at (x ∷ y ∷ xs) zero b h = refl
drop-write_at (x ∷ xs) (suc off) b h = drop-write_at xs off b (omega arith)

-- For a variable of type ULINT whose eight bytes are in the array: the array is filled, and the
-- number that is printed of it has 42 as its low byte, and the other seven bytes that the array
-- held before.
pub print_variable-fill_data :
    (var : EgdVarInfo) (bytes : List ℕ)
    → var.data_type.type ≡ EgdDataType.ulint
    → var.bit_offset / 8 + 8 ≤ length bytes
    → (bytes' : List ℕ) × (fill_data var bytes ≡ done bytes')
      × (print_variable var bytes' ≡ done (some (42 + 256 * rest_at bytes (var.bit_offset / 8))))
unfolding fill_data print_variable load word_at
print_variable-fill_data var bytes is_ulint fits =
    let off = var.bit_offset / 8 in
    let filled = write_at bytes off (42 ∷ []) in
    (
      filled,
      rw is_ulint (rw (store-IsSome bytes off (42 ∷ []) (omega arith)) refl),
      rw is_ulint (
          rw (le→leb (off + 8) (length filled) (omega (arith, length-write_at bytes off (42 ∷ []))))
            (rw (drop-write_at bytes off 42 (omega arith)) (unfold of_le_bytes in refl))),
    )

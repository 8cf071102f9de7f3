-- ===== src/Bytes.antt =====
-- Little-endian words in byte buffers: what `htole16` to `htole64` followed by a store through a
-- cast pointer do, and a load followed by `le16toh` to `le64toh`.
-- (libEGD-master/src/egd/client/json_client.cpp and the structs of util/egd_spec.h.)
pub mod Words
pub mod Buffer
use auroralink.Prelude.{
  ℕ, zero, suc, ◌+◌, ◌*◌, ◌/◌, ◌%◌, ◌<◌, List, [], ◌∷◌, Option, none, some, length, take, drop, leb,
  if◌then◌else◌,
}

-- The `n` low bytes of `v`, the lowest first.
unfoldable pub le_bytes : ℕ → ℕ → List ℕ
le_bytes zero v = []
le_bytes (suc n) v = (v % 256) ∷ le_bytes n (v / 256)

unfoldable pub of_le_bytes : List ℕ → ℕ
of_le_bytes [] = 0
of_le_bytes (b ∷ bs) = b + 256 * of_le_bytes bs

-- The word of `n` bytes at an offset.
unfoldable pub word_at : List ℕ → ℕ → ℕ → ℕ
word_at buf off n = of_le_bytes (take n (drop off buf))

-- `bs` written over the head of a buffer, and over what stands at an offset.
unfoldable pub overwrite : List ℕ → List ℕ → List ℕ
overwrite [] bs = []
overwrite (x ∷ xs) [] = x ∷ xs
overwrite (x ∷ xs) (b ∷ bs) = b ∷ overwrite xs bs

unfoldable pub write_at : List ℕ → ℕ → List ℕ → List ℕ
unfolding overwrite
write_at buf zero bs = overwrite buf bs
write_at [] (suc off) bs = []
write_at (x ∷ xs) (suc off) bs = x ∷ write_at xs off bs

-- A store and a load of bytes; `none` is an access outside the buffer, which C++ leaves undefined.
unfoldable pub store : List ℕ → ℕ → List ℕ → Option (List ℕ)
unfolding write_at
store buf off bs = if leb (off + length bs) (length buf) then some (write_at buf off bs) else none

unfoldable pub load : List ℕ → ℕ → ℕ → Option ℕ
unfolding word_at
load buf off n = if leb (off + n) (length buf) then some (word_at buf off n) else none

abbrev pub IsByte : ℕ → Type 0
IsByte b = b < 256

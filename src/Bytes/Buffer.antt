-- ===== src/Bytes/Buffer.antt =====
-- Loads and stores: what a store leaves as it was and what a load sees of it.
use auroralink.Prelude.{
  ℕ, zero, suc, ◌+◌, ◌≤◌, ◌≡◌, refl, ap, ◌⊎◌, inl, inr, List, [], ◌∷◌, some, length, take, drop,
  arith,
}
use auroralink.Bytes.{of_le_bytes, overwrite, write_at, store, load}

length-overwrite : (buf bs : List ℕ) → length (overwrite buf bs) ≡ length buf
unfolding overwrite
length-overwrite [] bs = refl
length-overwrite (x ∷ xs) [] = refl
length-overwrite (x ∷ xs) (b ∷ bs) = ap suc (length-overwrite xs bs)

pub length-write_at :
    (buf : List ℕ) (off : ℕ) (bs : List ℕ) → length (write_at buf off bs) ≡ length buf
unfolding write_at
length-write_at [] zero bs = length-overwrite [] bs
length-write_at (x ∷ xs) zero bs = length-overwrite (x ∷ xs) bs
length-write_at [] (suc off) bs = refl
length-write_at (x ∷ xs) (suc off) bs = ap suc (length-write_at xs off bs)

take-overwrite :
    (buf bs : List ℕ) → length bs ≤ length buf → take (length bs) (overwrite buf bs) ≡ bs
unfolding overwrite
take-overwrite buf [] h = refl
take-overwrite [] (b ∷ bs) h = absurd (omega arith)
take-overwrite (x ∷ xs) (b ∷ bs) h = ap (◌∷◌ b) (take-overwrite xs bs (omega arith))

drop-overwrite : (buf bs : List ℕ) (k : ℕ) → length bs ≤ k → drop k (overwrite buf bs) ≡ drop k buf
unfolding overwrite
drop-overwrite [] bs k h = refl
drop-overwrite (x ∷ xs) [] k h = refl
drop-overwrite (x ∷ xs) (b ∷ bs) zero h = absurd (omega arith)
drop-overwrite (x ∷ xs) (b ∷ bs) (suc k) h = drop-overwrite xs bs k (omega arith)

-- The bytes that were written are there.
pub take-write_at :
    (buf : List ℕ) (off : ℕ) (bs : List ℕ)
    → off + length bs ≤ length buf
    → take (length bs) (drop off (write_at buf off bs)) ≡ bs
unfolding write_at
take-write_at [] zero bs h = take-overwrite [] bs (omega arith)
take-write_at (x ∷ xs) zero bs h = take-overwrite (x ∷ xs) bs (omega arith)
take-write_at [] (suc off) bs h = absurd (omega arith)
take-write_at (x ∷ xs) (suc off) bs h = take-write_at xs off bs (omega arith)

-- The bytes before and behind them are as they were.
before-write_at :
    (buf : List ℕ) (off : ℕ) (bs : List ℕ) (o n : ℕ)
    → o + n ≤ off
    → take n (drop o (write_at buf off bs)) ≡ take n (drop o buf)
unfolding write_at
before-write_at buf zero bs zero zero h = refl
before-write_at buf zero bs zero (suc n) h = absurd (omega arith)
before-write_at buf zero bs (suc o) n h = absurd (omega arith)
before-write_at [] (suc off) bs o n h = refl
before-write_at (x ∷ xs) (suc off) bs zero zero h = refl
before-write_at (x ∷ xs) (suc off) bs zero (suc n) h =
    ap (◌∷◌ x) (before-write_at xs off bs zero n (omega arith))
before-write_at (x ∷ xs) (suc off) bs (suc o) n h = before-write_at xs off bs o n (omega arith)

behind-write_at :
    (buf : List ℕ) (off : ℕ) (bs : List ℕ) (o : ℕ)
    → off + length bs ≤ o
    → drop o (write_at buf off bs) ≡ drop o buf
unfolding write_at
behind-write_at [] zero bs o h = drop-overwrite [] bs o (omega arith)
behind-write_at (x ∷ xs) zero bs o h = drop-overwrite (x ∷ xs) bs o (omega arith)
behind-write_at [] (suc off) bs o h = refl
behind-write_at (x ∷ xs) (suc off) bs zero h = absurd (omega arith)
behind-write_at (x ∷ xs) (suc off) bs (suc o) h = behind-write_at xs off bs o (omega arith)

-- Two ranges of bytes that share none.
abbrev pub Apart : ℕ → ℕ → ℕ → ℕ → Type 0
Apart o n p m = (o + n ≤ p) ⊎ (p + m ≤ o)

pub length-store :
    (buf : List ℕ) (off : ℕ) (bs buf' : List ℕ)
    → store buf off bs ≡ some buf'
    → length buf' ≡ length buf
unfolding store
length-store buf off bs buf' h = unfold write_at in ground (arith, length-write_at buf off bs)

pub load-store :
    (buf : List ℕ) (off : ℕ) (bs buf' : List ℕ)
    → store buf off bs ≡ some buf'
    → load buf' off (length bs) ≡ some (of_le_bytes bs)
unfolding store load
load-store buf off bs buf' h = ground (arith, take-write_at buf off bs, length-write_at buf off bs)

pub load-store_elsewhere :
    (buf : List ℕ) (off : ℕ) (bs buf' : List ℕ) (o n : ℕ)
    → Apart o n off (length bs)
    → store buf off bs ≡ some buf'
    → load buf' o n ≡ load buf o n
unfolding store load
load-store_elsewhere buf off bs buf' o n (inl a) h =
    ground (arith, before-write_at buf off bs o n a, length-write_at buf off bs)
load-store_elsewhere buf off bs buf' o n (inr a) h =
    ground (arith, behind-write_at buf off bs o a, length-write_at buf off bs)

pub store-IsSome :
    (buf : List ℕ) (off : ℕ) (bs : List ℕ)
    → off + length bs ≤ length buf
    → store buf off bs ≡ some (write_at buf off bs)
unfolding store
store-IsSome buf off bs h = ground arith

-- Bytes that fill a buffer replace it.
pub write_at_all : (buf bs : List ℕ) → length bs ≡ length buf → write_at buf 0 bs ≡ bs
unfolding write_at
write_at_all [] [] h = refl
write_at_all [] (b ∷ bs) h = absurd (omega arith)
write_at_all (x ∷ xs) [] h = absurd (omega arith)
write_at_all (x ∷ xs) (b ∷ bs) h = ap (◌∷◌ b) (write_at_all xs bs (omega arith))

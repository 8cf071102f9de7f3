-- ===== src/Send/Clock/Extremes.antt =====
-- The extremes of the timing statistics over any samples.
use auroralink.Prelude.{
  true_not_false, suc, ◌+◌, ◌%◌, ◌^◌, ◌<◌, ◌≡◌, refl, sym, ◌∙◌, inl, inr, true, false, List, [],
  ◌∷◌, ◌==◌, if◌then◌else◌, length, All, All-weaken, arith, Bool-cases,
}
use auroralink.Send.Types.{DoubleArith, TimingStats}
use auroralink.Send.Clock.{zero_stats, update_extremes, update_timing_stats}

-- What `<` is on doubles, a NaN included.
pub record IsStrict (d : DoubleArith) : Type 0 where
  pub irreflexive : (x : d.Double) → d.lt x x ≡ false
  pub transitive : (x y z : d.Double) → d.lt x y ≡ true → d.lt y z ≡ true → d.lt x z ≡ true

module _ (d : DoubleArith) where
  open d use {Double, lt}

  -- The samples of some rounds, each a time for the send and a jitter, one after the other.
  unfoldable pub record_samples : TimingStats Double → List (Double × Double) → TimingStats Double
  unfolding update_timing_stats
  record_samples s [] = s
  record_samples s (x ∷ xs) = record_samples (update_timing_stats d s x.0 x.1) xs

  -- A sample is not below the least one that is kept, nor above the greatest.
  abbrev pub IsWithin : TimingStats Double → Double × Double → Type 0
  IsWithin s x =
      (lt x.0 s.min_send_time_ms ≡ false)
      × (lt s.max_send_time_ms x.0 ≡ false)
      × (lt x.1 s.min_jitter_ms ≡ false)
      × (lt s.max_jitter_ms x.1 ≡ false)

module _ (d : DoubleArith) (strict : IsStrict d) where
  open d use {Double, lt}

  -- A value that a bound leaves out leaves its place to it.
  old_below : (x y m : Double) → lt x m ≡ false → lt x (if lt y m then y else m) ≡ false
  old_below x y m h = elim (Bool-cases (lt y m)) [
    | inr stays ↦ rw stays h
    | inl lower ↦ rw lower (elim (Bool-cases (lt x y)) [
      | inr fine ↦ fine
      | inl less ↦ absurd (true_not_false (sym (strict.transitive x y m less lower) ∙ h))
    ])
  ]

  old_above : (x y m : Double) → lt m x ≡ false → lt (if lt m y then y else m) x ≡ false
  old_above x y m h = elim (Bool-cases (lt m y)) [
    | inr stays ↦ rw stays h
    | inl higher ↦ rw higher (elim (Bool-cases (lt y x)) [
      | inr fine ↦ fine
      | inl more ↦ absurd (true_not_false (sym (strict.transitive m y x higher more) ∙ h))
    ])
  ]

  new_below : (y m : Double) → lt y (if lt y m then y else m) ≡ false
  new_below y m = elim (Bool-cases (lt y m)) [
    | inr stays ↦ rw stays stays
    | inl lower ↦ rw lower (strict.irreflexive y)
  ]

  new_above : (y m : Double) → lt (if lt m y then y else m) y ≡ false
  new_above y m = elim (Bool-cases (lt m y)) [
    | inr stays ↦ rw stays stays
    | inl higher ↦ rw higher (strict.irreflexive y)
  ]

  new-IsWithin :
      (s : TimingStats Double) (x : Double × Double)
      → IsWithin d (update_timing_stats d s x.0 x.1) x
  unfolding update_timing_stats update_extremes
  new-IsWithin s x = elim (Bool-cases (s.samples == 0)) [
    | inl first ↦ rw first (
      strict.irreflexive x.0,
      strict.irreflexive x.0,
      strict.irreflexive x.1,
      strict.irreflexive x.1,
    )
    | inr later ↦ rw later (
      new_below x.0 s.min_send_time_ms,
      new_above x.0 s.max_send_time_ms,
      new_below x.1 s.min_jitter_ms,
      new_above x.1 s.max_jitter_ms,
    )
  ]

  old-IsWithin :
      (s : TimingStats Double) (y x : Double × Double)
      → (s.samples == 0) ≡ false
      → IsWithin d s x
      → IsWithin d (update_timing_stats d s y.0 y.1) x
  unfolding update_timing_stats update_extremes
  old-IsWithin s y x later (a, b, c, e) = rw later (
    old_below x.0 y.0 s.min_send_time_ms a,
    old_above x.0 y.0 s.max_send_time_ms b,
    old_below x.1 y.1 s.min_jitter_ms c,
    old_above x.1 y.1 s.max_jitter_ms e,
  )

  update-samples :
      (s : TimingStats Double) (x : Double × Double)
      → (update_timing_stats d s x.0 x.1).samples ≡ suc s.samples % 2 ^ 64
  unfolding update_timing_stats update_extremes
  update-samples s x = elim (Bool-cases (s.samples == 0)) [
    | inl first ↦ rw first refl
    | inr later ↦ rw later refl
  ]

  record_samples-from :
      (xs seen : List (Double × Double)) (s : TimingStats Double)
      → length seen ≡ s.samples
      → s.samples + length xs < 2 ^ 64
      → All (IsWithin d s) seen
      → let t = record_samples d s xs in
        (t.samples ≡ s.samples + length xs) × All (IsWithin d t) seen × All (IsWithin d t) xs
  unfolding record_samples
  record_samples-from [] seen s count small within = (omega arith, within, tt)
  record_samples-from (x ∷ xs) seen s count small within =
      let s' = update_timing_stats d s x.0 x.1 in
      let one_more : s'.samples ≡ suc s.samples = omega (arith, update-samples s x) in
      let (total, all_seen, rest) =
        record_samples-from xs (x ∷ seen) s' (omega (arith, one_more)) (omega (arith, one_more))
          (new-IsWithin s x, still seen count within) in
      (omega (arith, total, one_more), all_seen.1, (all_seen.0, rest))
    where
      still :
          (seen : List (Double × Double))
          → length seen ≡ s.samples
          → All (IsWithin d s) seen
          → All (IsWithin d (update_timing_stats d s x.0 x.1)) seen
      still [] _ _ = tt
      still (y ∷ ys) count within =
          All-weaken (IsWithin d s) (IsWithin d (update_timing_stats d s x.0 x.1)) (y ∷ ys)
            (λ z. old-IsWithin s x z (ground (arith, count))) within

  -- For fewer than 2^64 samples from the start on, the statistics count them all, and no time for
  -- a send and no jitter of any of them lies below the least or above the greatest that is kept.
  pub record_samples-extremes :
      (xs : List (Double × Double))
      → length xs < 2 ^ 64
      → let t = record_samples d (zero_stats d) xs in
        (t.samples ≡ length xs) × All (IsWithin d t) xs
  record_samples-extremes xs small =
      let (total, _, within) = record_samples-from xs [] (zero_stats d) refl (omega arith) tt in
      (omega (arith, total), within)

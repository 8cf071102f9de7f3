-- ===== src/Send/Clock/Tests.antt =====
-- A test of the timing statistics.
use auroralink.Prelude.{ℕ, ◌≡◌, List, [], ◌∷◌, All, arith}
use auroralink.Send.Clock.{zero_stats}
use auroralink.Send.Clock.Extremes.{IsStrict, IsWithin, record_samples, record_samples-extremes}
use auroralink.Samples.{sample_doubles}

sample-IsStrict : IsStrict sample_doubles
sample-IsStrict = record { irreflexive = λ x. ground arith; transitive = λ x y z h k. ground arith }

abbrev samples : List (ℕ × ℕ)
samples = (3, 40) ∷ (1, 50) ∷ (2, 10) ∷ []

record_samples-extremes_example :
    ((record_samples sample_doubles (zero_stats sample_doubles) samples).samples ≡ 3)
    × All
        (IsWithin sample_doubles
          (record_samples sample_doubles (zero_stats sample_doubles) samples))
        samples
record_samples-extremes_example =
    record_samples-extremes sample_doubles sample-IsStrict samples (omega arith)

-- ===== src/Send/Loop/Drift.antt =====
-- The schedule of the send loop.
use auroralink.Prelude.{ℕ, ◌+◌, ◌*◌, ◌≡◌, Bool, Bool-cases, inl, inr, if◌then◌else◌}
use auroralink.Prelude.Int.{ℤ, pos}
use auroralink.Client.Types.{SockAddr}
use auroralink.Send.Types.{DoubleArith, SendRound}
use auroralink.Send.Clock.{timespec_diff_ms}
use auroralink.Send.Clock.Schedule.{nanoseconds, IsNormal, nanoseconds-timespec_add_ms}
use auroralink.Send.Loop.{SendState, wake}

module _ (d : DoubleArith) (sock : ℤ) (addr : SockAddr) (interval_ms count : ℕ) where
  open d use {Double, of_int, lt}

  -- The jitter of a round is above the interval.
  abbrev pub is_overrun : SendState Double → SendRound → Bool
  is_overrun s r = lt (of_int (pos interval_ms)) (timespec_diff_ms d r.actual_wake s.next_wake_time)

  -- The time to wake moves by exactly one interval in each round: from the scheduled time, however
  -- late the program woke, or after an overrun from the time that is read then. For times whose
  -- nanoseconds are below a second.
  pub wake_schedule :
      (s : SendState Double) (r : SendRound)
      → IsNormal s.next_wake_time
      → IsNormal r.reset_time
      → IsNormal (wake d sock addr interval_ms count s r).next_wake_time
        × (nanoseconds (wake d sock addr interval_ms count s r).next_wake_time
            ≡ nanoseconds (if is_overrun s r then r.reset_time else s.next_wake_time)
              + interval_ms * 1000000)
  unfolding wake
  wake_schedule s r normal reset_normal = elim (Bool-cases (is_overrun s r)) [
    | inl overrun ↦ rw overrun (nanoseconds-timespec_add_ms r.reset_time interval_ms reset_normal)
    | inr in_time ↦ rw in_time (nanoseconds-timespec_add_ms s.next_wake_time interval_ms normal)
  ]

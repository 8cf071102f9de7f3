-- ===== src/Send/Clock/Schedule.antt =====
-- Time that `TimespecAddMs` adds, and the schedule of the sends.
use auroralink.Prelude.{ℕ, ◌+◌, ◌*◌, ◌<◌, ◌≡◌, arith}
use auroralink.Send.Types.{Timespec}
use auroralink.Send.Clock.{timespec_add_ms}

-- A time in nanoseconds, and one whose nanoseconds are below a second.
abbrev pub nanoseconds : Timespec → ℕ
nanoseconds ts = ts.tv_sec * 1000000000 + ts.tv_nsec

abbrev pub IsNormal : Timespec → Type 0
IsNormal ts = ts.tv_nsec < 1000000000

-- Exactly the milliseconds are added to a time whose nanoseconds are below a second, and the sum
-- has its nanoseconds below a second again.
pub nanoseconds-timespec_add_ms :
    (ts : Timespec) (ms : ℕ)
    → IsNormal ts
    → IsNormal (timespec_add_ms ts ms)
      × (nanoseconds (timespec_add_ms ts ms) ≡ nanoseconds ts + ms * 1000000)
unfolding timespec_add_ms
nanoseconds-timespec_add_ms ts ms normal = (ground arith, ground arith)

-- ===== src/Send/Clock.antt =====
-- EgdSend.c: `TimespecAddMs` to `UpdateTimingStats`, and `GetCurrentEgdTime`.
pub mod Schedule
pub mod Extremes
mod Tests
use auroralink.Prelude.{
  ℕ, suc, ◌+◌, ◌-◌, ◌*◌, ◌/◌, ◌%◌, ◌^◌, Option, none, some, List, [], ◌∷◌, leb, ◌==◌, if◌then◌else◌,
}
use auroralink.Prelude.Int.{pos, sub_ℕ}
use auroralink.Send.Types.{Timespec, EgdTime, DoubleArith, TimingStats, SleepReply}

-- For an interval that is not negative, as every caller's.
unfoldable pub timespec_add_ms : Timespec → ℕ → Timespec
timespec_add_ms ts ms =
    let sec = ts.tv_sec + ms / 1000 in
    let nsec = ts.tv_nsec + ms % 1000 * 1000000 in
    if leb 1000000000 nsec
    then record { tv_sec = sec + 1; tv_nsec = nsec - 1000000000 }
    else record { tv_sec = sec; tv_nsec = nsec }

abbrev pub eintr : ℕ
eintr = 4

-- The status that `SleepUntil` returns on Linux, with every reply of `clock_nanosleep`; `none`
-- where the replies end and it still sleeps.
unfoldable pub sleep_until : List SleepReply → Option ℕ
sleep_until [] = none
sleep_until (r ∷ rs) =
    if r.ret == 0
    then some 0
    else (if r.ret == eintr then (if r.running then sleep_until rs else some 1) else some 1)

-- The Linux branch: the clock's fields, cut to 32 bits.
unfoldable pub get_current_egd_time : Timespec → EgdTime
get_current_egd_time ts = record { tv_sec = ts.tv_sec % 2 ^ 32; tv_nsec = ts.tv_nsec % 2 ^ 32 }

module _ (d : DoubleArith) where
  open d use {Double, of_int, add, mul, div, lt}

  unfoldable pub timespec_diff_ms : Timespec → Timespec → Double
  timespec_diff_ms a b =
      add (mul (of_int (sub_ℕ a.tv_sec b.tv_sec)) (of_int (pos 1000)))
        (div (of_int (sub_ℕ a.tv_nsec b.tv_nsec)) (of_int (pos 1000000)))

  -- What `memset` leaves: the bits of 0.0.
  abbrev pub zero_stats : TimingStats Double
  zero_stats = record {
    min_jitter_ms = of_int (pos 0);
    max_jitter_ms = of_int (pos 0);
    total_jitter_ms = of_int (pos 0);
    min_send_time_ms = of_int (pos 0);
    max_send_time_ms = of_int (pos 0);
    total_send_time_ms = of_int (pos 0);
    samples = 0;
  }

  -- The extremes after a sample: the first one sets all four.
  unfoldable pub update_extremes : TimingStats Double → Double → Double → TimingStats Double
  update_extremes s send_time_ms jitter_ms =
      if s.samples == 0
      then record s {
        min_jitter_ms = jitter_ms;
        max_jitter_ms = jitter_ms;
        min_send_time_ms = send_time_ms;
        max_send_time_ms = send_time_ms;
      }
      else record s {
        min_jitter_ms = if lt jitter_ms s.min_jitter_ms then jitter_ms else s.min_jitter_ms;
        max_jitter_ms = if lt s.max_jitter_ms jitter_ms then jitter_ms else s.max_jitter_ms;
        min_send_time_ms =
            if lt send_time_ms s.min_send_time_ms then send_time_ms else s.min_send_time_ms;
        max_send_time_ms =
            if lt s.max_send_time_ms send_time_ms then send_time_ms else s.max_send_time_ms;
      }

  unfoldable pub update_timing_stats : TimingStats Double → Double → Double → TimingStats Double
  unfolding update_extremes
  update_timing_stats s send_time_ms jitter_ms =
      let t = update_extremes s send_time_ms jitter_ms in
      record t {
        total_jitter_ms = add t.total_jitter_ms jitter_ms;
        total_send_time_ms = add t.total_send_time_ms send_time_ms;
        samples = suc t.samples % 2 ^ 64;
      }

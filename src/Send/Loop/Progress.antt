-- ===== src/Send/Loop/Progress.antt =====
-- The send loop reaches its count.
use auroralink.Prelude.{
  ◌≢◌, lt→ltb, leb→le, ℕ, suc, ◌-◌, ◌%◌, ◌^◌, ◌≤◌, ◌<◌, ◌≡◌, refl, Bool, inl, inr, true, false,
  Option, none, some, List, [], ◌∷◌, if◌then◌else◌, ltb, leb, length, replicate, All, arith,
  Bool-cases, ◌++◌, zero,
}
use auroralink.Prelude.Int.{ℤ}
use auroralink.Client.Types.{SockAddr}
use auroralink.Client.Connect.{is_socket_error}
use auroralink.Send.Types.{DataProductionMessage, DoubleArith, SleepReply, SendRound, SenderCall}
use auroralink.Send.Clock.{eintr, sleep_until}
use auroralink.Send.Message.{send_data_message}
use auroralink.Send.Loop.{
  SendState, LoopEnd, reached_count, wake, after_send, send_round, continue, send_loop,
}

-- A sleep that a handled signal cuts short while the program still runs.
abbrev pub interruption : SleepReply
interruption = record { ret = eintr; running = true }

-- A sleep goes on after any number of signals that do not end the program, until the time has
-- come.
pub sleep_until-resumes :
    (n : ℕ) (running : Bool) (rs : List SleepReply)
    → sleep_until (replicate n interruption ++ record { ret = 0; running = running } ∷ rs) ≡ some 0
unfolding sleep_until
sleep_until-resumes zero running rs = refl
sleep_until-resumes (suc n) running rs = sleep_until-resumes n running rs

-- A round in which the program runs, the send goes out, and the sleep comes to its time.
abbrev pub IsGood : SendRound → Type 0
IsGood r =
    (r.running ≡ true) × (is_socket_error r.sendto_reply ≡ false) × (sleep_until r.sleep ≡ some 0)

module _ (d : DoubleArith) (sock : ℤ) (addr : SockAddr) (interval_ms count : ℕ) where
  open d use {Double}

  after_good_send :
      (s : SendState Double) (r : SendRound) (m : DataProductionMessage)
      → sleep_until r.sleep ≡ some 0
      → s.total_sent < count
      → count < 2 ^ 64
      → let (s', end) = after_send d sock addr interval_ms count s r m 0 in
        (s'.total_sent ≡ suc s.total_sent)
        × (end ≡ (if leb count (suc s.total_sent) then some reached_count else none))
  unfolding after_send wake
  after_good_send s r m woke below small =
      let fits : suc s.total_sent % 2 ^ 64 ≡ suc s.total_sent = omega arith in
      let counts : ltb 0 count ≡ true = lt→ltb 0 count (omega arith) in
      elim (Bool-cases (leb count (suc s.total_sent))) [
        | inl enough ↦ rw (fits, counts, enough) (refl, refl)
        | inr more ↦ rw (fits, counts, more) (rw woke (refl, refl))
      ]

  good_round :
      (s : SendState Double) (r : SendRound)
      → IsGood r
      → s.total_sent < count
      → count < 2 ^ 64
      → let (s', end, call) = send_round d sock addr interval_ms count s r in
        (s'.total_sent ≡ suc s.total_sent)
        × (end ≡ (if leb count (suc s.total_sent) then some reached_count else none))
  unfolding send_round send_data_message
  good_round s r (running, went, woke) below small =
      rw went (after_good_send s r _ woke below small)

  continue-reaches :
      (s : SendState Double)
      (loop : SendState Double → SendState Double × LoopEnd × List SenderCall)
      (step : SendState Double × Option LoopEnd × SenderCall)
      → s.total_sent < count
      → step.0.total_sent ≡ suc s.total_sent
      → step.1 ≡ (if leb count (suc s.total_sent) then some reached_count else none)
      → ((s' : SendState Double)
          → s'.total_sent ≡ suc s.total_sent
          → s'.total_sent < count
          → let (t, end, calls) = loop s' in
            (end ≡ reached_count) × (t.total_sent ≡ count) × (length calls ≡ count - s'.total_sent))
      → let (t, end, calls) = continue d sock addr interval_ms count loop step in
        (end ≡ reached_count) × (t.total_sent ≡ count) × (length calls ≡ count - s.total_sent)
  continue-reaches s loop (s', none, call) below total end rest =
      elim (Bool-cases (leb count (suc s.total_sent))) [
        | inl enough ↦ let wrong = rw enough at end in absurd (not_none wrong)
        | inr more ↦
            let (reached, sent_all, calls) = rest s' total (more_left more) in
            (reached, sent_all, omega (arith, calls, total))
      ]
    where
      not_none : none ≢ some reached_count
      not_none e = cc

      more_left : leb count (suc s.total_sent) ≡ false → s'.total_sent < count
      more_left more = ground (arith, total)
  continue-reaches s loop (s', some e, call) below total end rest =
      elim (Bool-cases (leb count (suc s.total_sent))) [
        | inl enough ↦
            let last = leb→le count (suc s.total_sent) enough in
            (the_end (rw enough at end), omega (arith, total), omega arith)
        | inr more ↦ let wrong = rw more at end in absurd (not_some wrong)
      ]
    where
      not_some : some e ≢ none
      not_some h = cc

      the_end : some e ≡ some reached_count → e ≡ reached_count
      the_end h = cc

  -- With a count that is not 0 and a loop that starts below it, and rounds in which the program
  -- runs, each send goes out and each sleep comes to its time, the loop ends by its count as soon
  -- as there are as many rounds as messages are left: it has then sent the count, with one call for
  -- each message.
  pub send_loop-reaches :
      (rounds : List SendRound) (s : SendState Double)
      → s.total_sent < count
      → count < 2 ^ 64
      → All IsGood rounds
      → count - s.total_sent ≤ length rounds
      → let (t, end, calls) = send_loop d sock addr interval_ms count rounds s in
        (end ≡ reached_count) × (t.total_sent ≡ count) × (length calls ≡ count - s.total_sent)
  unfolding send_loop
  send_loop-reaches [] s below small good enough = absurd (omega arith)
  send_loop-reaches (r ∷ rs) s below small (now, later) enough =
      let (total, end) = good_round s r now below small in
      rw now.0 (
        continue-reaches s (λ s'. send_loop d sock addr interval_ms count rs s')
          (send_round d sock addr interval_ms count s r) below total end
          (λ s' total' below'. send_loop-reaches rs s' below' small later (omega (arith, total'))))

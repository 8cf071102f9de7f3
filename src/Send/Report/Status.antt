-- ===== src/Send/Report/Status.antt =====
-- The periodic status of the send loop.
use auroralink.Prelude.{
  ℕ, zero, suc, ◌+◌, ◌*◌, ◌/◌, ◌-◌, ◌%◌, ◌^◌, ◌≤◌, ◌<◌, ◌≡◌, refl, sym, ap, ◌∙◌, inl, inr, Option,
  none, some, List, [], ◌∷◌, ◌++◌, length, ◌==◌, arith, Bool-cases, append-nil, append_assoc,
}
use auroralink.Prelude.Int.{ℤ}
use auroralink.Client.Types.{SockAddr}
use auroralink.Send.Types.{DoubleArith, SendRound, SenderCall}
use auroralink.Send.Loop.{
  SendState, LoopEnd, reached_count, send_failed, interrupted, unfinished, send_round, continue,
  send_loop,
}
use auroralink.Send.Loop.Sequence.{RoundFacts, send_round-facts}
use auroralink.Send.Loop.Drift.{is_overrun}
use auroralink.Send.Report.{
  Line, sent_messages, reached_requested, status_line, overrun_line, round_lines, lines_on,
  loop_lines,
}

-- The numbers of messages that status lines report.
abbrev pub reported_by : {D : Type 0} → Line D → List ℕ
reported_by (sent_messages total req_id time) = total ∷ []
reported_by _ = []

abbrev pub reported : {D : Type 0} → List (Line D) → List ℕ
reported [] = []
reported (l ∷ ls) = reported_by l ++ reported ls

-- The `n` multiples of ten behind `10 * a`.
abbrev pub tens : ℕ → ℕ → List ℕ
tens a zero = []
tens a (suc n) = 10 * suc a ∷ tens (suc a) n

-- The multiples of ten above `s` and up to `t`.
abbrev pub tens_between : ℕ → ℕ → List ℕ
tens_between s t = tens (s / 10) (t / 10 - s / 10)

tens_joined : (a b m n : ℕ) → a + m ≡ b → tens a m ++ tens b n ≡ tens a (m + n)
tens_joined a b zero n e =
    let same : b ≡ a = omega arith in let sum : 0 + n ≡ n = omega arith in rw same (rw sum refl)
tens_joined a b (suc m) n e =
    let sum : suc m + n ≡ suc (m + n) = omega arith in
    rw sum (ap (λ l. 10 * suc a ∷ l) (tens_joined (suc a) b m n (omega arith)))

tens_between_joined :
    (s t u : ℕ) → s ≤ t → t ≤ u → tens_between s t ++ tens_between t u ≡ tens_between s u
tens_between_joined s t u le le' =
    tens_joined (s / 10) (t / 10) (t / 10 - s / 10) (u / 10 - t / 10) (omega arith)
    ∙ ap (tens (s / 10)) (omega arith)

tens_between_same : (s t : ℕ) → s / 10 ≡ t / 10 → tens_between s t ≡ []
tens_between_same s t e =
    let none_between : t / 10 - s / 10 ≡ 0 = omega arith in rw none_between refl

tens_between_next : (s t : ℕ) → t ≡ suc s → t % 10 ≡ 0 → tens_between s t ≡ t ∷ []
tens_between_next s t e tenth =
    let one_between : t / 10 - s / 10 ≡ 1 = omega arith in
    let value : 10 * suc (s / 10) ≡ t = omega arith in rw one_between (rw value refl)

reported-++ : {D : Type 0} (k l : List (Line D)) → reported (k ++ l) ≡ reported k ++ reported l
reported-++ [] l = refl
reported-++ (x ∷ k) l =
    ap (λ m. reported_by x ++ m) (reported-++ k l)
    ∙ sym (append_assoc (reported_by x) (reported k) (reported l))

module _ (d : DoubleArith) (sock : ℤ) (addr : SockAddr) (interval_ms count : ℕ) where
  open d use {Double}

  reported-status_line :
      (t : ℕ) (s : SendState Double) (r : SendRound)
      → s.total_sent ≡ suc t
      → reported (status_line d s r) ≡ tens_between t s.total_sent
  unfolding status_line
  reported-status_line t s r e = elim (Bool-cases (s.total_sent % 10 == 0)) [
    | inl tenth ↦ rw tenth (sym (tens_between_next t s.total_sent e (ground arith)))
    | inr other ↦ rw other (sym (tens_between_same t s.total_sent (ground arith)))
  ]

  reported-overrun_line :
      (s : SendState Double) (r : SendRound) → reported (overrun_line d interval_ms s r) ≡ []
  unfolding overrun_line
  reported-overrun_line s r = elim (Bool-cases (is_overrun d sock addr interval_ms count s r)) [
    | inl overrun ↦ rw overrun refl
    | inr in_time ↦ rw in_time refl
  ]

  -- What one round adds, for a number of messages that fits.
  reported-round_lines :
      (s : SendState Double) (r : SendRound) (s' : SendState Double) (end : Option LoopEnd)
      → RoundFacts d sock addr interval_ms count s s' end
      → suc s.total_sent < 2 ^ 64
      → (reported (round_lines d sock addr interval_ms count s r s' end)
          ≡ tens_between s.total_sent s'.total_sent)
        × (s.total_sent ≤ s'.total_sent)
        × (s'.total_sent ≤ suc s.total_sent)
  unfolding round_lines
  reported-round_lines s r s' none (total, _, _) fits = (
    reported-++ (status_line d s' r) (overrun_line d interval_ms s r)
        ∙ rw (reported-overrun_line s r) (append-nil (reported (status_line d s' r)))
        ∙ reported-status_line s.total_sent s' r (omega arith),
    omega arith,
    omega arith,
  )
  reported-round_lines s r s' (some reached_count) (total, _, _) fits = (
    reported-++ (status_line d s' r) (reached_requested count ∷ [])
        ∙ append-nil (reported (status_line d s' r))
        ∙ reported-status_line s.total_sent s' r (omega arith),
    omega arith,
    omega arith,
  )
  reported-round_lines s r s' (some send_failed) total fits =
      (sym (tens_between_same s.total_sent s'.total_sent (omega arith)), omega arith, omega arith)
  reported-round_lines s r s' (some interrupted) (total, _) fits =
      (reported-status_line s.total_sent s' r (omega arith), omega arith, omega arith)
  reported-round_lines s r s' (some unfinished) (total, _) fits =
      (reported-status_line s.total_sent s' r (omega arith), omega arith, omega arith)

  -- What the rest of the loop adds behind a state with `t` messages.
  abbrev Adds : ℕ → SendState Double → List (Line Double) → Type 0
  Adds t s lines = (reported lines ≡ tens_between t s.total_sent) × (t ≤ s.total_sent)

  lines_on-Adds :
      (lines : SendState Double → List (Line Double))
      (loop : SendState Double → SendState Double × LoopEnd × List SenderCall)
      (step : SendState Double × Option LoopEnd × SenderCall)
      → Adds step.0.total_sent (loop step.0).0 (lines step.0)
      → Adds step.0.total_sent
          (continue d sock addr interval_ms count loop step).0
          (lines_on d sock addr interval_ms count lines step.0 step.1)
  lines_on-Adds lines loop (s', none, call) rest = rest
  lines_on-Adds lines loop (s', some end, call) rest =
      (sym (tens_between_same s'.total_sent s'.total_sent refl), omega arith)

  joined-Adds :
      (t u : ℕ) (s : SendState Double) (k l : List (Line Double))
      → reported k ≡ tens_between t u
      → t ≤ u
      → Adds u s l
      → Adds t s (k ++ l)
  joined-Adds t u s k l first le (second, le') = (
    reported-++ k l ∙ rw first (rw second (tens_between_joined t u s.total_sent le le')),
    omega arith,
  )

  loop_lines-Adds :
      (rounds : List SendRound) (s : SendState Double)
      → s.total_sent + length rounds < 2 ^ 64
      → Adds s.total_sent
          (send_loop d sock addr interval_ms count rounds s).0
          (loop_lines d sock addr interval_ms count rounds s)
  unfolding send_loop loop_lines
  loop_lines-Adds [] s fits = (sym (tens_between_same s.total_sent s.total_sent refl), omega arith)
  loop_lines-Adds (r ∷ rs) s fits = elim (Bool-cases r.running) [
    | inr stopped ↦ rw stopped (sym (tens_between_same s.total_sent s.total_sent refl), omega arith)
    | inl running ↦ rw running (
        let step = send_round d sock addr interval_ms count s r in
        let (first, le, at_most) =
          reported-round_lines s r step.0 step.1
            (send_round-facts d sock addr interval_ms count s r) (omega arith) in
        joined-Adds s.total_sent step.0.total_sent
          (continue d sock addr interval_ms count
            (λ s'. send_loop d sock addr interval_ms count rs s') step).0
          (round_lines d sock addr interval_ms count s r step.0 step.1)
          (lines_on d sock addr interval_ms count
            (λ s'. loop_lines d sock addr interval_ms count rs s') step.0 step.1)
          first le
          (lines_on-Adds (λ s'. loop_lines d sock addr interval_ms count rs s')
            (λ s'. send_loop d sock addr interval_ms count rs s') step
            (loop_lines-Adds rs step.0 (omega arith))))
  ]

  -- The status lines of the send loop report every multiple of ten among the numbers of messages
  -- that it reaches, in order, and nothing else. For fewer messages than 2^64.
  pub loop_lines-reported :
      (rounds : List SendRound) (s : SendState Double)
      → s.total_sent + length rounds < 2 ^ 64
      → reported (loop_lines d sock addr interval_ms count rounds s)
        ≡ tens_between s.total_sent (send_loop d sock addr interval_ms count rounds s).0.total_sent
  loop_lines-reported rounds s fits = (loop_lines-Adds rounds s fits).0

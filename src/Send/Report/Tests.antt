-- ===== src/Send/Report/Tests.antt =====
-- Tests of what the sending program prints.
use auroralink.Prelude.{◌≡◌, refl, codes, List, [], ◌∷◌, replicate, true, arith}
use auroralink.Prelude.Int.{pos}
use auroralink.Send.Types.{SendRound}
use auroralink.Send.Loop.{send_loop}
use auroralink.Send.Main.{invalid_interval}
use auroralink.Send.Report.{usage, refusal, loop_lines, main_lines}
use auroralink.Send.Report.Status.{reported, tens_between, loop_lines-reported}
use auroralink.Send.Tests.{begun}
use auroralink.Samples.{
  sample_doubles, sample_resolver, sample_addr, sample_round, sample_sender_replies,
}

abbrev rounds : List SendRound
rounds = replicate 12 sample_round

loop_lines-reported_example :
    reported (loop_lines sample_doubles (pos 3) sample_addr 1000 0 rounds begun)
    ≡ tens_between begun.total_sent
        (send_loop sample_doubles (pos 3) sample_addr 1000 0 rounds begun).0.total_sent
loop_lines-reported_example =
    loop_lines-reported sample_doubles (pos 3) sample_addr 1000 0 rounds begun (omega arith)

ten_reported : tens_between 0 12 ≡ 10 ∷ []
ten_reported = refl

wrong_interval :
    main_lines sample_doubles sample_resolver sample_sender_replies true
      (codes "EgdSend")
      (codes "h" ∷ codes "1x" ∷ [])
    ≡ refusal (invalid_interval (codes "1x")) ∷ usage (codes "EgdSend") ∷ []
unfolding main_lines
wrong_interval = refl

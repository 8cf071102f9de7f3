-- ===== src/Send/Report.antt =====
-- EgdSend.c: what the program prints, a line or a block of lines with its values as one item. A
-- double stands as it is, before `%.3f` rounds it.
pub mod Status
mod Tests
use auroralink.Prelude.{
  ℕ, ◌+◌, ◌%◌, Text, codes, Bool, not, ◌&&◌, ◌||◌, Option, none, some, List, [], ◌∷◌, ◌++◌, ltb,
  ◌==◌, if◌then◌else◌,
}
use auroralink.Prelude.Int.{ℤ, pos, negsuc}
use auroralink.Client.Types.{SockAddr, Resolver}
use auroralink.Client.Connect.{is_socket_error}
use auroralink.Send.Types.{Timespec, DoubleArith, TimingStats, SendRound, SenderReplies}
use auroralink.Send.Clock.{timespec_diff_ms}
use auroralink.Send.Setup.{parse_address_string, setup_send_socket}
use auroralink.Send.Loop.{
  SendState, LoopEnd, reached_count, send_failed, interrupted, unfinished, send_round, send_loop,
  first_state,
}
use auroralink.Send.Main.{
  Refusal, invalid_interval, invalid_count, Command, show_usage, refused, send, read_arguments,
}

pub data Line (D : Type 0) : Type 0 where
  usage : Text → Line D
  refusal : Refusal → Line D
  interval_out_of_range : ℕ → Line D
  perror : Text → Line D
  could_not_resolve : Text → Line D
  starting : Text → ℕ → ℕ → Line D
  sent_messages : ℕ → ℕ → D → Line D
  reached_requested : ℕ → Line D
  timer_overrun : D → Line D
  shutdown_signal : Line D
  total_messages : ℕ → Line D
  timing_statistics : ℕ → ℕ → D → D → D → D → D → D → Line D
  sending_shutdown : Line D

module _ (d : DoubleArith) where
  open d use {Double, of_int, div, lt}

  -- Minimum, maximum and average of the send time, then of the jitter.
  unfoldable pub print_timing_stats : TimingStats Double → ℕ → List (Line Double)
  print_timing_stats s interval_ms =
      if s.samples == 0
      then []
      else timing_statistics s.samples interval_ms s.min_send_time_ms s.max_send_time_ms
          (div s.total_send_time_ms (of_int (pos s.samples))) s.min_jitter_ms s.max_jitter_ms
          (div s.total_jitter_ms (of_int (pos s.samples)))
        ∷ []

  -- Every tenth message, counted after the send.
  unfoldable pub status_line : SendState Double → SendRound → List (Line Double)
  unfolding timespec_diff_ms
  status_line s r =
      if s.total_sent % 10 == 0
      then sent_messages s.total_sent s.message.hdr.req_id
          (timespec_diff_ms d r.send_end r.send_start)
        ∷ []
      else []

  -- The warning compares the wake with the time that was scheduled for it.
  unfoldable pub overrun_line : ℕ → SendState Double → SendRound → List (Line Double)
  unfolding timespec_diff_ms
  overrun_line interval_ms s r =
      let jitter_ms = timespec_diff_ms d r.actual_wake s.next_wake_time in
      if lt (of_int (pos interval_ms)) jitter_ms then timer_overrun jitter_ms ∷ [] else []

  module _ (sock : ℤ) (addr : SockAddr) (interval_ms count : ℕ) where
    -- The lines of a round that leads from `s` to `s'`, by how it ends.
    unfoldable pub round_lines :
        SendState Double → SendRound → SendState Double → Option LoopEnd → List (Line Double)
    unfolding status_line overrun_line
    round_lines s r s' none = status_line s' r ++ overrun_line interval_ms s r
    round_lines s r s' (some reached_count) = status_line s' r ++ reached_requested count ∷ []
    round_lines s r s' (some send_failed) = perror (codes "sendto") ∷ []
    round_lines s r s' (some end) = status_line s' r

    abbrev pub lines_on :
        (SendState Double → List (Line Double))
        → SendState Double
        → Option LoopEnd
        → List (Line Double)
    lines_on loop s none = loop s
    lines_on loop s (some end) = []

    -- The lines of the rounds of `send_loop`.
    unfoldable pub loop_lines : List SendRound → SendState Double → List (Line Double)
    unfolding send_round round_lines
    loop_lines [] s = []
    loop_lines (r ∷ rs) s =
        let rest : SendState Double → List (Line Double) = loop_lines rs in
        let (s', end, call) = send_round d sock addr interval_ms count s r in
        if r.running then round_lines s r s' end ++ lines_on rest s' end else []

  -- Behind the loop. `running` is the flag that the signals clear, as it is read there.
  unfoldable pub finish_lines :
      SenderReplies → Bool → ℕ → SendState Double → LoopEnd → List (Line Double)
  unfolding print_timing_stats
  finish_lines replies running interval_ms s unfinished = []
  finish_lines replies running interval_ms s send_failed =
      (if running then [] else shutdown_signal ∷ [])
      ++ total_messages s.total_sent ∷ print_timing_stats s.stats interval_ms
  finish_lines replies running interval_ms s end =
      (if running then [] else shutdown_signal ∷ [])
      ++ total_messages s.total_sent ∷ print_timing_stats s.stats interval_ms
      ++ sending_shutdown
        ∷ (if is_socket_error replies.last_sendto_reply then perror (codes "sendto") ∷ [] else [])

  abbrev pub setup_lines : ℕ → List (Line Double)
  setup_lines status =
      if status == 1
      then perror (codes "socket") ∷ []
      else (if status == 2
          then perror (codes "bind") ∷ []
          else (if status == 3
              then perror (codes "setsockopt SO_BROADCAST") ∷ []
              else perror (codes "setsockopt SO_SNDBUF") ∷ []))

  module _ (resolver : Resolver) (replies : SenderReplies) (running : Bool) where
    unfoldable pub run_lines : ℤ → Option SockAddr → Text → ℕ → ℕ → List (Line Double)
    unfolding loop_lines send_loop first_state finish_lines
    run_lines sock none destination interval_ms count = could_not_resolve destination ∷ []
    run_lines sock (some addr) destination interval_ms count =
        let s = first_state d resolver replies interval_ms in
        let (s', end, calls) = send_loop d sock addr interval_ms count replies.rounds s in
        starting destination interval_ms count
          ∷ loop_lines sock addr interval_ms count replies.rounds s
        ++ finish_lines replies running interval_ms s' end

    -- The lines of `SenderExample`.
    unfoldable pub sender_lines : Text → ℕ → ℕ → List (Line Double)
    unfolding setup_send_socket parse_address_string run_lines
    sender_lines destination interval_ms count =
        let (sock, status, calls) = setup_send_socket replies in
        if ltb interval_ms 10 || ltb 60000 interval_ms
        then interval_out_of_range interval_ms ∷ []
        else (if not (status == 0)
            then setup_lines status
            else run_lines sock (parse_address_string resolver destination) destination interval_ms
                count)

    abbrev pub command_lines : Text → Command → List (Line Double)
    command_lines name show_usage = usage name ∷ []
    command_lines name (refused what) = refusal what ∷ usage name ∷ []
    command_lines name (send destination interval_ms count) =
        sender_lines destination interval_ms count

    -- The lines of `main`, which is called by `name`.
    unfoldable pub main_lines : Text → List Text → List (Line Double)
    unfolding read_arguments sender_lines
    main_lines name args = command_lines name (read_arguments args)

-- ===== src/Send/Loop.antt =====
-- EgdSend.c, `SenderExample`: the send loop as a recursion on the rounds that the system answers.
pub mod Sequence
pub mod Requests
pub mod Drift
pub mod Progress
pub mod Whole
use auroralink.Prelude.{
  ℕ, suc, ◌%◌, ◌^◌, Text, not, ◌&&◌, ◌||◌, Option, none, some, List, [], ◌∷◌, ◌++◌, replicate, ltb,
  leb, ◌==◌, if◌then◌else◌,
}
use auroralink.Prelude.Int.{ℤ, pos}
use auroralink.Client.Types.{SockAddr, Resolver}
use auroralink.Send.Types.{
  DataProductionMessage, Timespec, DoubleArith, TimingStats, SendRound, SenderReplies, SenderCall,
  closed, egd_max_data_size, egd_status_invalid,
}
use auroralink.Send.Clock.{
  timespec_add_ms, sleep_until, timespec_diff_ms, zero_stats, update_timing_stats,
}
use auroralink.Send.Message.{init_header, send_data_message, update_message_data}
use auroralink.Send.Setup.{parse_address_string, setup_send_socket, invalid_socket}

-- The variables of the loop.
pub record SendState (D : Type 0) : Type 0 where
  pub message : DataProductionMessage
  pub message_count : ℕ
  pub total_sent : ℕ
  pub stats : TimingStats D
  pub next_wake_time : Timespec

-- Why the loop was left; `unfinished` is where the given rounds end.
pub data LoopEnd : Type 0 where
  reached_count : LoopEnd
  send_failed : LoopEnd
  interrupted : LoopEnd
  unfinished : LoopEnd

abbrev pub data_size : ℕ
data_size = 50

-- A run of `SenderExample`: the descriptor in `*pSock`, the status and the calls, or the calls of
-- a loop that has not been left.
pub data SenderRun : Type 0 where
  finished : ℤ → ℕ → List SenderCall → SenderRun
  still_sending : List SenderCall → SenderRun

module _ (d : DoubleArith) (sock : ℤ) (addr : SockAddr) (interval_ms count : ℕ) where
  open d use {Double, of_int, lt}

  -- After a sleep that was not interrupted: the statistics, and the next time to wake.
  unfoldable pub wake : SendState Double → SendRound → SendState Double
  unfolding timespec_add_ms timespec_diff_ms update_timing_stats
  wake s r =
      let send_time_ms = timespec_diff_ms d r.send_end r.send_start in
      let jitter_ms = timespec_diff_ms d r.actual_wake s.next_wake_time in
      let stats = update_timing_stats d s.stats send_time_ms jitter_ms in
      record s {
        stats = stats;
        next_wake_time =
            if lt (of_int (pos interval_ms)) jitter_ms
            then timespec_add_ms r.reset_time interval_ms
            else timespec_add_ms s.next_wake_time interval_ms;
      }

  abbrev pub after_sleep :
      SendState Double → SendRound → Option ℕ → SendState Double × Option LoopEnd
  after_sleep s r none = (s, some unfinished)
  after_sleep s r (some status) = if status == 0 then (wake s r, none) else (s, some interrupted)

  -- What follows a send.
  unfoldable pub after_send :
      SendState Double → SendRound → DataProductionMessage → ℕ → SendState Double × Option LoopEnd
  unfolding sleep_until wake
  after_send s r message status =
      let s' = record s {
        message = message;
        message_count = suc s.message_count % 2 ^ 64;
        total_sent = suc s.total_sent % 2 ^ 64;
      } in
      if not (status == 0)
      then (record s { message = message }, some send_failed)
      else (if ltb 0 count && leb count s'.total_sent
          then (s', some reached_count)
          else after_sleep s' r (sleep_until r.sleep))

  -- One round: the state, why the loop is left if it is, and the call.
  unfoldable pub send_round :
      SendState Double → SendRound → SendState Double × Option LoopEnd × SenderCall
  unfolding update_message_data send_data_message after_send
  send_round s r =
      let (message, status, call) =
        send_data_message sock addr (update_message_data d s.message s.message_count) data_size
          r.now r.sendto_reply in
      let (s', end) = after_send s r message status in (s', end, call)

  abbrev pub continue :
      (SendState Double → SendState Double × LoopEnd × List SenderCall)
      → SendState Double × Option LoopEnd × SenderCall
      → SendState Double × LoopEnd × List SenderCall
  continue loop (s, none, call) = let (s', end, calls) = loop s in (s', end, call ∷ calls)
  continue loop (s, some end, call) = (s, end, call ∷ [])

  unfoldable pub send_loop :
      List SendRound → SendState Double → SendState Double × LoopEnd × List SenderCall
  unfolding send_round
  send_loop [] s = (s, unfinished, [])
  send_loop (r ∷ rs) s =
      let rest : SendState Double → SendState Double × LoopEnd × List SenderCall = send_loop rs in
      if r.running then continue rest (send_round s r) else (s, interrupted, [])

-- The message that tells of the shutdown.
abbrev pub shutdown_message : DataProductionMessage → DataProductionMessage
shutdown_message m = record m { hdr = record m.hdr { status = egd_status_invalid } }

module _ (d : DoubleArith) (resolver : Resolver) (replies : SenderReplies) where
  open d use {Double}

  -- The state that the loop starts with, for producer 42 and exchange 1.
  unfoldable pub first_state : ℕ → SendState Double
  unfolding init_header timespec_add_ms
  first_state interval_ms = record {
    message = record { hdr = init_header 42 1 0; payload = replicate egd_max_data_size 0 };
    message_count = 0;
    total_sent = 0;
    stats = zero_stats d;
    next_wake_time = timespec_add_ms replies.start interval_ms;
  }

  unfoldable pub shutdown_call : ℤ → SockAddr → DataProductionMessage → SenderCall
  unfolding send_data_message
  shutdown_call sock addr m =
      (send_data_message sock addr (shutdown_message m) data_size replies.last_now
        replies.last_sendto_reply).2

  unfoldable pub finish :
      ℤ → SockAddr → List SenderCall → SendState Double × LoopEnd × List SenderCall → SenderRun
  unfolding shutdown_call
  finish sock addr before (s, unfinished, calls) = still_sending (before ++ calls)
  finish sock addr before (s, send_failed, calls) =
      finished invalid_socket 1 (before ++ calls ++ closed sock ∷ [])
  finish sock addr before (s, end, calls) =
      finished invalid_socket 0
        (before ++ calls ++ shutdown_call sock addr s.message ∷ closed sock ∷ [])

  unfoldable pub run_loop : ℤ → List SenderCall → Option SockAddr → ℕ → ℕ → SenderRun
  unfolding send_loop first_state finish
  run_loop sock before none interval_ms count = finished sock 3 before
  run_loop sock before (some addr) interval_ms count =
      finish sock addr before
        (send_loop d sock addr interval_ms count replies.rounds (first_state interval_ms))

  -- `before_sock` is what `*pSock` holds at the call.
  unfoldable pub sender_example : ℤ → Text → ℕ → ℕ → SenderRun
  unfolding setup_send_socket parse_address_string run_loop
  sender_example before_sock destination interval_ms count =
      let (sock, status, calls) = setup_send_socket replies in
      if ltb interval_ms 10 || ltb 60000 interval_ms
      then finished before_sock 1 []
      else (if not (status == 0)
          then finished sock 2 calls
          else run_loop sock calls (parse_address_string resolver destination) interval_ms count)

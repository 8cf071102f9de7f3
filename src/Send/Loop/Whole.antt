-- ===== src/Send/Loop/Whole.antt =====
-- A run of `SenderExample` in which nothing goes wrong.
use auroralink.Prelude.{
  ℕ, ◌^◌, ◌≤◌, ◌<◌, ◌≡◌, refl, ap, ◌∙◌, Text, some, List, [], ◌∷◌, ◌++◌, length, All, arith,
  le→ltb_false,
}
use auroralink.Prelude.Int.{ℤ}
use auroralink.Client.Types.{SockAddr, Resolver}
use auroralink.Client.Publish.Requests.{counting}
use auroralink.Send.Types.{DataProductionMessage, DoubleArith, SenderReplies, SenderCall, closed}
use auroralink.Send.Message.{init_header}
use auroralink.Send.Setup.{parse_address_string, setup_send_socket, invalid_socket}
use auroralink.Send.Loop.{
  SendState, LoopEnd, reached_count, finished, send_loop, first_state, shutdown_call, finish,
  run_loop, sender_example,
}
use auroralink.Send.Loop.Requests.{sent_ids, send_loop-ids}
use auroralink.Send.Loop.Progress.{IsGood, send_loop-reaches}

module _ (d : DoubleArith) (resolver : Resolver) (replies : SenderReplies) where
  open d use {Double}

  finish-reached :
      (sock : ℤ) (addr : SockAddr) (before : List SenderCall) (s : SendState Double) (end : LoopEnd)
      (calls : List SenderCall)
      → end ≡ reached_count
      → finish d resolver replies sock addr before (s, end, calls)
        ≡ finished invalid_socket 0 (
            before
            ++ calls
            ++ shutdown_call d resolver replies sock addr s.message ∷ closed sock ∷ [])
  unfolding finish
  finish-reached sock addr before s end calls e = rw e refl

  -- For an interval from 10 to 60000, a socket that is set up, a destination that is found, a count
  -- that is not 0, and at least as many good rounds: `SenderExample` ends with the status 0 and no
  -- socket left; after the calls of the setup it makes one call for each message of the count,
  -- whose datagrams carry the request numbers from 0 on, then it sends the message of the
  -- shutdown and closes the socket.
  pub sender_example-sends :
      (before_sock : ℤ) (destination : Text) (interval_ms count : ℕ) (addr : SockAddr)
      → 10 ≤ interval_ms
      → interval_ms ≤ 60000
      → (setup_send_socket replies).1 ≡ 0
      → parse_address_string resolver destination ≡ some addr
      → 0 < count
      → count < 2 ^ 64
      → All IsGood replies.rounds
      → count ≤ length replies.rounds
      → let (sock, _, setup) = setup_send_socket replies in
        (calls : List SenderCall) × (last : DataProductionMessage) × (sender_example d resolver
            replies before_sock destination interval_ms count
          ≡ finished invalid_socket 0 (
              setup ++ calls ++ shutdown_call d resolver replies sock addr last ∷ closed sock ∷ []))
        × (length calls ≡ count)
        × (sent_ids calls ≡ counting 0 count)
  unfolding sender_example run_loop first_state init_header
  sender_example-sends before_sock destination interval_ms count addr low high up found some_count
        small good enough =
      let sock = (setup_send_socket replies).0 in
      let s = first_state d resolver replies interval_ms in
      let run = send_loop d sock addr interval_ms count replies.rounds s in
      let (end, _, calls) =
        send_loop-reaches d sock addr interval_ms count replies.rounds s some_count small good
          (omega arith) in
      let ids = send_loop-ids d sock addr interval_ms count replies.rounds s (omega arith) in
      (
        run.2,
        run.0.message,
        rw (le→ltb_false interval_ms 10 low, le→ltb_false 60000 interval_ms high, up, found)
            (finish-reached sock addr (setup_send_socket replies).2 run.0 run.1 run.2 end),
        omega (arith, calls),
        ids ∙ ap (counting 0) (omega (arith, calls)),
      )

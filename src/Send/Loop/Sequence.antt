-- ===== src/Send/Loop/Sequence.antt =====
-- What a round of the send loop counts, and the number of messages of the loop.
use auroralink.Prelude.{
  ℕ, suc, ◌%◌, ◌^◌, ◌≤◌, ◌<◌, ◌≡◌, refl, inl, inr, false, ◌&&◌, Option, none, some, List, [], ◌∷◌,
  ltb, leb, ◌==◌, arith, Bool-cases,
}
use auroralink.Prelude.Int.{ℤ}
use auroralink.Client.Types.{SockAddr}
use auroralink.Client.Connect.{is_socket_error}
use auroralink.Send.Types.{DataProductionMessage, Timespec, DoubleArith, SendRound, SenderCall}
use auroralink.Send.Clock.{sleep_until}
use auroralink.Send.Message.{send_data_message, update_message_data}
use auroralink.Send.Loop.{
  SendState, LoopEnd, reached_count, send_failed, interrupted, unfinished, wake, after_sleep,
  after_send, send_round, continue, send_loop, data_size,
}

module _ (d : DoubleArith) (sock : ℤ) (addr : SockAddr) (interval_ms count : ℕ) where
  open d use {Double}

  -- What one round does to the number of messages and to the request number, by how it ends.
  abbrev pub RoundFacts : SendState Double → SendState Double → Option LoopEnd → Type 0
  RoundFacts s s' none =
      (s'.total_sent ≡ suc s.total_sent % 2 ^ 64)
      × ((0 < count) → s'.total_sent < count)
      × (s'.message.hdr.req_id ≡ suc s.message.hdr.req_id % 2 ^ 16)
  RoundFacts s s' (some reached_count) =
      (s'.total_sent ≡ suc s.total_sent % 2 ^ 64) × (0 < count) × (count ≤ s'.total_sent)
  RoundFacts s s' (some send_failed) = s'.total_sent ≡ s.total_sent
  RoundFacts s s' (some end) =
      (s'.total_sent ≡ suc s.total_sent % 2 ^ 64) × ((0 < count) → s'.total_sent < count)

  below_count : (n : ℕ) → (ltb 0 count && leb count n) ≡ false → (0 < count) → n < count
  below_count n h k = ground arith

  after_sleep-facts :
      (s s1 : SendState Double) (r : SendRound) (o : Option ℕ)
      → s1.total_sent ≡ suc s.total_sent % 2 ^ 64
      → s1.message.hdr.req_id ≡ suc s.message.hdr.req_id % 2 ^ 16
      → ((0 < count) → s1.total_sent < count)
      → RoundFacts s
          (after_sleep d sock addr interval_ms count s1 r o).0
          (after_sleep d sock addr interval_ms count s1 r o).1
  unfolding wake
  after_sleep-facts s s1 r none total req below = (total, below)
  after_sleep-facts s s1 r (some status) total req below = elim (Bool-cases (status == 0)) [
    | inl woke ↦ rw woke (total, below, req)
    | inr stopped ↦ rw stopped (total, below)
  ]

  after_send-facts :
      (s : SendState Double) (r : SendRound) (m : DataProductionMessage) (status : ℕ)
      → ((status ≡ 0) → m.hdr.req_id ≡ suc s.message.hdr.req_id % 2 ^ 16)
      → RoundFacts s
          (after_send d sock addr interval_ms count s r m status).0
          (after_send d sock addr interval_ms count s r m status).1
  unfolding after_send
  after_send-facts s r m status req = elim (Bool-cases (status == 0)) [
    | inr failed ↦ rw failed refl
    | inl went ↦ rw went (elim (Bool-cases (ltb 0 count && leb count (suc s.total_sent % 2 ^ 64))) [
      | inl enough ↦ rw enough (refl, ground arith, ground arith)
      | inr more ↦ rw more (
          after_sleep-facts s _ r (sleep_until r.sleep) refl (req (ground arith))
            (below_count (suc s.total_sent % 2 ^ 64) more))
    ])
  ]

  send_data_message-req_id :
      (m : DataProductionMessage) (now : Timespec) (reply : ℤ)
      → ((send_data_message sock addr m data_size now reply).1 ≡ 0)
      → (send_data_message sock addr m data_size now reply).0.hdr.req_id ≡ suc m.hdr.req_id % 2 ^ 16
  unfolding send_data_message
  send_data_message-req_id m now reply e = elim (Bool-cases (is_socket_error reply)) [
    | inl failed ↦ let wrong = rw failed at e in absurd (omega arith)
    | inr went ↦ rw went refl
  ]

  pub send_round-facts :
      (s : SendState Double) (r : SendRound)
      → RoundFacts s
          (send_round d sock addr interval_ms count s r).0
          (send_round d sock addr interval_ms count s r).1
  unfolding send_round
  send_round-facts s r = after_send-facts s r _ _ (
      send_data_message-req_id (update_message_data d s.message s.message_count) r.now
        r.sendto_reply)

  -- The number of messages at the end of the loop, by why it was left.
  abbrev pub CountFacts : ℕ → LoopEnd → Type 0
  CountFacts total reached_count = total ≡ count
  CountFacts total end = total < count

  continue-count :
      (s : SendState Double)
      (loop : SendState Double → SendState Double × LoopEnd × List SenderCall)
      (step : SendState Double × Option LoopEnd × SenderCall)
      → 0 < count
      → s.total_sent < count
      → RoundFacts s step.0 step.1
      → ((s' : SendState Double)
          → s'.total_sent < count
          → CountFacts (loop s').0.total_sent (loop s').1)
      → CountFacts
          (continue d sock addr interval_ms count loop step).0.total_sent
          (continue d sock addr interval_ms count loop step).1
  continue-count s loop (s', none, call) counts below (_, next, _) k = k s' (next counts)
  continue-count s loop (s', some reached_count, call) counts below (total, _, enough) k =
      omega arith
  continue-count s loop (s', some send_failed, call) counts below total k = omega arith
  continue-count s loop (s', some interrupted, call) counts below (_, next) k = next counts
  continue-count s loop (s', some unfinished, call) counts below (_, next) k = next counts

  -- With a count that is not 0, a loop that starts below it has sent exactly that many messages
  -- where it ends by the count, and fewer wherever else it ends.
  pub send_loop-count :
      (rounds : List SendRound) (s : SendState Double)
      → 0 < count
      → s.total_sent < count
      → CountFacts
          (send_loop d sock addr interval_ms count rounds s).0.total_sent
          (send_loop d sock addr interval_ms count rounds s).1
  unfolding send_loop
  send_loop-count [] s counts below = below
  send_loop-count (r ∷ rs) s counts below = elim (Bool-cases r.running) [
    | inl running ↦ rw running (
        continue-count s (λ s'. send_loop d sock addr interval_ms count rs s')
          (send_round d sock addr interval_ms count s r) counts below (send_round-facts s r)
          (λ s' below'. send_loop-count rs s' counts below'))
    | inr stopped ↦ rw stopped below
  ]

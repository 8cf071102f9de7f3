-- ===== src/Send/Loop/Requests.antt =====
-- The request numbers of the datagrams of the send loop.
use auroralink.Prelude.{
  ℕ, ◌+◌, ◌%◌, ◌^◌, ◌<◌, ◌≡◌, refl, ap, ◌∙◌, inl, inr, Option, none, some, List, [], ◌∷◌, length,
  arith, Bool-cases,
}
use auroralink.Prelude.Int.{ℤ}
use auroralink.Client.Types.{SockAddr}
use auroralink.Client.Connect.{is_socket_error}
use auroralink.Send.Types.{
  DataProductionMessage, Timespec, DoubleArith, SendRound, SenderCall, sent,
}
use auroralink.Bytes.{word_at, le_bytes, of_le_bytes}
use auroralink.Client.Publish.Requests.{counting, counting_wraps}
use auroralink.Send.Message.{header_bytes, send_data_message, update_message_data}
use auroralink.Send.Loop.{SendState, LoopEnd, send_round, continue, send_loop, data_size}
use auroralink.Send.Loop.Sequence.{RoundFacts, send_round-facts}

-- The request numbers in the datagrams of some calls, in order.
abbrev pub sent_ids : List SenderCall → List ℕ
sent_ids [] = []
sent_ids (sent fd bytes to ∷ calls) = word_at bytes 2 2 ∷ sent_ids calls
sent_ids (call ∷ calls) = sent_ids calls

module _ (d : DoubleArith) (sock : ℤ) (addr : SockAddr) (interval_ms count : ℕ) where
  open d use {Double}

  send_call-ids :
      (m : DataProductionMessage) (now : Timespec) (reply : ℤ) (calls : List SenderCall)
      → m.hdr.req_id < 2 ^ 16
      → sent_ids ((send_data_message sock addr m data_size now reply).2 ∷ calls)
        ≡ (m.hdr.req_id % 2 ^ 16) ∷ sent_ids calls
  unfolding send_data_message header_bytes word_at le_bytes of_le_bytes
  send_call-ids m now reply calls small = elim (Bool-cases (is_socket_error reply)) [
    | inl failed ↦ rw failed (ap (λ (n : ℕ). n ∷ sent_ids calls) (omega arith))
    | inr went ↦ rw went (ap (λ (n : ℕ). n ∷ sent_ids calls) (omega arith))
  ]

  round-ids :
      (s : SendState Double) (r : SendRound) (calls : List SenderCall)
      → s.message.hdr.req_id < 2 ^ 16
      → sent_ids ((send_round d sock addr interval_ms count s r).2 ∷ calls)
        ≡ (s.message.hdr.req_id % 2 ^ 16) ∷ sent_ids calls
  unfolding send_round
  round-ids s r calls small =
      send_call-ids (update_message_data d s.message s.message_count) r.now r.sendto_reply calls
        small

  continue-ids :
      (s : SendState Double)
      (loop : SendState Double → SendState Double × LoopEnd × List SenderCall)
      (step : SendState Double × Option LoopEnd × SenderCall)
      → RoundFacts d sock addr interval_ms count s step.0 step.1
      → ((calls : List SenderCall)
          → sent_ids (step.2 ∷ calls) ≡ (s.message.hdr.req_id % 2 ^ 16) ∷ sent_ids calls)
      → ((s' : SendState Double)
          → s'.message.hdr.req_id < 2 ^ 16
          → sent_ids (loop s').2 ≡ counting s'.message.hdr.req_id (length (loop s').2))
      → sent_ids (continue d sock addr interval_ms count loop step).2
        ≡ counting s.message.hdr.req_id
            (length (continue d sock addr interval_ms count loop step).2)
  continue-ids s loop (s', none, call) facts first k =
      first (loop s').2
      ∙ ap (λ (ids : List ℕ). (s.message.hdr.req_id % 2 ^ 16) ∷ ids)
          (k s' (omega (arith, facts.2))
            ∙ counting_wraps s'.message.hdr.req_id (s.message.hdr.req_id + 1) (length (loop s').2)
                (omega (arith, facts.2)))
  continue-ids s loop (s', some end, call) facts first k = first []

  -- The datagrams that the loop sends carry consecutive request numbers, modulo 2 ^ 16, from that
  -- of the message it starts with.
  pub send_loop-ids :
      (rounds : List SendRound) (s : SendState Double)
      → s.message.hdr.req_id < 2 ^ 16
      → sent_ids (send_loop d sock addr interval_ms count rounds s).2
        ≡ counting s.message.hdr.req_id
            (length (send_loop d sock addr interval_ms count rounds s).2)
  unfolding send_loop
  send_loop-ids [] s small = refl
  send_loop-ids (r ∷ rs) s small = elim (Bool-cases r.running) [
    | inl running ↦ rw running (
        continue-ids s (λ s'. send_loop d sock addr interval_ms count rs s')
          (send_round d sock addr interval_ms count s r)
          (send_round-facts d sock addr interval_ms count s r) (λ calls. round-ids s r calls small)
          (λ s' small'. send_loop-ids rs s' small'))
    | inr stopped ↦ rw stopped refl
  ]

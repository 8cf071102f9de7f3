-- ===== src/Send/Main/Sockets.antt =====
-- The sockets in the calls of the program: those of one send, and of the send loop.
use auroralink.Prelude.{
  ℕ, zero, suc, ◌≡◌, refl, ap, sym, ◌∙◌, ◌⊎◌, true, false, Option, none, some, List, [], ◌∷◌, ◌++◌,
  if◌then◌else◌, Bool-cases, inl, inr,
}
use auroralink.Prelude.Int.{ℤ, pos, negsuc}
use auroralink.Client.Types.{SockAddr}
use auroralink.Client.Connect.{is_socket_error}
use auroralink.Send.Types.{
  DataProductionMessage, Timespec, DoubleArith, SendRound, SenderCall, opened, closed,
}
use auroralink.Send.Message.{send_data_message, update_message_data}
use auroralink.Send.Loop.{SendState, LoopEnd, data_size, send_loop, send_round, continue}
use auroralink.Send.Main.{is_valid_socket}

-- The sockets that some calls open, and those they close, in order.
abbrev pub opened_sockets : List SenderCall → List ℤ
opened_sockets [] = []
opened_sockets (opened fd ∷ calls) =
    if is_valid_socket fd then fd ∷ opened_sockets calls else opened_sockets calls
opened_sockets (call ∷ calls) = opened_sockets calls

abbrev pub closed_sockets : List SenderCall → List ℤ
closed_sockets [] = []
closed_sockets (closed fd ∷ calls) = fd ∷ closed_sockets calls
closed_sockets (call ∷ calls) = closed_sockets calls

pub opened_sockets-append :
    (xs ys : List SenderCall) → opened_sockets (xs ++ ys) ≡ opened_sockets xs ++ opened_sockets ys
opened_sockets-append [] ys = refl
opened_sockets-append (opened fd ∷ xs) ys = elim (Bool-cases (is_valid_socket fd)) [
  | inl valid ↦ rw valid (ap (λ (l : List ℤ). fd ∷ l) (opened_sockets-append xs ys))
  | inr failed ↦ rw failed (opened_sockets-append xs ys)
]
opened_sockets-append (call ∷ xs) ys = opened_sockets-append xs ys

pub closed_sockets-append :
    (xs ys : List SenderCall) → closed_sockets (xs ++ ys) ≡ closed_sockets xs ++ closed_sockets ys
closed_sockets-append [] ys = refl
closed_sockets-append (closed fd ∷ xs) ys =
    ap (λ (l : List ℤ). fd ∷ l) (closed_sockets-append xs ys)
closed_sockets-append (call ∷ xs) ys = closed_sockets-append xs ys

-- Calls that open and close nothing.
abbrev pub IsNeutral : List SenderCall → Type 0
IsNeutral calls = (opened_sockets calls ≡ []) × (closed_sockets calls ≡ [])

pub send_data_message-IsNeutral :
    (sock : ℤ) (addr : SockAddr) (m : DataProductionMessage) (size : ℕ) (now : Timespec) (reply : ℤ)
    → IsNeutral ((send_data_message sock addr m size now reply).2 ∷ [])
unfolding send_data_message
send_data_message-IsNeutral sock addr m size now reply = elim (Bool-cases (is_socket_error reply)) [
  | inl failed ↦ rw failed (refl, refl)
  | inr went ↦ rw went (refl, refl)
]

IsNeutral-cons :
    (call : SenderCall) (calls : List SenderCall)
    → IsNeutral (call ∷ [])
    → IsNeutral calls
    → IsNeutral (call ∷ calls)
IsNeutral-cons call calls (no_open, no_close) (rest_open, rest_close) = (
  opened_sockets-append (call ∷ []) calls ∙ rw (no_open, rest_open) refl,
  closed_sockets-append (call ∷ []) calls ∙ rw (no_close, rest_close) refl,
)

module _ (d : DoubleArith) (sock : ℤ) (addr : SockAddr) (interval_ms count : ℕ) where
  open d use {Double}

  continue-IsNeutral :
      (loop : SendState Double → SendState Double × LoopEnd × List SenderCall)
      (step : SendState Double × Option LoopEnd × SenderCall)
      → IsNeutral (step.2 ∷ [])
      → ((s : SendState Double) → IsNeutral (loop s).2)
      → IsNeutral (continue d sock addr interval_ms count loop step).2
  continue-IsNeutral loop (s, none, call) h k = IsNeutral-cons call (loop s).2 h (k s)
  continue-IsNeutral loop (s, some end, call) h k = h

  pub send_loop-IsNeutral :
      (rounds : List SendRound) (s : SendState Double)
      → IsNeutral (send_loop d sock addr interval_ms count rounds s).2
  unfolding send_loop send_round
  send_loop-IsNeutral [] s = (refl, refl)
  send_loop-IsNeutral (r ∷ rs) s = elim (Bool-cases r.running) [
    | inl running ↦ rw running (
        continue-IsNeutral (λ s'. send_loop d sock addr interval_ms count rs s')
          (send_round d sock addr interval_ms count s r)
          (send_data_message-IsNeutral sock addr (update_message_data d s.message s.message_count)
            data_size r.now r.sendto_reply)
          (λ s'. send_loop-IsNeutral rs s'))
    | inr stopped ↦ rw stopped (refl, refl)
  ]

pub balance :
    (before calls tail : List SenderCall) (sock : ℤ)
    → closed_sockets before ≡ []
    → opened_sockets before ≡ sock ∷ []
    → IsNeutral calls
    → closed_sockets tail ≡ sock ∷ []
    → opened_sockets tail ≡ []
    → closed_sockets (before ++ calls ++ tail) ≡ opened_sockets (before ++ calls ++ tail)
balance before calls tail sock no_close is_open (no_open, no_close') closes opens_none =
    let closes_one : closed_sockets (before ++ calls ++ tail) ≡ sock ∷ [] =
      closed_sockets-append (before ++ calls) tail
      ∙ rw (closed_sockets-append before calls, no_close, no_close', closes) refl in
    let opens_one : opened_sockets (before ++ calls ++ tail) ≡ sock ∷ [] =
      opened_sockets-append (before ++ calls) tail
      ∙ rw (opened_sockets-append before calls, is_open, no_open, opens_none) refl in
    closes_one ∙ sym opens_one

pub error_or_valid :
    (fd : ℤ)
    → ((is_socket_error fd ≡ true) × (is_valid_socket fd ≡ false))
      ⊎ ((is_socket_error fd ≡ false) × (is_valid_socket fd ≡ true))
unfolding is_socket_error
error_or_valid (negsuc zero) = inl (refl, refl)
error_or_valid (negsuc (suc n)) = inr (refl, refl)
error_or_valid (pos n) = inr (refl, refl)

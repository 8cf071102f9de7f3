-- ===== src/Send/Main/Closing.antt =====
-- The program closes the sockets that it opens.
use auroralink.Prelude.{
  ℕ, ◌≡◌, refl, ap, sym, subst, ◌∙◌, Text, true, Option, none, some, List, [], ◌∷◌, if◌then◌else◌,
  ltb, ◌||◌, ◌==◌, arith, Bool-cases, inl, inr,
}
use auroralink.Prelude.Int.{ℤ}
use auroralink.Client.Types.{SockAddr, Resolver}
use auroralink.Client.Connect.{is_socket_error}
use auroralink.Send.Types.{DoubleArith, SenderReplies, SenderCall, closed}
use auroralink.Send.Setup.{setup_send_socket, parse_address_string, is_nonzero, invalid_socket}
use auroralink.Send.Loop.{
  SendState, LoopEnd, data_size, send_failed, unfinished, send_loop, finish, run_loop, first_state,
  sender_example, SenderRun, finished, still_sending, shutdown_call, shutdown_message,
}
use auroralink.Send.Main.{
  main, run_command, close_left, is_valid_socket, read_arguments, Command, show_usage, refused,
  send,
}
use auroralink.Send.Main.Sockets.{
  opened_sockets, closed_sockets, opened_sockets-append, closed_sockets-append, IsNeutral,
  send_data_message-IsNeutral, send_loop-IsNeutral, balance, error_or_valid,
}

module _ (d : DoubleArith) (resolver : Resolver) (replies : SenderReplies) where
  open d use {Double}

  -- What a run owes: a finished one has closed what it opened, but for the socket it leaves.
  abbrev Settles : SenderRun → Type 0
  Settles (finished sock result calls) =
      closed_sockets (close_left (finished sock result calls)).1
      ≡ opened_sockets (close_left (finished sock result calls)).1
  Settles (still_sending calls) = Unit

  finish-Settles :
      (sock : ℤ) (addr : SockAddr) (before : List SenderCall)
      (result : SendState Double × LoopEnd × List SenderCall)
      → closed_sockets before ≡ []
      → opened_sockets before ≡ sock ∷ []
      → IsNeutral result.2
      → Settles (finish d resolver replies sock addr before result)
  unfolding finish close_left
  finish-Settles sock addr before (s, unfinished, calls) no_close is_open neutral = tt
  finish-Settles sock addr before (s, send_failed, calls) no_close is_open neutral =
      balance before calls (closed sock ∷ []) sock no_close is_open neutral refl refl
  finish-Settles sock addr before (s, end, calls) no_close is_open neutral =
      let (none_opened, none_closed) =
        send_data_message-IsNeutral sock addr (shutdown_message s.message) data_size
          replies.last_now replies.last_sendto_reply in
      balance before calls (shutdown_call d resolver replies sock addr s.message ∷ closed sock ∷ [])
        sock no_close is_open neutral
        (unfold shutdown_call in
          closed_sockets-append (shutdown_call d resolver replies sock addr s.message ∷ [])
            (closed sock ∷ [])
          ∙ rw none_closed refl)
        (unfold shutdown_call in
          opened_sockets-append (shutdown_call d resolver replies sock addr s.message ∷ [])
            (closed sock ∷ [])
          ∙ rw none_opened refl)

  -- The socket is open exactly where the descriptor is one.
  setup-sockets :
      (closed_sockets (setup_send_socket replies).2 ≡ [])
      × (opened_sockets (setup_send_socket replies).2 ≡ (
          if is_valid_socket (setup_send_socket replies).0
          then (setup_send_socket replies).0 ∷ []
          else []))
      × ((setup_send_socket replies).1 ≡ 0 → is_valid_socket (setup_send_socket replies).0 ≡ true)
  unfolding setup_send_socket
  setup-sockets = elim (error_or_valid replies.socket_reply) [
    | inl (error, failed) ↦ rw (error, failed) (refl, refl, λ h. absurd (omega arith))
    | inr (error, valid) ↦ rw error (elim (Bool-cases (is_socket_error replies.bind_reply)) [
      | inl unbound ↦ rw (unbound, valid) (refl, refl, λ h. refl)
      | inr is_bound ↦ rw is_bound (elim (Bool-cases (is_nonzero replies.broadcast_reply)) [
        | inl refusal ↦ rw (refusal, valid) (refl, refl, λ h. refl)
        | inr accepted ↦ rw accepted (elim (Bool-cases (is_nonzero replies.sndbuf_reply)) [
          | inl refusal ↦ rw (refusal, valid) (refl, refl, λ h. refl)
          | inr sized ↦ rw (sized, valid) (refl, refl, λ h. refl)
        ])
      ])
    ])
  ]

  -- A run that ends before the loop.
  early-Settles :
      (sock : ℤ) (result : ℕ) (calls : List SenderCall)
      → closed_sockets calls ≡ []
      → opened_sockets calls ≡ (if is_valid_socket sock then sock ∷ [] else [])
      → Settles (finished sock result calls)
  unfolding close_left
  early-Settles sock result calls no_close is_open = elim (Bool-cases (is_valid_socket sock)) [
    | inl valid ↦ rw valid (
        closed_sockets-append calls (closed sock ∷ [])
        ∙ rw no_close
            (sym (opened_sockets-append calls (closed sock ∷ []) ∙ rw (is_open, valid) refl)))
    | inr none_left ↦ rw none_left (no_close ∙ sym (is_open ∙ rw none_left refl))
  ]

  run_loop-Settles :
      (sock : ℤ) (before : List SenderCall) (addr : Option SockAddr) (interval_ms count : ℕ)
      → is_valid_socket sock ≡ true
      → closed_sockets before ≡ []
      → opened_sockets before ≡ (if is_valid_socket sock then sock ∷ [] else [])
      → Settles (run_loop d resolver replies sock before addr interval_ms count)
  unfolding run_loop
  run_loop-Settles sock before none interval_ms count valid no_close is_open =
      early-Settles sock 3 before no_close is_open
  run_loop-Settles sock before (some addr) interval_ms count valid no_close is_open =
      finish-Settles sock addr before
        (send_loop d sock addr interval_ms count replies.rounds
          (first_state d resolver replies interval_ms))
        no_close (is_open ∙ rw valid refl)
        (send_loop-IsNeutral d sock addr interval_ms count replies.rounds
          (first_state d resolver replies interval_ms))

  sender_example-Settles :
      (destination : Text) (interval_ms count : ℕ)
      → Settles (sender_example d resolver replies invalid_socket destination interval_ms count)
  unfolding sender_example
  sender_example-Settles destination interval_ms count =
      let (no_close, is_open, valid) = setup-sockets in
      elim (Bool-cases (ltb interval_ms 10 || ltb 60000 interval_ms)) [
        | inl out_of_range ↦ rw out_of_range (early-Settles invalid_socket 1 [] refl refl)
        | inr in_range ↦ rw in_range (elim (Bool-cases ((setup_send_socket replies).1 == 0)) [
          | inr failed ↦ rw failed (
              early-Settles (setup_send_socket replies).0 2 (setup_send_socket replies).2 no_close
                is_open)
          | inl went ↦ rw went (
              run_loop-Settles (setup_send_socket replies).0 (setup_send_socket replies).2
                (parse_address_string resolver destination) interval_ms count (valid (ground arith))
                no_close is_open)
        ])
      ]

  close_left-closes :
      (run : SenderRun) (result : ℕ) (calls : List SenderCall)
      → Settles run
      → close_left run ≡ (some result, calls)
      → closed_sockets calls ≡ opened_sockets calls
  unfolding close_left
  close_left-closes (finished sock status done_calls) result calls h e =
      let same = ap (λ (p : Option ℕ × List SenderCall). p.1) e in
      subst (λ (c : List SenderCall). closed_sockets c ≡ opened_sockets c) same h
  close_left-closes (still_sending sent_calls) result calls h e =
      let wrong = ap (λ (p : Option ℕ × List SenderCall). p.0) e in cc

  run_command-closes :
      (command : Command) (result : ℕ) (calls : List SenderCall)
      → run_command d resolver replies command ≡ (some result, calls)
      → closed_sockets calls ≡ opened_sockets calls
  unfolding run_command
  run_command-closes show_usage result calls e =
      let same = ap (λ (p : Option ℕ × List SenderCall). p.1) e in
      subst (λ (c : List SenderCall). closed_sockets c ≡ opened_sockets c) same refl
  run_command-closes (refused what) result calls e =
      let same = ap (λ (p : Option ℕ × List SenderCall). p.1) e in
      subst (λ (c : List SenderCall). closed_sockets c ≡ opened_sockets c) same refl
  run_command-closes (send destination interval_ms count) result calls e =
      close_left-closes
        (sender_example d resolver replies invalid_socket destination interval_ms count) result
        calls (sender_example-Settles destination interval_ms count) e

  -- When the program ends, it has closed exactly the sockets that it opened, on every path: with
  -- the usage shown, an argument refused, a call of the set-up or a send failed, or the loop left.
  pub main_closes :
      (args : List Text) (result : ℕ) (calls : List SenderCall)
      → main d resolver replies args ≡ (some result, calls)
      → closed_sockets calls ≡ opened_sockets calls
  unfolding main
  main_closes args result calls e = run_command-closes (read_arguments args) result calls e

-- ===== src/Client/Publish/Outcomes.antt =====
-- The status of a publish and what it leaves behind on each of its failures.
use auroralink.Prelude.{
  ℕ, ◌^◌, ◌≤◌, ◌<◌, ◌≡◌, refl, ◌≢◌, ◌⊎◌, inl, inr, Text, List, [], ◌∷◌, ◌++◌, some, length,
  Option-cases, Bool-cases, arith, ltb, ltb→lt,
}
use auroralink.Prelude.Int.{pos, negsuc}
use auroralink.Prelude.Eq.{nat_eq, text_eq, pair_eq}
use auroralink.Prelude.Assoc.{find, assign}
use auroralink.Status.{
  EgdStatus, ok, err_publish, err_message_too_large, err_broadcast, err_invalid_socket,
  err_invalid_address,
}
use auroralink.Spec.{max_egd_payload, message_size}
use auroralink.Config.Types.{EgdPageInfo}
use auroralink.Client.Types.{
  EgdConnectionInfo, EgdPubInfo, EgdClient, Resolver, Replies, SystemCall, open_socket,
  set_broadcast,
}
use auroralink.Client.Connect.{publish_connect}
use auroralink.Client.Address.{get_addr}
use auroralink.Client.Publish.{new_pub_info, send_message, send_status, connect_and_send, publish}
use auroralink.Client.Publish.Requests.{key_of, sent_requests}

-- An answer below 0 becomes a large `size_t`, so `sendto` failing counts as success.
send_status_negative : (n : ℕ) → n < 2 ^ 63 → send_status (negsuc n) ≡ ok
unfolding send_status
send_status_negative n h = ground arith

-- Only an answer from 0 to 1431 is reported.
pub send_status_short :
    (n : ℕ) → n < 2 ^ 63 → (send_status (pos n) ≡ err_publish) ⊎ (message_size ≤ n)
unfolding send_status
send_status_short n h = ground arith

get_addr_status :
    (r : Resolver) (h : Text) (p : ℕ)
    → ((get_addr r h p).1 ≡ ok) ⊎ ((get_addr r h p).1 ≡ err_invalid_address)
unfolding get_addr
get_addr_status r h p = ground arith

-- The ways in which connecting can end, each with the calls that it has made.
pub publish_connect_cases :
    (r : Resolver) (s : Replies) (h : Text) (p : ℕ) (info : EgdConnectionInfo)
    → let (i, status, calls) = publish_connect r s h p info in
      ((status ≡ err_invalid_address) × (calls ≡ []))
      ⊎ ((status ≡ err_invalid_socket)
          × (s.socket_reply ≡ pos 0)
          × (calls ≡ open_socket s.socket_reply ∷ []))
      ⊎ ((status ≡ err_broadcast)
          × (s.setsockopt_reply ≢ pos 0)
          × (calls ≡ open_socket s.socket_reply ∷ set_broadcast s.socket_reply ∷ []))
      ⊎ ((status ≡ ok)
          × (i.socket ≡ s.socket_reply)
          × (s.socket_reply ≢ pos 0)
          × (s.setsockopt_reply ≡ pos 0)
          × (calls ≡ open_socket s.socket_reply ∷ set_broadcast s.socket_reply ∷ []))
unfolding publish_connect
publish_connect_cases r s h p info = ground (arith, get_addr_status r h p)

-- A connection that is refused: its status and its calls, which close no socket.
abbrev pub RefusedConnect : Replies → EgdStatus → List SystemCall → Type 0
RefusedConnect s status calls =
    ((status ≡ err_invalid_address) × (calls ≡ []))
    ⊎ ((status ≡ err_invalid_socket)
        × (s.socket_reply ≡ pos 0)
        × (calls ≡ open_socket s.socket_reply ∷ []))
    ⊎ ((status ≡ err_broadcast)
        × (s.setsockopt_reply ≢ pos 0)
        × (calls ≡ open_socket s.socket_reply ∷ set_broadcast s.socket_reply ∷ []))

module _ (r : Resolver) (s : Replies) (c : EgdClient) (h : Text) (p : ℕ) (page : EgdPageInfo)
    (bytes : List ℕ) where
  abbrev after_connect :
      EgdClient → EgdPubInfo → List SystemCall → EgdClient × EgdStatus × List SystemCall
  after_connect c₁ info calls =
      let (c₂, status, sent) = send_message s c₁ (key_of r h p page) info page bytes in
      (c₂, status, calls ++ sent)

  connect_and_send_cases :
      ((status : EgdStatus) × (calls : List SystemCall) × (connect_and_send r s c
            (key_of r h p page)
            page
            bytes
          ≡ (c, status, calls))
        × RefusedConnect s status calls)
      ⊎ ((c₁ : EgdClient) × (info : EgdPubInfo) × (calls : List SystemCall) × (connect_and_send r s
              c
              (key_of r h p page)
              page
              bytes
            ≡ after_connect c₁ info calls)
          × (s.socket_reply ≢ pos 0)
          × (calls ≡ open_socket s.socket_reply ∷ set_broadcast s.socket_reply ∷ []))
  unfolding connect_and_send
  connect_and_send_cases =
      let k = publish_connect r s h p new_pub_info.connection in
      let info = record new_pub_info { connection = k.0 } in
      let c₁ = record c { publisher_map = assign (key_of r h p page) info c.publisher_map } in
      elim (publish_connect_cases r s h p new_pub_info.connection) [
        | inl (e, f) ↦ inl (k.1, k.2, rw e, inl (e, f))
        | inr (inl (e, f, g)) ↦ inl (k.1, k.2, rw e, inr (inl (e, f, g)))
        | inr (inr (inl (e, f, g))) ↦ inl (k.1, k.2, rw e, inr (inr (e, f, g)))
        | inr (inr (inr (e, _, f, _, g))) ↦ inr (c₁, info, k.2, rw e, f, g)
      ]

  -- Every way in which a publish can go.
  pub publish_cases :
      ((max_egd_payload < length bytes)
        × (publish r s c h p page bytes ≡ (c, err_message_too_large, [])))
      ⊎ ((info : EgdPubInfo) × (find (key_of r h p page) c.publisher_map ≡ some info)
          × (publish r s c h p page bytes ≡ send_message s c (key_of r h p page) info page bytes))
      ⊎ ((status : EgdStatus) × (calls : List SystemCall) × (publish r s c h p page bytes
            ≡ (c, status, calls))
          × RefusedConnect s status calls)
      ⊎ ((c₁ : EgdClient) × (info : EgdPubInfo) × (calls : List SystemCall) × (publish r s c h p
              page bytes
            ≡ after_connect c₁ info calls)
          × (s.socket_reply ≢ pos 0)
          × (calls ≡ open_socket s.socket_reply ∷ set_broadcast s.socket_reply ∷ []))
  unfolding publish
  publish_cases = elim (Bool-cases (ltb max_egd_payload (length bytes))) [
    | inl large ↦ inl (ltb→lt _ _ large, rw large)
    | inr small ↦ elim (Option-cases (find (key_of r h p page) c.publisher_map)) [
      | inr (info, known) ↦ inr (inl (info, known, rw (small, publish) (rw (known, publish))))
      | inl unknown ↦
          rw (small, publish)
            (rw (unknown, publish)
              (elim connect_and_send_cases [
                | inl (status, calls, e, why) ↦ inr (inr (inl (status, calls, e, why)))
                | inr (c₁, info, calls, e, f, g) ↦ inr (inr (inr (c₁, info, calls, e, f, g)))
              ]))
    ]
  ]

  -- If `sendto` answers with a negative number of 64 bits, the status is not `err_publish`, whatever
  -- the state of the client.
  pub failed_send_unreported :
      (n : ℕ)
      → n < 2 ^ 63
      → s.sendto_reply ≡ negsuc n
      → (publish r s c h p page bytes).1 ≢ err_publish
  unfolding send_message
  failed_send_unreported n small failed =
      let good = send_status_negative n small in
      elim publish_cases [
        | inl (_, e) ↦ rw e (λ q. cc)
        | inr (inl (info, _, e)) ↦ rw e (rw failed (rw good (λ q. cc)))
        | inr (inr (inl (status, calls, e, why))) ↦ rw e (λ q. ground arith)
        | inr (inr (inr (c₁, info, calls, e, _, _))) ↦ rw e (rw failed (rw good (λ q. cc)))
      ]

  -- A publish that ends with neither `ok` nor `err_publish` leaves the client as it was and sends
  -- nothing.
  pub publish_refused :
      (publish r s c h p page bytes).1 ≢ ok
      → (publish r s c h p page bytes).1 ≢ err_publish
      → ((publish r s c h p page bytes).0 ≡ c)
        × (sent_requests (publish r s c h p page bytes).2 ≡ [])
  unfolding send_message send_status
  publish_refused not_ok not_sent = elim publish_cases [
    | inl (_, e) ↦ rw e (refl, refl)
    | inr (inl (info, _, e)) ↦ absurd (ground arith)
    | inr (inr (inl (status, calls, e, why))) ↦ rw e (refl, ground arith)
    | inr (inr (inr (c₁, info, calls, e, _, _))) ↦ absurd (ground arith)
  ]

  -- A publish that ends with `err_broadcast` leaves the client as it was, and its only calls open a
  -- socket and set its broadcast option: the socket is neither kept nor closed.
  pub refused_broadcast_leaks :
      (publish r s c h p page bytes).1 ≡ err_broadcast
      → ((publish r s c h p page bytes).0 ≡ c)
        × ((publish r s c h p page bytes).2
            ≡ open_socket s.socket_reply ∷ set_broadcast s.socket_reply ∷ [])
  unfolding send_message send_status
  refused_broadcast_leaks refused = elim publish_cases [
    | inl (_, e) ↦ absurd (ground arith)
    | inr (inl (info, _, e)) ↦ absurd (ground arith)
    | inr (inr (inl (status, calls, e, why))) ↦ ground arith
    | inr (inr (inr (c₁, info, calls, e, _, _))) ↦ absurd (ground arith)
  ]

  -- A publish ends with `err_invalid_socket` only if `socket` answers with descriptor 0.
  pub invalid_socket_is_zero :
      (publish r s c h p page bytes).1 ≡ err_invalid_socket → s.socket_reply ≡ pos 0
  unfolding send_message send_status
  invalid_socket_is_zero refused = elim publish_cases [
    | inl (_, e) ↦ absurd (ground arith)
    | inr (inl (info, _, e)) ↦ absurd (ground arith)
    | inr (inr (inl (status, calls, e, why))) ↦ ground arith
    | inr (inr (inr (c₁, info, calls, e, _, _))) ↦ absurd (ground arith)
  ]

-- ===== src/Client/Publish/Requests.antt =====
-- The request numbers of the datagrams of one publisher.
use auroralink.Prelude.{
  ℕ, zero, suc, ◌+◌, ◌-◌, ◌<◌, ◌==◌, ◌⊎◌, inl, inr, Bool-cases, ◌%◌, ◌^◌, ◌≤◌, ◌≡◌, refl, ap, ◌∙◌,
  Text, List, [], ◌∷◌, ◌++◌, some, length, All, arith, le→ltb_false,
}
use auroralink.Prelude.Eq.{nat_eq, text_eq, pair_eq}
use auroralink.Prelude.Assoc.{find, find-assign, beq_self}
use auroralink.Spec.{read_message, max_egd_payload}
use auroralink.Spec.Layout.{read_message-message_bytes}
use auroralink.Config.Types.{EgdPageInfo}
use auroralink.Client.Types.{
  EgdPubInfo, EgdPubKey, EgdClient, Resolver, Replies, SystemCall, send_to,
}
use auroralink.Client.Publish.{make_message, next_request, send_message, publish}
use auroralink.Client.Publish.Datagram.{IsPage, make_message-IsMessage}

-- The request numbers in the datagrams of some calls, in order.
abbrev pub sent_requests : List SystemCall → List ℕ
sent_requests [] = []
sent_requests (send_to fd bytes addr ∷ calls) =
    (read_message bytes).hdr.req_id ∷ sent_requests calls
sent_requests (call ∷ calls) = sent_requests calls

-- `n` numbers from `r` on, each a WORD.
abbrev pub counting : ℕ → ℕ → List ℕ
counting r zero = []
counting r (suc n) = (r % 2 ^ 16) ∷ counting (r + 1) n

pub counting_wraps : (r s n : ℕ) → r % 2 ^ 16 ≡ s % 2 ^ 16 → counting r n ≡ counting s n
counting_wraps r s zero h = refl
counting_wraps r s (suc n) h =
    ap (◌∷◌ (r % 2 ^ 16)) (counting_wraps (r + 1) (s + 1) n (omega arith))
    ∙ ap (λ (k : ℕ). k ∷ counting (s + 1) n) h

module _ (r : Resolver) (h : Text) (p : ℕ) (page : EgdPageInfo) where
  -- The key under which this page's publisher is kept.
  abbrev pub key_of : EgdPubKey
  key_of = (h, (p, (page.producer_id, page.exchange_id)))

  -- A publisher that is there sends at once.
  pub publish_known :
      (s : Replies) (c : EgdClient) (bytes : List ℕ) (info : EgdPubInfo)
      → length bytes ≤ max_egd_payload
      → find key_of c.publisher_map ≡ some info
      → publish r s c h p page bytes ≡ send_message s c key_of info page bytes
  unfolding publish
  publish_known s c bytes info small known =
      rw (le→ltb_false max_egd_payload (length bytes) small, publish) (rw (known, publish))

  -- Publishes on one page, one after the other.
  unfoldable pub publish_many : EgdClient → List (Replies × List ℕ) → EgdClient × List SystemCall
  publish_many c [] = (c, [])
  publish_many c ((s, bytes) ∷ rest) =
      let (c₁, _, calls₁) = publish r s c h p page bytes in
      let (c₂, calls₂) = publish_many c₁ rest in (c₂, calls₁ ++ calls₂)

  find-send_message :
      (s : Replies) (c : EgdClient) (info : EgdPubInfo) (bytes : List ℕ)
      → find key_of (send_message s c key_of info page bytes).0.publisher_map
        ≡ some (record info { request_id = next_request s info.request_id })
  unfolding send_message
  find-send_message s c info bytes =
      find-assign key_of key_of (record info { request_id = next_request s info.request_id })
        c.publisher_map
      ∙ rw (beq_self key_of)

  sent_requests-send_message :
      (s : Replies) (c : EgdClient) (info : EgdPubInfo) (bytes : List ℕ) (calls : List SystemCall)
      → IsPage page
      → sent_requests ((send_message s c key_of info page bytes).2 ++ calls)
        ≡ (info.request_id % 2 ^ 16) ∷ sent_requests calls
  unfolding send_message
  sent_requests-send_message s c info bytes calls v =
      let m = make_message page info.request_id s.now bytes in
      let back =
        read_message-message_bytes m (make_message-IsMessage page info.request_id s.now bytes v) in
      unfold make_message in rw back.1

  -- The `int` never comes to its largest value before the last message, or the machine goes on at the
  -- smallest one.
  abbrev pub NoTrap : ℕ → List (Replies × List ℕ) → Type 0
  NoTrap first items =
      (first + length items < 2 ^ 31) ⊎ All (λ item. item.0.after_overflow ≡ 2 ^ 31) items

  next_request-NoTrap :
      (s : Replies) (bytes : List ℕ) (first : ℕ) (rest : List (Replies × List ℕ))
      → NoTrap first ((s, bytes) ∷ rest)
      → (next_request s first % 2 ^ 16 ≡ (first + 1) % 2 ^ 16) × NoTrap (next_request s first) rest
  next_request-NoTrap s bytes first rest h = elim (Bool-cases (first == 2 ^ 31 - 1)) [
    | inl largest ↦ rw largest (elim h [
      | inl small ↦ absurd (ground (arith, small))
      | inr (wraps, later) ↦ (ground (arith, wraps), inr later)
    ])
    | inr lower ↦ rw lower (elim h [
      | inl small ↦ (omega arith, inl (omega (arith, small)))
      | inr (wraps, later) ↦ (omega arith, inr later)
    ])
  ]

  -- For a publisher that has connected, a page whose fields fit the header, and messages of at most
  -- 1400 bytes: the datagrams carry consecutive request numbers, as 16-bit words, from the
  -- publisher's own, one for each message, whatever the system answers; where the publisher's
  -- `int` overflows, for a machine whose `int` wraps.
  pub requests_count :
      (c : EgdClient) (items : List (Replies × List ℕ)) (info : EgdPubInfo)
      → IsPage page
      → All (λ item. length item.1 ≤ max_egd_payload) items
      → NoTrap info.request_id items
      → find key_of c.publisher_map ≡ some info
      → sent_requests (publish_many c items).1 ≡ counting info.request_id (length items)
  unfolding publish_many
  requests_count c [] info v small no_trap known = refl
  requests_count c ((s, bytes) ∷ rest) info v (small, smalls) no_trap known =
      let (number, later) = next_request-NoTrap s bytes info.request_id rest no_trap in
      rw (publish_known s c bytes info small known) (
        sent_requests-send_message s c info bytes _ v
        ∙ ap (◌∷◌ (info.request_id % 2 ^ 16)) (
            requests_count (send_message s c key_of info page bytes).0 rest
              (record info { request_id = next_request s info.request_id }) v smalls later
              (find-send_message s c info bytes)
            ∙ counting_wraps (next_request s info.request_id) (info.request_id + 1) (length rest)
                number))

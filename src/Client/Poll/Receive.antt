-- ===== src/Client/Poll/Receive.antt =====
-- From the datagram to the callbacks: lengths, and the delivery of what `Publish` sends.
use auroralink.Prelude.{
  if◌then◌else◌, ltb, ℕ, ◌+◌, ◌-◌, ◌^◌, ◌≤◌, ◌<◌, min, ◌≡◌, refl, Text, List, [], ◌∷◌, length, take,
  All, All-weaken, ap, sym, ◌∙◌, ltb, lt→ltb, arith, some, ==_iff,
}
use auroralink.Prelude.Eq.{nat_eq, text_eq, pair_eq}
use auroralink.Prelude.Assoc.{find}
use auroralink.Status.{EgdStatus, ok}
use auroralink.Spec.{DataProductionMessage, message_bytes, message_size, hdr_size, max_egd_payload}
use auroralink.Spec.Layout.{read_message-message_bytes}
use auroralink.Config.Types.{EgdPageInfo}
use auroralink.Client.Types.{
  EgdSubCallbackInfo, EgdPubInfo, EgdClient, Resolver, Replies, SystemCall, send_to,
}
use auroralink.Client.Publish.{make_message, send_message, publish}
use auroralink.Client.Publish.Datagram.{
  IsPage, make_message-IsMessage, make_message-payload, received_message-message_bytes,
}
use auroralink.Client.Publish.Requests.{key_of, publish_known}
use auroralink.Client.Poll.{
  ConfigService, Invocation, received_length, received_message, data_length_of, dispatch, receive,
}
use auroralink.Client.Poll.Dispatch.{dispatch_reaches}

data_length_of-min :
    (n : ℕ)
    → 0 < n
    → data_length_of (min message_size n)
      ≡ (if ltb n hdr_size then 2 ^ 64 - hdr_size + n else min message_size n - hdr_size)
unfolding data_length_of
data_length_of-min n some_bytes = ground arith

module _ (service : ConfigService) (c_string : Text → Text) where
  open service use {Configs}

  -- For a datagram that is not empty, every call has as its length the number of bytes received less
  -- the header's 32, or, for a datagram that is shorter than a header, that difference modulo 2^64.
  pub receive_lengths :
      (cs : Configs) (stack datagram : List ℕ) (cbs : List EgdSubCallbackInfo)
      → 0 < length datagram
      → All
          (λ (i : Invocation). i.data_len ≡ (
            if ltb (length datagram) hdr_size
            then 2 ^ 64 - hdr_size + length datagram
            else min message_size (length datagram) - hdr_size))
          (receive service c_string cs stack datagram cbs).2
  unfolding receive
  receive_lengths cs stack datagram cbs some_bytes =
      rw (lt→ltb 0 (received_length datagram) (omega arith)) (
        All-weaken _ _ _ (λ i carries. carries.2 ∙ data_length_of-min (length datagram) some_bytes)
          (dispatch_reaches service c_string cs (received_message stack datagram)
            (data_length_of (received_length datagram)) cbs).1)

  receive-dispatch :
      (cs : Configs) (stack datagram : List ℕ) (cbs : List EgdSubCallbackInfo)
      → 0 < length datagram
      → receive service c_string cs stack datagram cbs
        ≡ dispatch service c_string cs
            (received_message stack datagram)
            (data_length_of (received_length datagram))
            cbs
  unfolding receive
  receive-dispatch cs stack datagram cbs some_bytes =
      rw (lt→ltb 0 (received_length datagram) (omega arith))

  -- The call of a callback whose page is the header's, with its signature.
  abbrev pub call_of : DataProductionMessage → ℕ → EgdSubCallbackInfo → Invocation
  call_of m n cb = record {
    callback = cb.callback;
    page_info = cb.page_info;
    header = m.hdr;
    status = ok;
    payload = m.payload;
    data_len = n;
    user_data = cb.user_data;
  }

  dispatch_match :
      (cs : Configs) (m : DataProductionMessage) (n : ℕ) (cb : EgdSubCallbackInfo)
      → cb.page_info.producer_id ≡ m.hdr.producer_id
      → cb.page_info.exchange_id ≡ m.hdr.exchange_id
      → cb.page_info.signature ≡ m.hdr.signature
      → dispatch service c_string cs m n (cb ∷ []) ≡ (cs, cb ∷ [], call_of m n cb ∷ [])
  unfolding dispatch
  dispatch_match cs m n cb ids exchanges signatures =
      rw ((==_iff m.hdr.producer_id cb.page_info.producer_id).1 (sym ids)) (
        rw ((==_iff m.hdr.exchange_id cb.page_info.exchange_id).1 (sym exchanges))
          (rw ((==_iff m.hdr.signature cb.page_info.signature).1 (sym signatures))))

  -- The one call of a `Publish`, and the one call that its datagram makes.
  pub publish_received :
      (r : Resolver) (s : Replies) (c : EgdClient) (h : Text) (p : ℕ) (page : EgdPageInfo)
      (bytes : List ℕ) (info : EgdPubInfo) (cs : Configs) (stack : List ℕ) (cb : EgdSubCallbackInfo)
      → IsPage page
      → length bytes ≤ max_egd_payload
      → find (key_of r h p page) c.publisher_map ≡ some info
      → length stack ≡ message_size
      → cb.page_info.producer_id ≡ page.producer_id
      → cb.page_info.exchange_id ≡ page.exchange_id
      → cb.page_info.signature ≡ page.signature
      → let m = make_message page info.request_id s.now bytes in
        ((publish r s c h p page bytes).2 ≡ send_to info.socket (message_bytes m) info.addr ∷ [])
        × (receive service c_string cs stack (message_bytes m) (cb ∷ [])
            ≡ (cs, cb ∷ [], call_of m max_egd_payload cb ∷ []))
  unfolding send_message make_message data_length_of
  publish_received r s c h p page bytes info cs stack cb v small known memory ids exchanges
        signatures =
      let m = make_message page info.request_id s.now bytes in
      let is_message = make_message-IsMessage page info.request_id s.now bytes v in
      let size = (read_message-message_bytes m is_message).0 in
      (
        ap (λ (t : EgdClient × EgdStatus × List SystemCall). t.2)
            (publish_known r h p page s c bytes info small known),
        receive-dispatch cs stack (message_bytes m) (cb ∷ []) (omega (arith, size))
            ∙ rw (received_message-message_bytes stack m memory is_message)
                (rw size (dispatch_match cs m max_egd_payload cb ids exchanges signatures)),
      )

  -- For a publisher that has connected, a page whose fields fit the header, at most 1400 bytes,
  -- memory of a message's size, and a callback for the same producer, exchange and signature: `publish` makes one call, which sends one datagram, and a
  -- receiver with that callback alone calls it once with that datagram, with its user data, the
  -- status `ok`, the published bytes at the head of the payload and a length of 1400, and keeps the
  -- configs and the callback as they were.
  pub publish_delivers :
      (r : Resolver) (s : Replies) (c : EgdClient) (h : Text) (p : ℕ) (page : EgdPageInfo)
      (bytes : List ℕ) (info : EgdPubInfo) (cs : Configs) (stack : List ℕ) (cb : EgdSubCallbackInfo)
      → IsPage page
      → length bytes ≤ max_egd_payload
      → find (key_of r h p page) c.publisher_map ≡ some info
      → length stack ≡ message_size
      → cb.page_info.producer_id ≡ page.producer_id
      → cb.page_info.exchange_id ≡ page.exchange_id
      → cb.page_info.signature ≡ page.signature
      → (datagram : List ℕ) × (call : Invocation) × ((publish r s c h p page bytes).2
          ≡ send_to info.socket datagram info.addr ∷ [])
        × (receive service c_string cs stack datagram (cb ∷ []) ≡ (cs, cb ∷ [], call ∷ []))
        × (call.callback ≡ cb.callback)
        × (call.user_data ≡ cb.user_data)
        × (call.status ≡ ok)
        × (take (length bytes) call.payload ≡ bytes)
        × (call.data_len ≡ max_egd_payload)
  publish_delivers r s c h p page bytes info cs stack cb v small known memory ids exchanges
        signatures =
      let m = make_message page info.request_id s.now bytes in
      let (sends, receives) =
        publish_received r s c h p page bytes info cs stack cb v small known memory ids exchanges
          signatures in
      (
        message_bytes m,
        call_of m max_egd_payload cb,
        sends,
        receives,
        refl,
        refl,
        refl,
        make_message-payload page info.request_id s.now bytes small,
        refl,
      )

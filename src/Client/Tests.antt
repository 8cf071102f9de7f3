-- ===== src/Client/Tests.antt =====
-- Tests of publishing and receiving.
use auroralink.Prelude.{
  inl, ℕ, ◌+◌, ◌-◌, ◌^◌, ◌≡◌, ◌≢◌, refl, codes, some, List, [], ◌∷◌, map, take, replicate, All,
  arith, min, ltb, if◌then◌else◌, length-replicate,
}
use auroralink.Prelude.Int.{pos}
use auroralink.Prelude.Eq.{nat_eq, text_eq, pair_eq}
use auroralink.Prelude.Assoc.{find}
use auroralink.Status.{ok}
use auroralink.Bytes.{of_le_bytes}
use auroralink.Spec.{DataProductionMessage, message_size, max_egd_payload, hdr_size}
use auroralink.Config.Parse.Meaning.{egd_type_names-Agrees}
use auroralink.Client.Types.{send_to}
use auroralink.Client.Publish.{publish, make_message}
use auroralink.Client.Publish.Datagram.{IsPage}
use auroralink.Client.Publish.Requests.{
  requests_count, publish_many, sent_requests, counting, key_of,
}
use auroralink.Client.Poll.{
  Invocation, Round, arrival, received_message, dispatch, receive, poll_socket,
}
use auroralink.Client.Poll.Dispatch.{dispatch_reaches, interested, Carries, target}
use auroralink.Client.Poll.Receive.{publish_delivers, receive_lengths}
use auroralink.Client.Configs.{config_objects}
use auroralink.Client.Configs.Stale.{stale_forever, IsStale, Signed}
use auroralink.Samples.{
  sample_xml, sample_urls, sample_transfer, sample_page, sample_entry, sample_objects,
  sample_resolver, sample_replies, sample_publisher, sample_client, sample_callback,
}

sample_page-IsPage : IsPage sample_page
sample_page-IsPage = record {
  producer_id_fits = omega arith;
  exchange_id_fits = omega arith;
  signature_fits = omega arith;
  config_time_fits = omega arith;
}

connected :
    find (key_of sample_resolver (codes "h") 18246 sample_page) sample_client.publisher_map
    ≡ some sample_publisher
unfolding find
connected = refl

-- The second number has wrapped.
requests_count_example :
    sent_requests
      (publish_many sample_resolver
        (codes "h")
        18246
        sample_page
        sample_client
        ((sample_replies, 1 ∷ []) ∷ (sample_replies, 2 ∷ []) ∷ [])).1
    ≡ counting 65535 2
requests_count_example =
    requests_count sample_resolver (codes "h") 18246 sample_page sample_client
      ((sample_replies, 1 ∷ []) ∷ (sample_replies, 2 ∷ []) ∷ []) sample_publisher sample_page-IsPage
      (omega arith, (omega arith, tt)) (inl (omega arith)) connected

publish_delivers_example :
    (datagram : List ℕ) × (call : Invocation) × ((publish sample_resolver sample_replies
        sample_client
        (codes "h")
        18246
        sample_page
        (7 ∷ 9 ∷ [])).2
      ≡ send_to (pos 3) datagram sample_publisher.addr ∷ [])
    × (receive
          (config_objects sample_xml sample_urls (λ n. sample_transfer))
          (λ s. s)
          sample_objects
          (replicate message_size 85)
          datagram
          (sample_callback ∷ [])
        ≡ (sample_objects, sample_callback ∷ [], call ∷ []))
    × (call.callback ≡ 1000)
    × (call.user_data ≡ 8)
    × (call.status ≡ ok)
    × (take 2 call.payload ≡ 7 ∷ 9 ∷ [])
    × (call.data_len ≡ max_egd_payload)
publish_delivers_example =
    publish_delivers (config_objects sample_xml sample_urls (λ n. sample_transfer)) (λ s. s)
      sample_resolver sample_replies sample_client (codes "h") 18246 sample_page (7 ∷ 9 ∷ [])
      sample_publisher sample_objects (replicate message_size 85) sample_callback sample_page-IsPage
      (omega arith) connected (length-replicate {A = ℕ} message_size 85) refl refl refl

receive_lengths_example :
    All
      (λ (i : Invocation).
        i.data_len
        ≡ (if ltb 20 hdr_size then 2 ^ 64 - hdr_size + 20 else min message_size 20 - hdr_size))
      (receive
        (config_objects sample_xml sample_urls (λ n. sample_transfer))
        (λ s. s)
        sample_objects
        (replicate message_size 0)
        (replicate 20 0)
        (sample_callback ∷ [])).2
receive_lengths_example =
    receive_lengths (config_objects sample_xml sample_urls (λ n. sample_transfer)) (λ s. s)
      sample_objects (replicate message_size 0) (replicate 20 0) (sample_callback ∷ [])
      (omega arith)

abbrev arrived : DataProductionMessage
arrived = make_message sample_page 5 (record { tv_sec = 1; tv_nsec = 2 }) (1 ∷ [])

dispatch_reaches_example :
    (map
        (λ (i : Invocation). (i.callback, i.user_data))
        (dispatch
          (config_objects sample_xml sample_urls (λ n. sample_transfer))
          (λ s. s)
          sample_objects
          arrived
          4
          (sample_callback ∷ sample_callback ∷ [])).2
      ≡ interested arrived.hdr (sample_callback ∷ sample_callback ∷ []))
    × All
        (Carries arrived 4)
        (dispatch
          (config_objects sample_xml sample_urls (λ n. sample_transfer))
          (λ s. s)
          sample_objects
          arrived
          4
          (sample_callback ∷ sample_callback ∷ [])).2
    × (map target
          (dispatch
            (config_objects sample_xml sample_urls (λ n. sample_transfer))
            (λ s. s)
            sample_objects
            arrived
            4
            (sample_callback ∷ sample_callback ∷ [])).1
        ≡ map target (sample_callback ∷ sample_callback ∷ []))
dispatch_reaches_example =
    dispatch_reaches (config_objects sample_xml sample_urls (λ n. sample_transfer)) (λ s. s)
      sample_objects arrived 4 (sample_callback ∷ sample_callback ∷ [])

-- A datagram for the page with the signature 7.
abbrev changed_rounds : List Round
changed_rounds =
    arrival (replicate 40 0) (
      13 ∷ 1 ∷ 0 ∷ 0 ∷ 42 ∷ 0 ∷ 0 ∷ 0 ∷ 1 ∷ 0 ∷ 0 ∷ 0 ∷ 0 ∷ 0 ∷ 0 ∷ 0 ∷ 0 ∷ 0 ∷ 0 ∷ 0 ∷ 1 ∷ 0 ∷ 0
      ∷ 0 ∷ 7 ∷ 0 ∷ [])
    ∷ []

changed_rounds-Signed : Signed 7 changed_rounds
unfolding received_message of_le_bytes
changed_rounds-Signed = (refl, tt)

sample-IsStale : IsStale (λ s. s) 7 sample_objects sample_page
unfolding find
sample-IsStale = record {
  object = record { kind = _; state = _ };
  entry = sample_entry;
  names_agree = egd_type_names-Agrees;
  has_object = refl;
  has_entry = refl;
  own_handle = refl;
  own_name = refl;
  page_differs = ground arith;
  entry_differs = ground arith;
}

stale_forever_example :
    All
      (λ (i : Invocation). i.status ≢ ok)
      (poll_socket
        (config_objects sample_xml sample_urls (λ n. sample_transfer))
        (λ s. s)
        sample_objects
        changed_rounds
        (sample_callback ∷ [])).2
stale_forever_example =
    stale_forever sample_xml sample_urls (λ n. sample_transfer) (λ s. s) 7 sample_objects
      changed_rounds sample_callback changed_rounds-Signed sample-IsStale

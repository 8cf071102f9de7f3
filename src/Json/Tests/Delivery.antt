-- ===== src/Json/Tests/Delivery.antt =====
-- Tests of a JSON message between two clients, and of the user data of subscriptions.
use auroralink.Prelude.{
  ℕ, ◌≡◌, ◌≢◌, ◌≤◌, ◌<◌, ◌⊎◌, refl, Text, codes, some, none, List, [], ◌∷◌, ◌++◌, length-replicate,
  take, drop, replicate, arith,
}
use auroralink.Prelude.Eq.{nat_eq, text_eq, pair_eq}
use auroralink.Prelude.Assoc.{find}
use auroralink.Status.{ok}
use auroralink.Spec.{message_size, max_egd_payload}
use auroralink.Client.Types.{send_to}
use auroralink.Client.Subscribe.Lifetime.{callbacks_at}
use auroralink.Client.Publish.Datagram.{IsPage}
use auroralink.Client.Publish.Requests.{key_of}
use auroralink.Client.Poll.{ConfigService, Invocation, receive}
use auroralink.Client.Configs.{config_objects}
use auroralink.Json.Library.{CppType, JsonValue, number, message_of}
use auroralink.Json.Layout.{width}
use auroralink.Json.Encode.{done, thrown, is_skipped, cpp_type}
use auroralink.Json.Decode.{decode_vars}
use auroralink.Json.Messages.{
  JsonClient, JsonInvocation, publish_json, subscribe_json, json_proxy_callback,
}
use auroralink.Json.Messages.Callback.{IsInside, passed_on, callback_outcome}
use auroralink.Json.Messages.UserData.{IsLinked, proxied, subscribe_json-IsLinked}
use auroralink.Json.RoundTrip.Delivery.{IsMember, json_delivered}
use auroralink.Json.Tests.{
  sample_vars-VarsTyped, sample_vars-IsApart, amount_info, amount_found, different_names, published,
  published_payload, received, sample_user, sample_json_client,
}
use auroralink.Samples.{
  sample_json, sample_json-GetFits, SampleJson, sample_vars, sample_page, sample_resolver,
  sample_replies, sample_publisher, sample_client, sample_callback, sample_xml, sample_urls,
  sample_transfer, sample_objects, empty_client,
}

abbrev service : ConfigService
service = config_objects sample_xml sample_urls (λ n. sample_transfer)

abbrev connected_client : JsonClient
connected_client = record { base = sample_client; json_user_data = [] }

abbrev stack : List ℕ
stack = replicate message_size 7

sample_vars-IsInside : IsInside max_egd_payload sample_vars
unfolding width cpp_type
sample_vars-IsInside = (omega arith, (omega arith, tt))

sample_page-IsPage : IsPage sample_page
sample_page-IsPage = record {
  producer_id_fits = omega arith;
  exchange_id_fits = omega arith;
  signature_fits = omega arith;
  config_time_fits = omega arith;
}

amount-IsMember :
    IsMember sample_json SampleJson.values sample_page (codes "b") (number CppType.int16 513)
unfolding cpp_type is_skipped
amount-IsMember = record {
  variable = amount_info;
  member = SampleJson.amount;
  before = (codes "a", SampleJson.flag) ∷ [];
  after = [];
  found = amount_found;
  apart = sample_vars-IsApart;
  items_are = refl;
  absent_before = (different_names, tt);
  absent_after = tt;
  plain = refl;
  encodes = (refl, refl);
}

connected :
    find (key_of sample_resolver (codes "h") 18246 sample_page) sample_client.publisher_map
    ≡ some sample_publisher
unfolding find
connected = refl

json_delivered_example :
    (datagram : List ℕ) × (call : Invocation) × (members : List (Text × JsonValue)) × ((publish_json
        sample_json sample_resolver sample_replies connected_client
        (codes "h")
        18246
        sample_page
        (codes "{}")).2
      ≡ send_to sample_publisher.socket datagram sample_publisher.addr ∷ [])
    × (receive service (λ s. s) sample_objects stack datagram (sample_callback ∷ [])
        ≡ (sample_objects, sample_callback ∷ [], call ∷ []))
    × (call.status ≡ ok)
    × (find (codes "b") members ≡ some (number CppType.int16 513))
    × (((passed : JsonInvocation) × (json_proxy_callback sample_json sample_user call
            ≡ done (some passed))
          × (passed.callback ≡ 77)
          × (passed.user_data ≡ 78)
          × (passed.status ≡ ok)
          × (sample_json.dump (message_of members) ≡ some passed.message))
        ⊎ ((sample_json.dump (message_of members) ≡ none)
            × (json_proxy_callback sample_json sample_user call ≡ thrown)))
json_delivered_example =
    json_delivered service (λ s. s) sample_json sample_user sample_resolver sample_replies
      connected_client (codes "h") 18246 sample_page (codes "{}") SampleJson.values published
      sample_publisher sample_objects stack sample_callback (codes "b") (number CppType.int16 513)
      sample_json-GetFits sample_vars-VarsTyped sample_vars-IsInside (omega arith)
      sample_page-IsPage amount-IsMember refl published_payload connected
      (length-replicate {A = ℕ} message_size 7) refl

callback_outcome_example :
    ((received.data_len < received.page_info.data_length)
      × (json_proxy_callback sample_json sample_user received ≡ done none))
    ⊎ ((received.page_info.data_length ≤ received.data_len)
        × ((members : List (Text × JsonValue)) × (decode_vars received.payload
                received.page_info.var_map []
              ≡ done members)
            × (((text : Text) × (sample_json.dump (message_of members) ≡ some text)
                  × (json_proxy_callback sample_json sample_user received
                      ≡ done (some (passed_on sample_user received text))))
                ⊎ ((sample_json.dump (message_of members) ≡ none)
                    × (json_proxy_callback sample_json sample_user received ≡ thrown)))))
callback_outcome_example = callback_outcome sample_json sample_user received sample_vars-IsInside

unsubscribed : IsLinked 500 sample_json_client
unfolding callbacks_at find
unsubscribed k = tt

abbrev subscribed : JsonClient
subscribed =
    (subscribe_json 500 sample_resolver sample_replies sample_json_client (codes "h") 9 sample_page
      77 78).0

subscribe_json-IsLinked_example :
    IsLinked 500 subscribed
    × (take 0 subscribed.json_user_data ≡ [])
    × (drop 0 subscribed.json_user_data ≡ sample_user ∷ [])
    × ((((subscribe_json 500 sample_resolver sample_replies sample_json_client
              (codes "h")
              9
              sample_page
              77
              78).1
            ≡ ok)
          × (callbacks_at (codes "h", 9) subscribed.base
              ≡ callbacks_at (codes "h", 9) empty_client
                ++ proxied 500 sample_resolver sample_replies sample_json_client
                    (codes "h")
                    9
                    sample_page
                    77
                    78
                  ∷ []))
        ⊎ (((subscribe_json 500 sample_resolver sample_replies sample_json_client
                (codes "h")
                9
                sample_page
                77
                78).1
              ≢ ok)
            × (subscribed.base ≡ empty_client)))
subscribe_json-IsLinked_example =
    subscribe_json-IsLinked 500 sample_resolver sample_replies sample_json_client (codes "h") 9
      sample_page 77 78 unsubscribed

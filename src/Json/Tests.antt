-- ===== src/Json/Tests.antt =====
-- Tests of the JSON client.
mod Delivery
use auroralink.Prelude.{
  ℕ, ◌+◌, ◌≡◌, ◌≢◌, inl, inr, refl, Text, codes, some, List, [], ◌∷◌, replicate, arith,
}
use auroralink.Prelude.Int.{pos}
use auroralink.Prelude.Eq.{text_eq}
use auroralink.Prelude.Assoc.{find}
use auroralink.Status.{ok, err_out_of_bounds}
use auroralink.Bytes.{of_le_bytes}
use auroralink.Spec.{DataProductionHdr, max_egd_payload}
use auroralink.Config.Types.{EgdDataType, EgdVarInfo, EgdVarMap}
use auroralink.Config.Parse.Typing.{VarsTyped, bits_of}
use auroralink.Client.Poll.{Invocation}
use auroralink.Json.Library.{CppType, JsonValue, number, message_of}
use auroralink.Json.Layout.{width}
use auroralink.Json.Encode.{
  done, returned, fault, encode_entry, is_skipped, bytes_of_bits, cpp_type,
}
use auroralink.Json.Messages.{
  JsonUserData, JsonClient, JsonInvocation, payload_of, publish_json, json_proxy_callback,
}
use auroralink.Json.Messages.Outcomes.{publish_json-IsSafe, last_bytes_refused}
use auroralink.Json.RoundTrip.{IsApart}
use auroralink.Json.RoundTrip.Exchange.{received_value}
use auroralink.Samples.{
  sample_json, sample_json-GetFits, SampleJson, sample_vars, sample_page, sample_resolver,
  sample_replies, empty_client,
}

pub sample_vars-VarsTyped : VarsTyped sample_vars
unfolding bits_of
sample_vars-VarsTyped = (inl refl, (inl refl, tt))

abbrev pub amount_info : EgdVarInfo
amount_info = record {
  bit_offset = 16;
  data_type = record { type = EgdDataType.int; bits = pos 16 };
}

pub different_names : codes "a" ≢ codes "b"
different_names e = ground arith

pub sample_vars-IsApart : IsApart (codes "b") amount_info sample_vars
unfolding width cpp_type
sample_vars-IsApart = (inr (different_names, inl (omega arith)), (inl (refl, refl), tt))

-- Bit 3 of the first byte, and 513 in the third and fourth.
abbrev pub published : List ℕ
published = 8 ∷ 0 ∷ 1 ∷ 2 ∷ replicate 1396 0

pub published_payload : payload_of sample_json (some SampleJson.values) sample_page ≡ done published
unfolding payload_of of_le_bytes
published_payload = refl

abbrev pub sample_user : JsonUserData
sample_user = record { callback = 77; user_data = 78 }

abbrev sample_header : DataProductionHdr
sample_header = record {
  pdu_type = 13;
  version = 1;
  req_id = 0;
  producer_id = 42;
  exchange_id = 1;
  timestamp = record { tv_sec = 0; tv_nsec = 0 };
  status = 1;
  reserved_a = 0;
  signature = 257;
  reserved_b = 0;
  config_time_secs = 9;
}

abbrev pub received : Invocation
received = record {
  callback = 1;
  page_info = sample_page;
  header = sample_header;
  status = ok;
  payload = published;
  data_len = 1400;
  user_data = 0;
}

abbrev sample_passed : JsonInvocation
sample_passed = record {
  callback = 77;
  page_info = sample_page;
  header = sample_header;
  status = ok;
  message = [];
  user_data = 78;
}

passes_on : json_proxy_callback sample_json sample_user received ≡ done (some sample_passed)
unfolding json_proxy_callback
passes_on = refl

pub amount_found : find (codes "b") sample_vars ≡ some amount_info
unfolding find
amount_found = refl

received_value_example :
    (members : List (Text × JsonValue)) × (sample_json.dump (message_of members)
      ≡ some sample_passed.message)
    × (find (codes "b") members ≡ some (number CppType.int16 513))
unfolding cpp_type is_skipped
received_value_example =
    received_value sample_json sample_user SampleJson.values sample_page received sample_passed
      (codes "b") amount_info SampleJson.amount (number CppType.int16 513)
      ((codes "a", SampleJson.flag) ∷ []) [] sample_json-GetFits sample_vars-VarsTyped
      sample_vars-IsApart amount_found refl (different_names, tt) tt refl (refl, refl)
      published_payload refl passes_on

abbrev pub sample_json_client : JsonClient
sample_json_client = record { base = empty_client; json_user_data = [] }

publish_json-IsSafe_example :
    (publish_json sample_json sample_resolver sample_replies sample_json_client
      (codes "h")
      18246
      sample_page
      (codes "{}")).1
    ≢ fault
publish_json-IsSafe_example =
    publish_json-IsSafe sample_json sample_resolver sample_replies sample_json_client (codes "h")
      18246 sample_page (codes "{}") sample_vars-VarsTyped

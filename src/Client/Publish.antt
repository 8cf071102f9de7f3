-- ===== src/Client/Publish.antt =====
-- libEGD-master/src/egd/client/egd_client.cpp, `Publish`: one datagram for one page.
mod Tests
pub mod Datagram
pub mod Requests
pub mod Outcomes
use auroralink.Prelude.{
  ℕ, ◌+◌, ◌-◌, ◌==◌, ◌%◌, ◌^◌, Text, Option, none, some, List, [], ◌∷◌, ◌++◌, length, replicate,
  ltb, if◌then◌else◌,
}
use auroralink.Prelude.Int.{ℤ, pos}
use auroralink.Prelude.Eq.{nat_eq, text_eq, pair_eq}
use auroralink.Prelude.Assoc.{find, assign}
use auroralink.Status.{EgdStatus, ok, err_null, err_message_too_large, err_publish, is_ok}
use auroralink.Bytes.{write_at}
use auroralink.Spec.{DataTime, DataProductionMessage, message_bytes, max_egd_payload, message_size}
use auroralink.Config.Types.{EgdPageInfo}
use auroralink.Client.Types.{
  EgdPubInfo, EgdPubKey, EgdClient, Resolver, Replies, SystemCall, send_to, to_size,
}
use auroralink.Client.Address.{zero_addr}
use auroralink.Client.Connect.{publish_connect}

abbrev pub pdu_type_value : ℕ
pdu_type_value = 13

abbrev pub payload_version : ℕ
payload_version = 1

-- A local `EgdPubInfo` before it is connected.
abbrev pub new_pub_info : EgdPubInfo
new_pub_info = record {
  connection = record { host = []; port = 0; addr = zero_addr; socket = pos 0 };
  request_id = 0;
}

-- The message: zeros, the header's fields, and the data at the head of the payload.
unfoldable pub make_message : EgdPageInfo → ℕ → DataTime → List ℕ → DataProductionMessage
unfolding write_at
make_message page request_id now bytes = record {
  hdr = record {
    pdu_type = pdu_type_value;
    version = payload_version;
    req_id = request_id % 2 ^ 16;
    producer_id = page.producer_id;
    exchange_id = page.exchange_id;
    timestamp = record { tv_sec = now.tv_sec % 2 ^ 32; tv_nsec = now.tv_nsec % 2 ^ 32 };
    status = 0;
    reserved_a = 0;
    signature = page.signature;
    reserved_b = 0;
    config_time_secs = page.config_time.tv_sec;
  };
  payload = write_at (replicate max_egd_payload 0) 0 bytes;
}

-- `request_id++`, on the bit pattern of an `int`.
abbrev pub next_request : Replies → ℕ → ℕ
next_request s r = if r == 2 ^ 31 - 1 then s.after_overflow else (r + 1) % 2 ^ 32

-- `sendto(…) < sizeof(message)`: the signed answer becomes a `size_t` before it is compared.
unfoldable pub send_status : ℤ → EgdStatus
unfolding to_size
send_status reply = if ltb (to_size reply) message_size then err_publish else ok

-- The part of `Publish` behind the lookup, for the publisher of the key.
unfoldable pub send_message :
    Replies
    → EgdClient
    → EgdPubKey
    → EgdPubInfo
    → EgdPageInfo
    → List ℕ
    → EgdClient × EgdStatus × List SystemCall
unfolding make_message message_bytes send_status assign
send_message s c key info page bytes = (
  record c {
    publisher_map =
        assign key (record info { request_id = next_request s info.request_id }) c.publisher_map;
  },
  send_status s.sendto_reply,
  send_to info.socket (message_bytes (make_message page info.request_id s.now bytes)) info.addr
      ∷ [],
)

-- The branch that connects first.
unfoldable pub connect_and_send :
    Resolver
    → Replies
    → EgdClient
    → EgdPubKey
    → EgdPageInfo
    → List ℕ
    → EgdClient × EgdStatus × List SystemCall
unfolding publish_connect send_message assign
connect_and_send r s c key page bytes =
    let (connected, status, calls) = publish_connect r s key.0 key.1.0 new_pub_info.connection in
    let info = record new_pub_info { connection = connected } in
    let c' = record c { publisher_map = assign key info c.publisher_map } in
    let (c'', status', calls') = send_message s c' key info page bytes in
    if is_ok status then (c'', status', calls ++ calls') else (c, status, calls)

unfoldable pub publish :
    Resolver
    → Replies
    → EgdClient
    → Text
    → ℕ
    → EgdPageInfo
    → List ℕ
    → EgdClient × EgdStatus × List SystemCall
unfolding connect_and_send send_message find
publish r s c h p page bytes =
    let key : EgdPubKey = (h, (p, (page.producer_id, page.exchange_id))) in
    if ltb max_egd_payload (length bytes)
    then (c, err_message_too_large, [])
    else (elim (find key c.publisher_map) [
      | none ↦ connect_and_send r s c key page bytes
      | some info ↦ send_message s c key info page bytes
    ])

-- The C interface: a null handle is refused.
unfoldable pub egd_client_publish :
    Resolver
    → Replies
    → Option EgdClient
    → Text
    → ℕ
    → EgdPageInfo
    → List ℕ
    → Option EgdClient × EgdStatus × List SystemCall
unfolding publish
egd_client_publish r s none h p page bytes = (none, err_null, [])
egd_client_publish r s (some c) h p page bytes =
    let (c', status, calls) = publish r s c h p page bytes in (some c', status, calls)

-- ===== src/Client/Publish/Datagram.antt =====
-- The datagram of a publish: its size, and what a receiver reads in it.
use auroralink.Prelude.{ℕ, ◌^◌, ◌≤◌, ◌<◌, ◌≡◌, List, length, take, replicate, arith, take_all}
use auroralink.Bytes.Buffer.{length-write_at, take-write_at, write_at_all}
use auroralink.Spec.{
  DataTime, DataProductionMessage, IsMessage, message_bytes, max_egd_payload, message_size,
}
use auroralink.Spec.Layout.{read_message-message_bytes}
use auroralink.Config.Types.{EgdPageInfo}
use auroralink.Client.Publish.{make_message}
use auroralink.Client.Poll.{received_message}

-- The fields of a page that go into a header hold values of their C types.
pub record IsPage (page : EgdPageInfo) : Type 0 where
  pub producer_id_fits : page.producer_id < 2 ^ 32
  pub exchange_id_fits : page.exchange_id < 2 ^ 32
  pub signature_fits : page.signature < 2 ^ 16
  pub config_time_fits : page.config_time.tv_sec < 2 ^ 32

pub make_message-IsMessage :
    (page : EgdPageInfo) (r : ℕ) (now : DataTime) (bytes : List ℕ)
    → IsPage page
    → IsMessage (make_message page r now bytes)
unfolding make_message
make_message-IsMessage page r now bytes v = record {
  header = omega arith;
  payload_length = length-write_at (replicate max_egd_payload 0) 0 bytes;
}

-- The data stands at the head of the payload.
pub make_message-payload :
    (page : EgdPageInfo) (r : ℕ) (now : DataTime) (bytes : List ℕ)
    → length bytes ≤ max_egd_payload
    → take (length bytes) (make_message page r now bytes).payload ≡ bytes
unfolding make_message
make_message-payload page r now bytes h =
    take-write_at (replicate max_egd_payload 0) 0 bytes (omega arith)

-- A receiver whose memory has the message's size reads the message that was sent, whatever the
-- memory held.
pub received_message-message_bytes :
    (stack : List ℕ) (m : DataProductionMessage)
    → length stack ≡ message_size
    → IsMessage m
    → received_message stack (message_bytes m) ≡ m
unfolding received_message
received_message-message_bytes stack m hs v =
    let (size, back) = read_message-message_bytes m v in
    rw (take_all message_size (message_bytes m) (omega arith))
      (rw (write_at_all stack (message_bytes m) (omega arith)) back)

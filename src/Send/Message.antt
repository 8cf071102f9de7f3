-- ===== src/Send/Message.antt =====
-- EgdSend.c: `InitHeader`, `SendDataMessage` and `UpdateMessageData`.
pub mod Interop
use auroralink.Prelude.{
  ℕ, suc, ◌+◌, ◌-◌, ◌%◌, ◌^◌, Text, codes, List, [], ◌∷◌, ◌++◌, length, replicate, take,
  if◌then◌else◌,
}
use auroralink.Prelude.Int.{ℤ, pos}
use auroralink.Bytes.{le_bytes, write_at}
use auroralink.Client.Types.{SockAddr}
use auroralink.Client.Connect.{is_socket_error}
use auroralink.Send.Types.{
  DataProductionHdr, DataProductionMessage, Timespec, DoubleArith, SenderCall, sent,
  egd_pdu_type_data_production, egd_status_healthy_not_synced, egd_max_data_size,
}
use auroralink.Send.Clock.{get_current_egd_time}

-- The packed header's memory image on a little-endian host, and the message's.
unfoldable pub header_bytes : DataProductionHdr → List ℕ
header_bytes h =
    le_bytes 1 h.pdu_type
    ++ (le_bytes 1 h.version
        ++ (le_bytes 2 h.req_id
            ++ (le_bytes 4 h.producer_id
                ++ (le_bytes 4 h.exchange_id
                    ++ (le_bytes 4 h.timestamp.tv_sec
                        ++ (le_bytes 4 h.timestamp.tv_nsec
                            ++ (le_bytes 2 h.status
                                ++ (le_bytes 2 h.reserved_a
                                    ++ (le_bytes 2 h.signature ++ h.reserved_b)))))))))

unfoldable pub init_header : ℕ → ℕ → ℕ → DataProductionHdr
init_header producer_id exchange_id signature = record {
  pdu_type = egd_pdu_type_data_production;
  version = 1;
  req_id = 0;
  producer_id = producer_id;
  exchange_id = exchange_id;
  timestamp = record { tv_sec = 0; tv_nsec = 0 };
  status = egd_status_healthy_not_synced;
  reserved_a = 0;
  signature = signature;
  reserved_b = replicate 6 0;
}

-- `++` on the 16-bit request number.
abbrev pub next_req_id : DataProductionMessage → DataProductionMessage
next_req_id m = record m { hdr = record m.hdr { req_id = suc m.hdr.req_id % 2 ^ 16 } }

-- The message after the send, the status, and the call.
unfoldable pub send_data_message :
    ℤ → SockAddr → DataProductionMessage → ℕ → Timespec → ℤ → DataProductionMessage × ℕ × SenderCall
unfolding header_bytes get_current_egd_time
send_data_message sock addr msg data_size now reply =
    let stamped = record msg { hdr = record msg.hdr { timestamp = get_current_egd_time now } } in
    let call =
      sent sock (take (32 + data_size) (header_bytes stamped.hdr ++ stamped.payload)) addr in
    if is_socket_error reply then (stamped, 1, call) else (next_req_id stamped, 0, call)

-- `strncpy` pads with zeros up to its length.
abbrev pub strncpy_bytes : Text → ℕ → List ℕ
strncpy_bytes s n = take n s ++ replicate (n - length s) 0

module _ (d : DoubleArith) where
  open d use {Double, of_int, tenth, mul, sin, bits}

  -- The simulated data: a counter, a text, and the bits of a sine.
  unfoldable pub update_message_data : DataProductionMessage → ℕ → DataProductionMessage
  unfolding write_at le_bytes
  update_message_data msg message_count =
      let counter = (message_count % 256) ∷ [] in
      let val = mul (sin (mul (of_int (pos message_count)) tenth)) (of_int (pos 100)) in
      let counted = write_at (write_at msg.payload 0 counter) 4 counter in
      let text = strncpy_bytes (codes "This is a test.") (egd_max_data_size - 6 - 1) in
      let named = write_at (write_at counted 6 text) (egd_max_data_size - 1) (0 ∷ []) in
      record msg { payload = write_at named 40 (le_bytes 8 (bits val)) }

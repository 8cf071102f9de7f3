-- ===== src/Spec/Layout.antt =====
-- The memory image of a message, read back.
use auroralink.Prelude.{ℕ, ◌≡◌, List, ◌++◌, length, arith}
use auroralink.Bytes.{le_bytes, of_le_bytes, word_at}
use auroralink.Bytes.Words.{of_le_bytes-le_bytes}
use auroralink.Spec.{
  DataProductionHdr, DataProductionMessage, header_bytes, message_bytes, read_header, read_message,
  IsHeader, IsMessage, message_size,
}

-- The header comes back from its image, whatever stands behind it.
pub read_header-header_bytes :
    (h : DataProductionHdr) (rest : List ℕ) → IsHeader h → read_header (header_bytes h ++ rest) ≡ h
unfolding read_header header_bytes le_bytes of_le_bytes word_at
read_header-header_bytes h rest v = λ i. record {
  pdu_type = of_le_bytes-le_bytes 1 h.pdu_type v.pdu_type_fits i;
  version = of_le_bytes-le_bytes 1 h.version v.version_fits i;
  req_id = of_le_bytes-le_bytes 2 h.req_id v.req_id_fits i;
  producer_id = of_le_bytes-le_bytes 4 h.producer_id v.producer_id_fits i;
  exchange_id = of_le_bytes-le_bytes 4 h.exchange_id v.exchange_id_fits i;
  timestamp = record {
    tv_sec = of_le_bytes-le_bytes 4 h.timestamp.tv_sec v.tv_sec_fits i;
    tv_nsec = of_le_bytes-le_bytes 4 h.timestamp.tv_nsec v.tv_nsec_fits i;
  };
  status = of_le_bytes-le_bytes 2 h.status v.status_fits i;
  reserved_a = of_le_bytes-le_bytes 2 h.reserved_a v.reserved_a_fits i;
  signature = of_le_bytes-le_bytes 2 h.signature v.signature_fits i;
  reserved_b = of_le_bytes-le_bytes 2 h.reserved_b v.reserved_b_fits i;
  config_time_secs = of_le_bytes-le_bytes 4 h.config_time_secs v.config_time_secs_fits i;
}

-- For a message whose members fit their types: its image has 1432 bytes and reads back as the
-- message.
pub read_message-message_bytes :
    (m : DataProductionMessage)
    → IsMessage m
    → (length (message_bytes m) ≡ message_size) × (read_message (message_bytes m) ≡ m)
unfolding read_message message_bytes le_bytes
read_message-message_bytes m v = (
  omega (arith, v.payload_length),
  λ i. record { hdr = read_header-header_bytes m.hdr m.payload v.header i; payload = m.payload },
)

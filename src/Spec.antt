-- ===== src/Spec.antt =====
-- libEGD-master/src/egd/util/egd_spec.h: the data production message and its place in memory.
-- The library sends and receives the struct itself, so the wire format is the struct's memory
-- image on a little-endian host with natural alignment, which leaves no padding in it.
pub mod Layout
use auroralink.Prelude.{ℕ, ◌^◌, ◌<◌, ◌≡◌, List, ◌++◌, drop, length}
use auroralink.Bytes.{le_bytes, word_at}

abbrev pub max_egd_payload : ℕ
max_egd_payload = 1400

-- `sizeof(DataProductionHdr)` and `sizeof(DataProductionMessage)`.
abbrev pub hdr_size : ℕ
hdr_size = 32

abbrev pub message_size : ℕ
message_size = 1432

-- `tv_nsec` is an `int32_t`, here its bit pattern.
pub record DataTime : Type 0 where
  pub tv_sec : ℕ
  pub tv_nsec : ℕ

pub record DataProductionHdr : Type 0 where
  pub pdu_type : ℕ
  pub version : ℕ
  pub req_id : ℕ
  pub producer_id : ℕ
  pub exchange_id : ℕ
  pub timestamp : DataTime
  pub status : ℕ
  pub reserved_a : ℕ
  pub signature : ℕ
  pub reserved_b : ℕ
  pub config_time_secs : ℕ

-- `payload` is the member `Data`.
pub record DataProductionMessage : Type 0 where
  pub hdr : DataProductionHdr
  pub payload : List ℕ

-- The header's memory image, member by member.
unfoldable pub header_bytes : DataProductionHdr → List ℕ
header_bytes h =
    le_bytes 1 h.pdu_type
    ++ (le_bytes 1 h.version
        ++ (le_bytes 2 h.req_id
            ++ (le_bytes 4 h.producer_id
                ++ (le_bytes 4 h.exchange_id
                    ++ (le_bytes 4 h.timestamp.tv_sec
                        ++ (le_bytes 4 h.timestamp.tv_nsec
                            ++ (le_bytes 2 h.status
                                ++ (le_bytes 2 h.reserved_a
                                    ++ (le_bytes 2 h.signature
                                        ++ (le_bytes 2 h.reserved_b
                                            ++ le_bytes 4 h.config_time_secs))))))))))

unfoldable pub message_bytes : DataProductionMessage → List ℕ
unfolding header_bytes
message_bytes m = header_bytes m.hdr ++ m.payload

-- What the members read where a message stands in memory.
unfoldable pub read_header : List ℕ → DataProductionHdr
unfolding word_at
read_header bs = record {
  pdu_type = word_at bs 0 1;
  version = word_at bs 1 1;
  req_id = word_at bs 2 2;
  producer_id = word_at bs 4 4;
  exchange_id = word_at bs 8 4;
  timestamp = record { tv_sec = word_at bs 12 4; tv_nsec = word_at bs 16 4 };
  status = word_at bs 20 2;
  reserved_a = word_at bs 22 2;
  signature = word_at bs 24 2;
  reserved_b = word_at bs 26 2;
  config_time_secs = word_at bs 28 4;
}

unfoldable pub read_message : List ℕ → DataProductionMessage
unfolding read_header
read_message bs = record { hdr = read_header bs; payload = drop hdr_size bs }

-- Each member holds a value of its C type.
pub record IsHeader (h : DataProductionHdr) : Type 0 where
  pub pdu_type_fits : h.pdu_type < 2 ^ 8
  pub version_fits : h.version < 2 ^ 8
  pub req_id_fits : h.req_id < 2 ^ 16
  pub producer_id_fits : h.producer_id < 2 ^ 32
  pub exchange_id_fits : h.exchange_id < 2 ^ 32
  pub tv_sec_fits : h.timestamp.tv_sec < 2 ^ 32
  pub tv_nsec_fits : h.timestamp.tv_nsec < 2 ^ 32
  pub status_fits : h.status < 2 ^ 16
  pub reserved_a_fits : h.reserved_a < 2 ^ 16
  pub signature_fits : h.signature < 2 ^ 16
  pub reserved_b_fits : h.reserved_b < 2 ^ 16
  pub config_time_secs_fits : h.config_time_secs < 2 ^ 32

pub record IsMessage (m : DataProductionMessage) : Type 0 where
  pub header : IsHeader m.hdr
  pub payload_length : length m.payload ≡ max_egd_payload

-- ===== src/Send/Message/Interop.antt =====
-- The datagrams of EgdSend.c under the struct of libEGD-master/src/egd/util/egd_spec.h, which
-- places the same members and a configuration time in the reserved bytes.
use auroralink.Prelude.{ℕ, ◌+◌, ◌≡◌, refl, List, ◌++◌, replicate, take, arith, Bool-cases, inl, inr}
use auroralink.Prelude.Int.{ℤ}
use auroralink.Bytes.{le_bytes}
use auroralink.Spec.{
  read_header, header_bytes as libegd_bytes, IsHeader, DataProductionHdr as LibHdr,
}
use auroralink.Spec.Layout.{read_header-header_bytes}
use auroralink.Client.Types.{SockAddr}
use auroralink.Client.Connect.{is_socket_error}
use auroralink.Send.Types.{DataProductionHdr, DataProductionMessage, Timespec, sent}
use auroralink.Send.Clock.{get_current_egd_time}
use auroralink.Send.Message.{header_bytes, send_data_message}
use auroralink.Send.Loop.{data_size}

-- The library's header with the sender's members, and zeros in the reserved bytes.
abbrev pub as_libegd : DataProductionHdr → LibHdr
as_libegd h = record {
  pdu_type = h.pdu_type;
  version = h.version;
  req_id = h.req_id;
  producer_id = h.producer_id;
  exchange_id = h.exchange_id;
  timestamp = record { tv_sec = h.timestamp.tv_sec; tv_nsec = h.timestamp.tv_nsec };
  status = h.status;
  reserved_a = h.reserved_a;
  signature = h.signature;
  reserved_b = 0;
  config_time_secs = 0;
}

abbrev pub IsSenderHeader : DataProductionHdr → Type 0
IsSenderHeader h = IsHeader (as_libegd h) × (h.reserved_b ≡ replicate 6 0)

abbrev pub stamp : Timespec → DataProductionHdr → DataProductionHdr
stamp now h = record h { timestamp = get_current_egd_time now }

stamp-IsHeader :
    (now : Timespec) (h : DataProductionHdr)
    → IsHeader (as_libegd h)
    → IsHeader (as_libegd (stamp now h))
unfolding get_current_egd_time
stamp-IsHeader now h v = record {
  pdu_type_fits = v.pdu_type_fits;
  version_fits = v.version_fits;
  req_id_fits = v.req_id_fits;
  producer_id_fits = v.producer_id_fits;
  exchange_id_fits = v.exchange_id_fits;
  tv_sec_fits = omega arith;
  tv_nsec_fits = omega arith;
  status_fits = v.status_fits;
  reserved_a_fits = v.reserved_a_fits;
  signature_fits = v.signature_fits;
  reserved_b_fits = v.reserved_b_fits;
  config_time_secs_fits = v.config_time_secs_fits;
}

read_sent :
    (h : DataProductionHdr) (payload : List ℕ)
    → IsSenderHeader h
    → read_header (take (32 + data_size) (header_bytes h ++ payload)) ≡ as_libegd h
unfolding header_bytes libegd_bytes le_bytes
read_sent h payload (v, zeros) =
    rw zeros (read_header-header_bytes (as_libegd h) (take data_size payload) v)

-- The library reads the header of a datagram that the sender sends as the sender's
-- header with the time of the send, and a configuration time of 0: for a header whose members fit
-- and whose reserved bytes are zeros, whether or not the send succeeds.
pub read_header-send_data_message :
    (sock : ℤ) (addr : SockAddr) (m : DataProductionMessage) (now : Timespec) (reply : ℤ)
    → IsSenderHeader m.hdr
    → (bytes : List ℕ) × ((send_data_message sock addr m data_size now reply).2
        ≡ sent sock bytes addr)
      × (read_header bytes ≡ as_libegd (stamp now m.hdr))
unfolding send_data_message
read_header-send_data_message sock addr m now reply (v, zeros) = (
  take (32 + data_size) (header_bytes (stamp now m.hdr) ++ m.payload),
  elim (Bool-cases (is_socket_error reply)) [
    | inl failed ↦ rw failed refl
    | inr went ↦ rw went refl
  ],
  read_sent (stamp now m.hdr) m.payload (stamp-IsHeader now m.hdr v, zeros),
)

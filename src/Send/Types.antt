-- ===== src/Send/Types.antt =====
-- EgdTest.h and the structs of EgdSend.c, with the answers that the program gets from the system.
use auroralink.Prelude.{ℕ, Bool, List}
use auroralink.Prelude.Int.{ℤ}
use auroralink.Client.Types.{SockAddr}

-- EGD_PDU_TYPE_DATA_PRODUCTION to EGD_MAX_DATA_SIZE.
abbrev pub egd_pdu_type_data_production : ℕ
egd_pdu_type_data_production = 13

abbrev pub egd_status_healthy_not_synced : ℕ
egd_status_healthy_not_synced = 2

abbrev pub egd_status_invalid : ℕ
egd_status_invalid = 1

abbrev pub egd_default_port : ℕ
egd_default_port = 18246

abbrev pub egd_max_data_size : ℕ
egd_max_data_size = 1400

-- `tv_nsec` is an `int32_t`, here its bit pattern.
pub record EgdTime : Type 0 where
  pub tv_sec : ℕ
  pub tv_nsec : ℕ

-- `reserved_b` holds six bytes.
pub record DataProductionHdr : Type 0 where
  pub pdu_type : ℕ
  pub version : ℕ
  pub req_id : ℕ
  pub producer_id : ℕ
  pub exchange_id : ℕ
  pub timestamp : EgdTime
  pub status : ℕ
  pub reserved_a : ℕ
  pub signature : ℕ
  pub reserved_b : List ℕ

pub record DataProductionMessage : Type 0 where
  pub hdr : DataProductionHdr
  pub payload : List ℕ

-- `struct timespec`, of a clock that is not before its epoch.
pub record Timespec : Type 0 where
  pub tv_sec : ℕ
  pub tv_nsec : ℕ

-- The arithmetic on `double` that the program uses; `tenth` is the constant 0.1.
pub record DoubleArith : Type 1 where
  pub Double : Type 0
  pub of_int : ℤ → Double
  pub tenth : Double
  pub add : Double → Double → Double
  pub mul : Double → Double → Double
  pub div : Double → Double → Double
  pub lt : Double → Double → Bool
  pub sin : Double → Double
  pub bits : Double → ℕ

pub record TimingStats (D : Type 0) : Type 0 where
  pub min_jitter_ms : D
  pub max_jitter_ms : D
  pub total_jitter_ms : D
  pub min_send_time_ms : D
  pub max_send_time_ms : D
  pub total_send_time_ms : D
  pub samples : ℕ

-- What one `clock_nanosleep` returns, and `g_running` after it.
pub record SleepReply : Type 0 where
  pub ret : ℕ
  pub running : Bool

-- What the system answers in one round of the loop: `g_running` at its head, and the clock readings
-- and replies in their order. `reset_time` is read after an overrun only.
pub record SendRound : Type 0 where
  pub running : Bool
  pub send_start : Timespec
  pub now : Timespec
  pub sendto_reply : ℤ
  pub send_end : Timespec
  pub sleep : List SleepReply
  pub actual_wake : Timespec
  pub reset_time : Timespec

-- What it answers in one run of `SenderExample`.
pub record SenderReplies : Type 0 where
  pub socket_reply : ℤ
  pub bind_reply : ℤ
  pub broadcast_reply : ℤ
  pub sndbuf_reply : ℤ
  pub start : Timespec
  pub rounds : List SendRound
  pub last_now : Timespec
  pub last_sendto_reply : ℤ

-- The calls that the program makes, in order.
pub data SenderCall : Type 0 where
  opened : ℤ → SenderCall
  bound : ℤ → SockAddr → SenderCall
  broadcasting : ℤ → SenderCall
  send_buffer : ℤ → ℕ → SenderCall
  sent : ℤ → List ℕ → SockAddr → SenderCall
  closed : ℤ → SenderCall

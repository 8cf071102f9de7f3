-- ===== src/Client/Types.antt =====
-- libEGD-master/src/egd/client/egd_client.hpp: the state of a client, and the calls that it makes
-- of the operating system.
use auroralink.Prelude.{ℕ, ◌-◌, ◌%◌, ◌^◌, Text, Option, List}
use auroralink.Prelude.Int.{ℤ, pos, negsuc}
use auroralink.Prelude.Assoc.{Map}
use auroralink.Spec.{DataTime}
use auroralink.Config.Types.{EgdPageInfo}

-- `sockaddr_in`; the port is in network byte order.
pub record SockAddr : Type 0 where
  pub sin_family : ℕ
  pub sin_addr : ℕ
  pub sin_port : ℕ

pub record EgdConnectionInfo : Type 0 where
  pub host : Text
  pub port : ℕ
  pub addr : SockAddr
  pub socket : ℤ

-- `request_id` is an `int`, here its bit pattern.
pub record EgdPubInfo : Type 0 where
  pub connection : EgdConnectionInfo
  pub open connection use *
  pub request_id : ℕ

-- A callback and the user's data are pointers.
pub record EgdSubCallbackInfo : Type 0 where
  pub callback : ℕ
  pub page_info : EgdPageInfo
  pub user_data : ℕ

pub record EgdSubInfo : Type 0 where
  pub connection : EgdConnectionInfo
  pub open connection use *
  pub callbacks : List EgdSubCallbackInfo

-- The tuples (host, port, producer, exchange) and (host, port).
abbrev pub EgdPubKey : Type 0
EgdPubKey = Text × (ℕ × (ℕ × ℕ))

abbrev pub EgdSubKey : Type 0
EgdSubKey = Text × ℕ

pub record EgdClient : Type 0 where
  pub publisher_map : Map EgdPubKey EgdPubInfo
  pub subscriber_map : Map EgdSubKey EgdSubInfo

-- `inet_addr`, which is `INADDR_NONE` on a text that is no address, and the eight bytes that
-- stand at the first address of what `gethostbyname` finds, as a `long`.
pub record Resolver : Type 0 where
  pub inet_addr : Text → ℕ
  pub gethostbyname : Text → Option ℤ

-- What the system answers to the calls of one operation. `after_overflow` is what the machine leaves
-- of an `int` that is increased past 2^31 - 1, of which C++ says nothing.
pub record Replies : Type 0 where
  pub socket_reply : ℤ
  pub setsockopt_reply : ℤ
  pub bind_reply : ℤ
  pub rcvbuf_reply : ℤ
  pub now : DataTime
  pub sendto_reply : ℤ
  pub after_overflow : ℕ

-- The calls that an operation makes, in order. `open_socket` holds the descriptor that came back.
pub data SystemCall : Type 0 where
  open_socket : ℤ → SystemCall
  set_broadcast : ℤ → SystemCall
  set_reuse_addr : ℤ → SystemCall
  bind_socket : ℤ → SockAddr → SystemCall
  set_receive_buffer : ℤ → ℕ → SystemCall
  send_to : ℤ → List ℕ → SockAddr → SystemCall
  start_thread : EgdSubKey → SystemCall
  join_thread : EgdSubKey → SystemCall
  close_socket : ℤ → SystemCall

-- A `long` or `ssize_t` as a `size_t`.
unfoldable pub to_size : ℤ → ℕ
to_size (pos n) = n % 2 ^ 64
to_size (negsuc n) = 2 ^ 64 - 1 - n % 2 ^ 64

-- ===== src/Send/Setup.antt =====
-- EgdSend.c: `ParseAddressString` and `SetupSendSocket`.
use auroralink.Prelude.{
  ℕ, ◌*◌, ◌%◌, ◌^◌, Text, codes, Bool, Option, none, some, List, [], ◌∷◌, ◌==◌, if◌then◌else◌,
}
use auroralink.Prelude.Int.{ℤ, pos, negsuc}
use auroralink.Prelude.Eq.{text_eqb}
use auroralink.Client.Types.{SockAddr, Resolver, to_size}
use auroralink.Client.Address.{inaddr_none, af_inet, htons}
use auroralink.Client.Connect.{is_socket_error}
use auroralink.Send.Types.{
  SenderCall, opened, bound, broadcasting, send_buffer, SenderReplies, egd_default_port,
}

-- The socket address of an Internet address.
abbrev pub address_at : ℕ → SockAddr
address_at ba = record { sin_family = af_inet; sin_addr = ba; sin_port = htons egd_default_port }

abbrev pub every_host : Text
every_host = codes "255.255.255.255"

-- Four bytes are copied of what `gethostbyname` finds; `none` is the status 1.
unfoldable pub parse_address_string : Resolver → Text → Option SockAddr
unfolding to_size htons
parse_address_string r address =
    if r.inet_addr address == inaddr_none
    then (elim (r.gethostbyname address) [
      | none ↦ if text_eqb every_host address then some (address_at 0xffff_ffff) else none
      | some ba ↦ some (address_at (to_size ba % 2 ^ 32))
    ])
    else some (address_at (r.inet_addr address))

-- INVALID_SOCKET is -1 here.
abbrev pub invalid_socket : ℤ
invalid_socket = negsuc 0

-- Any reply but 0.
abbrev pub is_nonzero : ℤ → Bool
is_nonzero (pos n) = if n == 0 then Bool.false else Bool.true
is_nonzero (negsuc n) = Bool.true

abbrev pub any_address : SockAddr
any_address = record { sin_family = af_inet; sin_addr = 0; sin_port = 0 }

-- The descriptor in `*pSock`, the status, and the calls.
unfoldable pub setup_send_socket : SenderReplies → ℤ × ℕ × List SenderCall
setup_send_socket r =
    let sock = r.socket_reply in
    let to_bind = opened sock ∷ bound sock any_address ∷ [] in
    let to_broadcast = opened sock ∷ bound sock any_address ∷ broadcasting sock ∷ [] in
    let to_buffer =
      opened sock
      ∷ bound sock any_address
      ∷ broadcasting sock
      ∷ send_buffer sock (32 * 1024)
      ∷ [] in
    if is_socket_error sock
    then (sock, 1, opened sock ∷ [])
    else (if is_socket_error r.bind_reply
        then (sock, 2, to_bind)
        else (if is_nonzero r.broadcast_reply
            then (sock, 3, to_broadcast)
            else (if is_nonzero r.sndbuf_reply
                then (sock, 4, to_buffer)
                else (sock, 0, to_buffer))))

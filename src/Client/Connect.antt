-- ===== src/Client/Connect.antt =====
-- libEGD-master/src/egd/client/egd_client.cpp, `PublishConnect` and `SubscribeConnect`. Each
-- returns the information as it leaves it, its status, and the calls that it has made.
use auroralink.Prelude.{ℕ, zero, ◌*◌, Text, Bool, true, false, List, [], ◌∷◌, if◌then◌else◌}
use auroralink.Prelude.Int.{ℤ, pos, negsuc}
use auroralink.Status.{
  EgdStatus, ok, err_invalid_socket, err_broadcast, err_unable_to_reuse, err_bind, err_buf_size,
  is_ok,
}
use auroralink.Client.Types.{
  EgdConnectionInfo, Resolver, Replies, SystemCall, open_socket, set_broadcast, set_reuse_addr,
  bind_socket, set_receive_buffer,
}
use auroralink.Client.Address.{get_addr}

abbrev pub buf_size : ℕ
buf_size = 128 * 1024

-- `x == INVALID_SOCKET`, where the constant is 0.
unfoldable pub is_invalid_socket : ℤ → Bool
is_invalid_socket (pos zero) = true
is_invalid_socket _ = false

-- `if (setsockopt(…))`: any value but 0.
unfoldable pub is_failure : ℤ → Bool
is_failure (pos zero) = false
is_failure _ = true

-- `x == SOCKET_ERROR`, where the constant is -1.
unfoldable pub is_socket_error : ℤ → Bool
is_socket_error (negsuc zero) = true
is_socket_error _ = false

unfoldable pub publish_connect :
    Resolver
    → Replies
    → Text
    → ℕ
    → EgdConnectionInfo
    → EgdConnectionInfo × EgdStatus × List SystemCall
unfolding get_addr is_invalid_socket is_failure
publish_connect r s h p info =
    let (address, status) = get_addr r h p in
    let named = record info { host = h; port = p; addr = address } in
    let fd = s.socket_reply in
    let opened = record named { socket = fd } in
    if is_ok status
    then (if is_invalid_socket fd
        then (opened, err_invalid_socket, open_socket fd ∷ [])
        else (if is_failure s.setsockopt_reply
            then (opened, err_broadcast, open_socket fd ∷ set_broadcast fd ∷ [])
            else (opened, ok, open_socket fd ∷ set_broadcast fd ∷ [])))
    else (named, status, [])

unfoldable pub subscribe_connect :
    Resolver
    → Replies
    → Text
    → ℕ
    → EgdConnectionInfo
    → EgdConnectionInfo × EgdStatus × List SystemCall
unfolding get_addr is_invalid_socket is_failure is_socket_error
subscribe_connect r s h p info =
    let (address, status) = get_addr r h p in
    let named = record info { host = h; port = p; addr = address } in
    let fd = s.socket_reply in
    let opened = record named { socket = fd } in
    if is_ok status
    then (if is_invalid_socket fd
        then (opened, err_invalid_socket, open_socket fd ∷ [])
        else (if is_failure s.setsockopt_reply
            then (opened, err_unable_to_reuse, open_socket fd ∷ set_reuse_addr fd ∷ [])
            else (if is_socket_error s.bind_reply
                then (
                  opened,
                  err_bind,
                  open_socket fd ∷ set_reuse_addr fd ∷ bind_socket fd address ∷ [],
                )
                else (if is_failure s.rcvbuf_reply
                    then (
                      opened,
                      err_buf_size,
                      open_socket fd
                          ∷ set_reuse_addr fd
                          ∷ bind_socket fd address
                          ∷ set_receive_buffer fd buf_size
                          ∷ [],
                    )
                    else (
                      opened,
                      ok,
                      open_socket fd
                          ∷ set_reuse_addr fd
                          ∷ bind_socket fd address
                          ∷ set_receive_buffer fd buf_size
                          ∷ [],
                    )))))
    else (named, status, [])

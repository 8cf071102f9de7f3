-- ===== src/Client/Subscribe.antt =====
-- libEGD-master/src/egd/client/egd_client.cpp, `Subscribe`, `SubscribeBlocking` and the
-- destructor.
mod Tests
pub mod Lifetime
use auroralink.Prelude.Order.{text_less, pair_less, in_order}
use auroralink.Prelude.{ℕ, Text, Bool, ltb, Option, none, some, List, [], ◌∷◌, ◌++◌, if◌then◌else◌}
use auroralink.Prelude.Int.{pos}
use auroralink.Prelude.Eq.{nat_eq, text_eq, pair_eq}
use auroralink.Prelude.Assoc.{Map, find, assign}
use auroralink.Status.{EgdStatus, ok, err_null, is_ok}
use auroralink.Client.Types.{
  EgdPubInfo, EgdSubInfo, EgdSubCallbackInfo, EgdPubKey, EgdSubKey, EgdClient, Resolver, Replies,
  SystemCall, start_thread, join_thread, close_socket,
}
use auroralink.Client.Address.{zero_addr}
use auroralink.Client.Connect.{subscribe_connect}
use auroralink.Client.Poll.{ConfigService, Invocation, Round, poll_socket}

-- A local `EgdSubInfo` before it is connected.
abbrev pub new_sub_info : EgdSubInfo
new_sub_info = record {
  connection = record { host = []; port = 0; addr = zero_addr; socket = pos 0 };
  callbacks = [];
}

-- `callbacks.emplace_back(…)`, under the write lock.
unfoldable pub add_callback : EgdSubCallbackInfo → EgdSubInfo → EgdSubInfo
add_callback cb info = record info { callbacks = info.callbacks ++ cb ∷ [] }

unfoldable pub subscribe :
    Resolver
    → Replies
    → EgdClient
    → Text
    → ℕ
    → EgdSubCallbackInfo
    → EgdClient × EgdStatus × List SystemCall
unfolding subscribe_connect add_callback find assign
subscribe r s c h p cb =
    let key : EgdSubKey = (h, p) in
    let (connected, status, calls) = subscribe_connect r s h p new_sub_info.connection in
    let fresh = record new_sub_info { connection = connected } in
    elim (find key c.subscriber_map) [
      | none ↦
          if is_ok status
          then (
            record c { subscriber_map = assign key (add_callback cb fresh) c.subscriber_map },
            ok,
            calls ++ start_thread key ∷ [],
          )
          else (c, status, calls)
      | some info ↦
          (record c { subscriber_map = assign key (add_callback cb info) c.subscriber_map }, ok, [])
    ]

-- `SubscribeBlocking` keeps its subscription to itself, and polls in the caller's thread.
module _ (service : ConfigService) (c_string : Text → Text) where
  open service use {Configs}

  unfoldable pub subscribe_blocking :
      Resolver
      → Replies
      → Configs
      → List Round
      → Text
      → ℕ
      → EgdSubCallbackInfo
      → Configs × List Invocation × EgdStatus × List SystemCall
  unfolding subscribe_connect add_callback poll_socket
  subscribe_blocking r s cs rounds h p cb =
      let (connected, status, calls) = subscribe_connect r s h p new_sub_info.connection in
      let info = add_callback cb (record new_sub_info { connection = connected }) in
      let (cs', _, invocations) = poll_socket service c_string cs rounds info.callbacks in
      if is_ok status
      then (cs', invocations, ok, calls ++ close_socket info.socket ∷ [])
      else (cs, [], status, calls)

-- `~EgdClient`: by key, each subscriber's thread is joined and its socket closed, then the sockets
-- of the publishers are.
abbrev pub sub_key_less : EgdSubKey → EgdSubKey → Bool
sub_key_less = pair_less text_less ltb

abbrev pub pub_key_less : EgdPubKey → EgdPubKey → Bool
pub_key_less = pair_less text_less (pair_less ltb (pair_less ltb ltb))

unfoldable pub join_and_close : Map EgdSubKey EgdSubInfo → List SystemCall
join_and_close [] = []
join_and_close ((key, info) ∷ m) = join_thread key ∷ close_socket info.socket ∷ join_and_close m

unfoldable pub close_subscribers : Map EgdSubKey EgdSubInfo → List SystemCall
unfolding join_and_close in_order
close_subscribers m = join_and_close (in_order sub_key_less m)

unfoldable pub close_each : Map EgdPubKey EgdPubInfo → List SystemCall
close_each [] = []
close_each ((key, info) ∷ m) = close_socket info.socket ∷ close_each m

unfoldable pub close_publishers : Map EgdPubKey EgdPubInfo → List SystemCall
unfolding close_each in_order
close_publishers m = close_each (in_order pub_key_less m)

unfoldable pub destroy_client : EgdClient → List SystemCall
unfolding close_subscribers close_publishers
destroy_client c = close_subscribers c.subscriber_map ++ close_publishers c.publisher_map

-- The C interface.
abbrev pub egd_client_init : EgdClient
egd_client_init = record { publisher_map = []; subscriber_map = [] }

unfoldable pub egd_client_subscribe :
    Resolver
    → Replies
    → Option EgdClient
    → Text
    → ℕ
    → EgdSubCallbackInfo
    → Option EgdClient × EgdStatus × List SystemCall
unfolding subscribe
egd_client_subscribe r s none h p cb = (none, err_null, [])
egd_client_subscribe r s (some c) h p cb =
    let (c', status, calls) = subscribe r s c h p cb in (some c', status, calls)

-- `delete` of a null pointer does nothing.
unfoldable pub egd_client_free : Option EgdClient → List SystemCall
unfolding destroy_client
egd_client_free none = []
egd_client_free (some c) = destroy_client c

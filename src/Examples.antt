-- ===== src/Examples.antt =====
-- libEGD-master/src/examples: json_publish.cpp, json_subscribe.cpp, raw_bytes_publish.cpp,
-- raw_bytes_subscribe.cpp, and the command line and the socket of list_available_pages.cpp. The
-- loops that wait for ever run for as many rounds as the system answers.
pub mod Value
pub mod Mains
pub mod Interface
pub mod Agree
mod Tests
use auroralink.Prelude.{
  ℕ, ◌*◌, ◌/◌, Text, codes, Option, none, some, List, [], ◌∷◌, ◌++◌, if◌then◌else◌,
}
use auroralink.Prelude.Int.{ℤ}
use auroralink.Prelude.Assoc.{or_default}
use auroralink.Status.{EgdStatus, is_ok}
use auroralink.Bytes.{store, load}
use auroralink.Config.Types.{EgdDataType, EgdTypeNameMap, EgdVarInfo, EgdPageInfo, EgdConfig}
use auroralink.Config.Libraries.{Xml, Transfer, UrlLibrary}
use auroralink.Config.Query.{get_page_info, get_var_info}
use auroralink.Config.Read.{producer_config, read}
use auroralink.Client.Types.{
  SockAddr, EgdSubCallbackInfo, EgdClient, Resolver, Replies, SystemCall, open_socket,
  set_reuse_addr, bind_socket, set_receive_buffer,
}
use auroralink.Client.Address.{af_inet, htons}
use auroralink.Client.Connect.{is_invalid_socket, is_failure, is_socket_error}
use auroralink.Client.Publish.{publish}
use auroralink.Client.Subscribe.{subscribe, egd_client_init}
use auroralink.Client.Poll.{Invocation}
use auroralink.Json.Library.{JsonLibrary}
use auroralink.Json.Encode.{Result, done, ◌>>=◌, or_fault}
use auroralink.Json.Messages.{
  JsonClient, JsonInvocation, publish_json, subscribe_json, egd_json_client_init,
}

abbrev pub my_page : Text
my_page = codes "my_page_info"

abbrev pub my_variable : Text
my_variable = codes "my_variable_name"

abbrev pub local_host : Text
local_host = codes "127.0.0.1"

-- A program that ends with -1 has a status to print, and the calls of the system that its client has
-- made; another goes on with what it has read.
pub data Start {ℓ} (A : Type ℓ) : Type ℓ where
  failed : EgdStatus → List SystemCall → Start A
  ready : A → Start A

-- The head of each `main`: read the config of a producer, then look up the page. `page` is what
-- the local variable held.
module _ (x : Xml) (u : UrlLibrary) (t : Transfer) (names : EgdTypeNameMap) where
  unfoldable pub page_of : EgdConfig → EgdPageInfo → Start (EgdConfig × EgdPageInfo)
  unfolding get_page_info
  page_of c page =
      let (found, status) = get_page_info c my_page (some page) in
      if is_ok status then ready (c, or_default page found) else failed status []

  unfoldable pub open_page : EgdConfig → EgdPageInfo → Start (EgdConfig × EgdPageInfo)
  unfolding read page_of
  open_page c page =
      let (_, c', status) = read x u producer_config t names c 123456 in
      if is_ok status then page_of c' page else failed status []

-- raw_bytes_publish.cpp: the variable, and the byte that is set in the local array.
unfoldable pub find_variable : EgdConfig → EgdPageInfo → EgdVarInfo → Start EgdVarInfo
unfolding get_var_info
find_variable c page var =
    let (found, status) = get_var_info c my_variable page (some var) in
    if is_ok status then ready (or_default var found) else failed status []

unfoldable pub fill_data : EgdVarInfo → List ℕ → Result (List ℕ)
unfolding store
fill_data var bytes = elim var.data_type.type [
  | EgdDataType.ulint ↦ or_fault (store bytes (var.bit_offset / 8) (42 ∷ []))
  | _ ↦ done bytes
]

-- The loops of the two publishers: for each round the status that is printed, and the calls that
-- the client makes.
unfoldable pub raw_bytes_publish :
    Resolver → List Replies → EgdClient → EgdPageInfo → List ℕ → List (EgdStatus × List SystemCall)
unfolding publish
raw_bytes_publish r [] c page bytes = []
raw_bytes_publish r (s ∷ ss) c page bytes =
    let (c', status, calls) = publish r s c local_host 18246 page bytes in
    (status, calls) ∷ raw_bytes_publish r ss c' page bytes

abbrev pub my_message : Text
my_message = codes "{\"my_variable_name\": 42}"

unfoldable pub json_publish :
    JsonLibrary
    → Resolver
    → List Replies
    → JsonClient
    → EgdPageInfo
    → List (Result EgdStatus × List SystemCall)
unfolding publish_json
json_publish l r [] c page = []
json_publish l r (s ∷ ss) c page =
    let (c', result, calls) = publish_json l r s c local_host 18246 page my_message in
    (result, calls) ∷ json_publish l r ss c' page

-- raw_bytes_subscribe.cpp, the callback: the number that it prints, if any. `var` is what the
-- local variable held, which a failed lookup leaves.
unfoldable pub print_variable : EgdVarInfo → List ℕ → Result (Option ℕ)
unfolding load
print_variable var payload = elim var.data_type.type [
  | EgdDataType.ulint ↦ do v ← or_fault (load payload (var.bit_offset / 8) 8); done (some v)
  | _ ↦ done none
]

unfoldable pub raw_bytes_callback : EgdConfig → EgdVarInfo → Invocation → Result (Option ℕ)
unfolding get_var_info print_variable
raw_bytes_callback c var i =
    if is_ok i.status
    then print_variable (or_default var (get_var_info c my_variable i.page_info (some var)).0)
        i.payload
    else done none

-- json_subscribe.cpp, the callback: the message that it prints, if any.
unfoldable pub json_callback : JsonInvocation → Option Text
json_callback i = if is_ok i.status then some i.message else none

-- The subscriptions of the two `main`s, with the address of the callback and of the config.
unfoldable pub raw_bytes_subscribe :
    Resolver → Replies → EgdPageInfo → ℕ → ℕ → Start (EgdClient × List SystemCall)
unfolding subscribe
raw_bytes_subscribe r s page callback config =
    let cb : EgdSubCallbackInfo = record {
      callback = callback;
      page_info = page;
      user_data = config;
    } in
    let (c, status, calls) = subscribe r s egd_client_init (codes "0.0.0.0") 18246 cb in
    if is_ok status then ready (c, calls) else failed status calls

unfoldable pub json_subscribe :
    Resolver → Replies → ℕ → EgdPageInfo → ℕ → ℕ → Start (JsonClient × List SystemCall)
unfolding subscribe_json
json_subscribe r s proxy page callback config =
    let (c, status, calls) =
      subscribe_json proxy r s egd_json_client_init (codes "0.0.0.0") 18246 page callback config in
    if is_ok status then ready (c, calls) else failed status calls

-- list_available_pages.cpp: the socket to listen on, or the message of the failure, and the calls.
unfoldable pub listening_socket : Resolver → Replies → (ℤ × Text) × List SystemCall
unfolding is_invalid_socket is_failure is_socket_error htons
listening_socket r s =
    let fd = s.socket_reply in
    let address : SockAddr = record {
      sin_family = af_inet;
      sin_addr = r.inet_addr (codes "0.0.0.0");
      sin_port = htons 18246;
    } in
    let opened = open_socket fd ∷ [] in
    let reused = opened ++ set_reuse_addr fd ∷ [] in
    let bound = reused ++ bind_socket fd address ∷ [] in
    if is_invalid_socket fd
    then ((fd, codes "Unable to create socket"), opened)
    else (if is_failure s.setsockopt_reply
        then ((fd, codes "Unable to set reuse address"), reused)
        else (if is_socket_error s.bind_reply
            then ((fd, codes "Unable to bind on socket"), bound)
            else (if is_failure s.rcvbuf_reply
                then (
                  (fd, codes "Unable to set the buffer size on the socket"),
                  bound ++ set_receive_buffer fd (128 * 1024) ∷ [],
                )
                else ((fd, []), bound ++ set_receive_buffer fd (128 * 1024) ∷ []))))

-- ===== src/Json/Messages.antt =====
-- libEGD-master/src/egd/client/json_client.hpp and json_client.cpp: the client itself. A
-- `JsonClient` is an `EgdClient` with the user data of its subscriptions, which are kept so that
-- the pointers handed to the base class stay good; a pointer is an index into them.
pub mod Outcomes
pub mod Callback
pub mod UserData
use auroralink.Prelude.{
  ℕ, Text, Option, none, some, List, [], ◌∷◌, ◌++◌, length, replicate, ltb, if◌then◌else◌,
}
use auroralink.Status.{EgdStatus, err_null, err_json_parse, err_invalid_json}
use auroralink.Spec.{DataProductionHdr, max_egd_payload}
use auroralink.Config.Types.{EgdPageInfo}
use auroralink.Client.Types.{EgdClient, EgdSubCallbackInfo, Resolver, Replies, SystemCall}
use auroralink.Client.Publish.{publish}
use auroralink.Client.Subscribe.{subscribe, subscribe_blocking, egd_client_init, destroy_client}
use auroralink.Client.Poll.{ConfigService, Invocation, Round}
use auroralink.Json.Library.{JsonLibrary, message_of}
use auroralink.Json.Encode.{Result, done, returned, thrown, fault, ◌>>=◌, encode_items}
use auroralink.Json.Decode.{decode_vars}

pub record JsonUserData : Type 0 where
  pub callback : ℕ
  pub user_data : ℕ

pub record JsonClient : Type 0 where
  pub base : EgdClient
  pub json_user_data : List JsonUserData

-- A call of a user's JSON callback.
pub record JsonInvocation : Type 0 where
  pub callback : ℕ
  pub page_info : EgdPageInfo
  pub header : DataProductionHdr
  pub status : EgdStatus
  pub message : Text
  pub user_data : ℕ

-- An exception that nothing catches.
abbrev pub or_thrown : Option Text → Result Text
or_thrown none = thrown
or_thrown (some text) = done text

module _ (l : JsonLibrary) where
  open l use {Json, parse, is_object, items, dump}

  -- What `Publish` hands to the base class.
  unfoldable pub payload_of : Option Json → EgdPageInfo → Result (List ℕ)
  unfolding encode_items
  payload_of none page = returned err_json_parse
  payload_of (some j) page =
      if is_object j
      then encode_items l page.var_map (items j) (replicate max_egd_payload 0)
      else returned err_invalid_json

  -- An exception and an access out of bounds leave the client as it is.
  unfoldable pub publish_payload :
      Resolver
      → Replies
      → JsonClient
      → Text
      → ℕ
      → EgdPageInfo
      → Result (List ℕ)
      → JsonClient × Result EgdStatus × List SystemCall
  unfolding publish
  publish_payload r s c h p page (done payload) =
      let (base', status, calls) = publish r s c.base h p page payload in
      (record c { base = base' }, done status, calls)
  publish_payload r s c h p page (returned status) = (c, done status, [])
  publish_payload r s c h p page thrown = (c, thrown, [])
  publish_payload r s c h p page fault = (c, fault, [])

  unfoldable pub publish_json :
      Resolver
      → Replies
      → JsonClient
      → Text
      → ℕ
      → EgdPageInfo
      → Text
      → JsonClient × Result EgdStatus × List SystemCall
  unfolding payload_of publish_payload
  publish_json r s c h p page message =
      publish_payload r s c h p page (payload_of (parse message) page)

  -- The callback that the base class calls: nothing for a payload that is too short for its page.
  unfoldable pub json_proxy_callback : JsonUserData → Invocation → Result (Option JsonInvocation)
  unfolding decode_vars
  json_proxy_callback user i = if ltb i.data_len i.page_info.data_length then done none else (do
    members ← decode_vars i.payload i.page_info.var_map []
    message ← or_thrown (dump (message_of members))
    done (
        some (record {
          callback = user.callback;
          page_info = i.page_info;
          header = i.header;
          status = i.status;
          message = message;
          user_data = user.user_data;
        })))

-- `proxy` is the address of `JsonProxyCallback`.
module _ (proxy : ℕ) where
  unfoldable pub subscribe_json :
      Resolver
      → Replies
      → JsonClient
      → Text
      → ℕ
      → EgdPageInfo
      → ℕ
      → ℕ
      → JsonClient × EgdStatus × List SystemCall
  unfolding subscribe
  subscribe_json r s c h p page callback user_data =
      let kept = c.json_user_data ++ record { callback = callback; user_data = user_data } ∷ [] in
      let cb : EgdSubCallbackInfo = record {
        callback = proxy;
        page_info = page;
        user_data = length c.json_user_data;
      } in
      let (base', status, calls) = subscribe r s c.base h p cb in
      (record { base = base'; json_user_data = kept }, status, calls)

  -- `SubscribeBlocking` keeps the user data too.
  module _ (service : ConfigService) (c_string : Text → Text) where
    unfoldable pub subscribe_blocking_json :
        Resolver
        → Replies
        → service.Configs
        → List Round
        → JsonClient
        → Text
        → ℕ
        → EgdPageInfo
        → ℕ
        → ℕ
        → JsonClient × service.Configs × List Invocation × EgdStatus × List SystemCall
    unfolding subscribe_blocking
    subscribe_blocking_json r s cs rounds c h p page callback user_data =
        let cb : EgdSubCallbackInfo = record {
          callback = proxy;
          page_info = page;
          user_data = length c.json_user_data;
        } in
        let (cs', calls, status, system) =
          subscribe_blocking service c_string r s cs rounds h p cb in
        (
          record c {
            json_user_data =
                c.json_user_data ++ record { callback = callback; user_data = user_data } ∷ [];
          },
          cs',
          calls,
          status,
          system,
        )

  -- The C interface.
  unfoldable pub egd_json_client_subscribe :
      Resolver
      → Replies
      → Option JsonClient
      → Text
      → ℕ
      → EgdPageInfo
      → ℕ
      → ℕ
      → Option JsonClient × EgdStatus × List SystemCall
  unfolding subscribe_json
  egd_json_client_subscribe r s none h p page callback user_data = (none, err_null, [])
  egd_json_client_subscribe r s (some c) h p page callback user_data =
      let (c', status, calls) = subscribe_json r s c h p page callback user_data in
      (some c', status, calls)

unfoldable pub egd_json_client_publish :
    JsonLibrary
    → Resolver
    → Replies
    → Option JsonClient
    → Text
    → ℕ
    → EgdPageInfo
    → Text
    → Option JsonClient × Result EgdStatus × List SystemCall
unfolding publish_json
egd_json_client_publish l r s none h p page message = (none, done err_null, [])
egd_json_client_publish l r s (some c) h p page message =
    let (c', result, calls) = publish_json l r s c h p page message in (some c', result, calls)

abbrev pub egd_json_client_init : JsonClient
egd_json_client_init = record { base = egd_client_init; json_user_data = [] }

-- `delete` on a null pointer does nothing.
unfoldable pub egd_json_client_free : Option JsonClient → List SystemCall
unfolding destroy_client
egd_json_client_free none = []
egd_json_client_free (some c) = destroy_client c.base

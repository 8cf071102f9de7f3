-- ===== src/Examples/Interface.antt =====
-- libEGD-master/src/examples: raw_bytes_publish.c, raw_bytes_subscribe.c, json_publish.c and
-- json_subscribe.c, which do through the C interface what the C++ examples do with the classes.
use auroralink.Prelude.{ℕ, Text, codes, Option, none, some, List, [], ◌∷◌, if◌then◌else◌}
use auroralink.Prelude.Assoc.{or_default}
use auroralink.Status.{EgdStatus, is_ok}
use auroralink.Spec.{DataTime}
use auroralink.Config.Types.{EgdVarInfo, EgdPageInfo}
use auroralink.Config.Libraries.{Xml, Transfer, UrlLibrary}
use auroralink.Config.Query.{egd_config_get_page_info, egd_config_get_var_info}
use auroralink.Client.Types.{EgdClient, EgdSubCallbackInfo, Resolver, Replies, SystemCall}
use auroralink.Client.Publish.{egd_client_publish}
use auroralink.Client.Subscribe.{egd_client_subscribe, egd_client_init}
use auroralink.Client.Poll.{Invocation}
use auroralink.Client.Configs.{Objects, egd_config_read}
use auroralink.Client.Handles.{new_object, egd_producer_config_init, state_at}
use auroralink.Json.Library.{JsonLibrary}
use auroralink.Json.Encode.{Result, done, ◌>>=◌}
use auroralink.Json.Messages.{
  JsonClient, JsonInvocation, egd_json_client_init, egd_json_client_publish,
  egd_json_client_subscribe,
}
use auroralink.Examples.{
  Start, failed, ready, my_page, my_variable, my_message, local_host, fill_data, print_variable,
}
use auroralink.Examples.Mains.{and_then}

-- The head of each `main`. `handle` is the address of the new object, `held` what its memory held.
module _ (x : Xml) (u : UrlLibrary) (server : ℕ → Transfer) (handle : ℕ) (held : DataTime) where
  unfoldable pub get_page : Objects → EgdPageInfo → Start (Objects × EgdPageInfo)
  unfolding egd_config_get_page_info state_at
  get_page o page =
      let (found, status) = egd_config_get_page_info (state_at o handle) my_page (some page) in
      if is_ok status then ready (o, or_default page found) else failed status []

  unfoldable pub open_page_c : Objects → EgdPageInfo → Start (Objects × EgdPageInfo)
  unfolding egd_config_read get_page new_object
  open_page_c o page =
      let made = egd_producer_config_init o handle held local_host 7938 in
      let (o', status) = egd_config_read x u server made (some handle) 123456 in
      if is_ok status then get_page o' page else failed status []

  unfoldable pub find_variable_c : Objects → EgdPageInfo → EgdVarInfo → Start EgdVarInfo
  unfolding egd_config_get_var_info state_at
  find_variable_c o page var =
      let (found, status) =
        egd_config_get_var_info (state_at o handle) my_variable page (some var) in
      if is_ok status then ready (or_default var found) else failed status []

-- The loops of the publishers.
unfoldable pub raw_bytes_publish_c :
    Resolver
    → List Replies
    → Option EgdClient
    → EgdPageInfo
    → List ℕ
    → List (EgdStatus × List SystemCall)
unfolding egd_client_publish
raw_bytes_publish_c r [] c page bytes = []
raw_bytes_publish_c r (s ∷ ss) c page bytes =
    let (c', status, calls) = egd_client_publish r s c local_host 18246 page bytes in
    (status, calls) ∷ raw_bytes_publish_c r ss c' page bytes

unfoldable pub json_publish_c :
    JsonLibrary
    → Resolver
    → List Replies
    → Option JsonClient
    → EgdPageInfo
    → List (Result EgdStatus × List SystemCall)
unfolding egd_json_client_publish
json_publish_c l r [] c page = []
json_publish_c l r (s ∷ ss) c page =
    let (c', result, calls) = egd_json_client_publish l r s c local_host 18246 page my_message in
    (result, calls) ∷ json_publish_c l r ss c' page

-- The callbacks; `user_data` is the handle.
unfoldable pub raw_bytes_callback_c : Objects → EgdVarInfo → Invocation → Result (Option ℕ)
unfolding egd_config_get_var_info state_at print_variable
raw_bytes_callback_c o var i =
    let (found, _) =
      egd_config_get_var_info (state_at o i.user_data) my_variable i.page_info (some var) in
    if is_ok i.status then print_variable (or_default var found) i.payload else done none

unfoldable pub json_callback_c : JsonInvocation → Option Text
json_callback_c i = if is_ok i.status then some i.message else none

module _ (x : Xml) (u : UrlLibrary) (server : ℕ → Transfer) (handle : ℕ) (held : DataTime)
    (o : Objects) (page : EgdPageInfo) (r : Resolver) where
  unfoldable pub raw_bytes_publish_main_c :
      EgdVarInfo → List ℕ → List Replies → Start (Result (List (EgdStatus × List SystemCall)))
  unfolding open_page_c find_variable_c fill_data raw_bytes_publish_c
  raw_bytes_publish_main_c var bytes replies =
      and_then (open_page_c x u server handle held o page) (λ (o', p).
        and_then (find_variable_c x u server handle held o' p var) (λ v. ready (do
          filled ← fill_data v bytes
          done (raw_bytes_publish_c r replies (some egd_client_init) p filled))))

  unfoldable pub json_publish_main_c :
      JsonLibrary → List Replies → Start (List (Result EgdStatus × List SystemCall))
  unfolding open_page_c json_publish_c
  json_publish_main_c l replies =
      and_then (open_page_c x u server handle held o page)
        (λ (o', p). ready (json_publish_c l r replies (some egd_json_client_init) p))

  unfoldable pub raw_bytes_subscribe_main_c :
      Replies → ℕ → Start (Option EgdClient × List SystemCall)
  unfolding open_page_c egd_client_subscribe
  raw_bytes_subscribe_main_c s callback =
      and_then (open_page_c x u server handle held o page) (λ (o', p).
        let cb : EgdSubCallbackInfo = record {
          callback = callback;
          page_info = p;
          user_data = handle;
        } in
        let (c, status, calls) =
          egd_client_subscribe r s (some egd_client_init) (codes "0.0.0.0") 18246 cb in
        if is_ok status then ready (c, calls) else failed status calls)

  unfoldable pub json_subscribe_main_c :
      Replies → ℕ → ℕ → Start (Option JsonClient × List SystemCall)
  unfolding open_page_c egd_json_client_subscribe
  json_subscribe_main_c s proxy callback =
      and_then (open_page_c x u server handle held o page) (λ (o', p).
        let (c, status, calls) =
          egd_json_client_subscribe proxy r s (some egd_json_client_init) (codes "0.0.0.0") 18246 p
            callback handle in
        if is_ok status then ready (c, calls) else failed status calls)

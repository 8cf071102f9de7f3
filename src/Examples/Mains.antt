-- ===== src/Examples/Mains.antt =====
-- The mains of raw_bytes_publish.cpp, raw_bytes_subscribe.cpp, json_publish.cpp and
-- json_subscribe.cpp as a whole.
use auroralink.Prelude.{ℕ, List}
use auroralink.Status.{EgdStatus}
use auroralink.Config.Types.{EgdTypeNameMap, EgdVarInfo, EgdPageInfo, EgdConfig}
use auroralink.Config.Libraries.{Xml, Transfer, UrlLibrary}
use auroralink.Client.Types.{EgdClient, Resolver, Replies, SystemCall}
use auroralink.Client.Subscribe.{egd_client_init}
use auroralink.Json.Library.{JsonLibrary}
use auroralink.Json.Encode.{Result, done, ◌>>=◌}
use auroralink.Json.Messages.{JsonClient, egd_json_client_init}
use auroralink.Examples.{
  Start, failed, ready, open_page, find_variable, fill_data, raw_bytes_publish, json_publish,
  raw_bytes_subscribe, json_subscribe,
}

-- What follows a part that may end the program.
abbrev pub and_then {ℓ κ} : {A : Type ℓ} {B : Type κ} → Start A → (A → Start B) → Start B
and_then (failed status calls) f = failed status calls
and_then (ready a) f = f a

module _ (x : Xml) (u : UrlLibrary) (t : Transfer) (names : EgdTypeNameMap) (config : EgdConfig)
    (page : EgdPageInfo) (r : Resolver) where
  -- `var` and `data` are what the local variables held.
  unfoldable pub raw_bytes_publish_main :
      EgdVarInfo → List ℕ → List Replies → Start (Result (List (EgdStatus × List SystemCall)))
  unfolding open_page find_variable fill_data raw_bytes_publish
  raw_bytes_publish_main var bytes replies = and_then (open_page x u t names config page) (λ (c, p).
      and_then (find_variable c p var) (λ v. ready (do
        filled ← fill_data v bytes
        done (raw_bytes_publish r replies egd_client_init p filled))))

  unfoldable pub json_publish_main :
      JsonLibrary → List Replies → Start (List (Result EgdStatus × List SystemCall))
  unfolding open_page json_publish
  json_publish_main l replies =
      and_then (open_page x u t names config page)
        (λ (c, p). ready (json_publish l r replies egd_json_client_init p))

  -- `callback` and `address` are the addresses of the callback and of the config object; the client
  -- that is left waits for messages.
  unfoldable pub raw_bytes_subscribe_main : Replies → ℕ → ℕ → Start (EgdClient × List SystemCall)
  unfolding open_page raw_bytes_subscribe
  raw_bytes_subscribe_main s callback address =
      and_then (open_page x u t names config page)
        (λ (c, p). raw_bytes_subscribe r s p callback address)

  -- `proxy` is the address of `JsonProxyCallback`.
  unfoldable pub json_subscribe_main : Replies → ℕ → ℕ → ℕ → Start (JsonClient × List SystemCall)
  unfolding open_page json_subscribe
  json_subscribe_main s proxy callback address =
      and_then (open_page x u t names config page)
        (λ (c, p). json_subscribe r s proxy p callback address)

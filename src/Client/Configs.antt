-- ===== src/Client/Configs.antt =====
-- The config objects behind the handles of pages: what `PollSocket` reaches through
-- `reinterpret_cast<EgdConfig*>(page_info.config_handle)`, and the C interface's `egd_config_read`.
-- (libEGD-master/src/egd/client/egd_client.cpp and config/egd_config.cpp.)
pub mod Stale
use auroralink.Prelude.{ℕ, suc, Text, Option, none, some}
use auroralink.Prelude.Eq.{nat_eq}
use auroralink.Prelude.Assoc.{Map, find, assign, or_default}
use auroralink.Status.{EgdStatus, err_null, err_unknown}
use auroralink.Config.Types.{EgdTypeNameMap, EgdConfig, EgdPageInfo}
use auroralink.Config.Libraries.{Xml, Transfer, UrlLibrary}
use auroralink.Config.Query.{get_page_info}
use auroralink.Config.Read.{ConfigKind, read}
use auroralink.Client.Poll.{ConfigService}

pub record ConfigObject : Type 0 where
  pub kind : ConfigKind
  pub state : EgdConfig

-- The objects, by address, with the static map of type names; `requests` counts the requests that
-- have been made.
pub record Objects : Type 0 where
  pub objects : Map ℕ ConfigObject
  pub names : EgdTypeNameMap
  pub requests : ℕ

-- `server` is what becomes of each request.
module _ (x : Xml) (u : UrlLibrary) (server : ℕ → Transfer) where
  unfoldable pub read_object : Objects → ℕ → ConfigObject → ℕ → Objects × EgdStatus
  unfolding read assign
  read_object o handle object id =
      let (names', state', status) =
        read x u object.kind (server o.requests) o.names object.state id in
      (
        record {
          objects = assign handle (record object { state = state' }) o.objects;
          names = names';
          requests = suc o.requests;
        },
        status,
      )

  -- A handle that leads to no object is a dangling pointer, which C++ leaves undefined.
  unfoldable pub read_handle : Objects → ℕ → ℕ → Objects × EgdStatus
  unfolding read_object find
  read_handle o handle id = elim (find handle o.objects) [
    | none ↦ (o, err_unknown)
    | some object ↦ read_object o handle object id
  ]

  -- The C interface: a null handle is refused.
  unfoldable pub egd_config_read : Objects → Option ℕ → ℕ → Objects × EgdStatus
  unfolding read_handle
  egd_config_read o none id = (o, err_null)
  egd_config_read o (some handle) id = read_handle o handle id

unfoldable pub page_of_handle : Objects → ℕ → Text → EgdPageInfo → EgdPageInfo × EgdStatus
unfolding get_page_info find
page_of_handle o handle page_name page = elim (find handle o.objects) [
  | none ↦ (page, err_unknown)
  | some object ↦
      let (page', status) = get_page_info object.state page_name (some page) in
      (or_default page page', status)
]

-- The interface that the receiving loop takes, filled by the objects.
abbrev pub config_objects : Xml → UrlLibrary → (ℕ → Transfer) → ConfigService
config_objects x u server = record {
  Configs = Objects;
  read_config = read_handle x u server;
  page_info_of = page_of_handle;
}

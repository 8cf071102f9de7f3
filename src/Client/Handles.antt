-- ===== src/Client/Handles.antt =====
-- libEGD-master/src/egd/config/producer_config.cpp and consumer_config.cpp, the C interface: the
-- handles of config objects that it makes and frees.
use auroralink.Prelude.{ℕ, Text, Option, none, some, [], ◌∷◌, if◌then◌else◌, ◌==◌}
use auroralink.Prelude.Eq.{nat_eq}
use auroralink.Prelude.Assoc.{Map, find, assign}
use auroralink.Spec.{DataTime}
use auroralink.Config.Types.{EgdConfig, new_config}
use auroralink.Config.Read.{ConfigKind, producer_config, consumer_config}
use auroralink.Client.Configs.{ConfigObject, Objects}

-- `new` puts an object at an address; the members that its constructor does not set hold what the
-- memory held, here the time of the config.
unfoldable pub new_object : ConfigKind → Objects → ℕ → DataTime → Text → ℕ → Objects
unfolding assign
new_object kind o handle held host port = record o {
  objects =
      assign handle (record { kind = kind; state = new_config handle held host port }) o.objects;
}

abbrev pub egd_producer_config_init : Objects → ℕ → DataTime → Text → ℕ → Objects
egd_producer_config_init = new_object producer_config

abbrev pub egd_consumer_config_init : Objects → ℕ → DataTime → Text → ℕ → Objects
egd_consumer_config_init = new_object consumer_config

-- `delete`, which does nothing on a null pointer.
unfoldable pub remove_object : ℕ → Map ℕ ConfigObject → Map ℕ ConfigObject
remove_object handle [] = []
remove_object handle ((h, object) ∷ rest) =
    let others = remove_object handle rest in if h == handle then others else (h, object) ∷ others

unfoldable pub free_object : Objects → Option ℕ → Objects
unfolding remove_object
free_object o none = o
free_object o (some handle) = record o { objects = remove_object handle o.objects }

abbrev pub egd_producer_config_free : Objects → Option ℕ → Objects
egd_producer_config_free = free_object

abbrev pub egd_consumer_config_free : Objects → Option ℕ → Objects
egd_consumer_config_free = free_object

-- The object that a handle leads to.
unfoldable pub state_at : Objects → ℕ → Option EgdConfig
unfolding find
state_at o handle = elim (find handle o.objects) [ none ↦ none | some object ↦ some object.state ]

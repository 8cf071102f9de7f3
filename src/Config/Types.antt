-- ===== src/Config/Types.antt =====
-- libEGD-master/src/egd/config/egd_config.h and egd_config.hpp: types of variables, variables,
-- pages, and the state of an `EgdConfig`.
use auroralink.Prelude.{ℕ, Text, codes, List, [], ◌∷◌}
use auroralink.Prelude.Int.{ℤ, pos, negsuc}
use auroralink.Prelude.Assoc.{Map}
use auroralink.Spec.{DataTime}

pub data EgdDataType : Type 0 where
  undefined : EgdDataType
  bool : EgdDataType
  real : EgdDataType
  lreal : EgdDataType
  sint : EgdDataType
  int : EgdDataType
  dint : EgdDataType
  lint : EgdDataType
  usint : EgdDataType
  uint : EgdDataType
  udint : EgdDataType
  ulint : EgdDataType
  byte : EgdDataType
  word : EgdDataType
  dword : EgdDataType
  dt : EgdDataType
  time : EgdDataType
  string : EgdDataType

-- `bits` is a C `int`: -1 for the undefined type.
pub record EgdTypeInfo : Type 0 where
  pub type : EgdDataType
  pub bits : ℤ

pub record EgdVarInfo : Type 0 where
  pub bit_offset : ℕ
  pub data_type : EgdTypeInfo

abbrev pub EgdVarMap : Type 0
EgdVarMap = Map Text EgdVarInfo

-- The members of `EgdPageInfo` before `var_map`, which are the ones that `GetPageInfo` copies.
-- `page_name` is what the allocated block holds; `config_handle` and `producer_name` point to the
-- config object and to a string in it, and are its number.
pub record PageFields : Type 0 where
  pub producer_id : ℕ
  pub exchange_id : ℕ
  pub sig_major : ℕ
  pub sig_minor : ℕ
  pub signature : ℕ
  pub period : DataTime
  pub config_time : DataTime
  pub data_length : ℕ
  pub producer_name : ℕ
  pub page_name : Text
  pub config_handle : ℕ

-- `var_map` points to a map that nothing changes once it is built, and is that map.
pub record EgdPageInfo : Type 0 where
  pub page_fields : PageFields
  pub open page_fields use *
  pub var_map : EgdVarMap

pub record EgdPageMapEntry : Type 0 where
  pub page : PageFields
  pub var_map : EgdVarMap

abbrev pub EgdPageMap : Type 0
EgdPageMap = Map Text EgdPageMapEntry

-- The class's members; `this` is the object's number.
pub record EgdConfig : Type 0 where
  pub this : ℕ
  pub host : Text
  pub port : ℕ
  pub config_time : DataTime
  pub producer_name : Text
  pub page_names : List Text
  pub page_map : EgdPageMap

-- The constructor, of both classes, with the members that it leaves alone given: `config_time_`
-- has no initial value.
abbrev pub new_config : ℕ → DataTime → Text → ℕ → EgdConfig
new_config this config_time host port = record {
  this = this;
  host = host;
  port = port;
  config_time = config_time;
  producer_name = [];
  page_names = [];
  page_map = [];
}

abbrev pub EgdTypeNameMap : Type 0
EgdTypeNameMap = Map Text EgdTypeInfo

-- The static map before the first lookup.
abbrev pub egd_type_names : EgdTypeNameMap
egd_type_names =
    (codes "UNDEFINED", record { type = undefined; bits = negsuc 0 })
    ∷ (codes "BOOL", record { type = bool; bits = pos 1 })
    ∷ (codes "REAL", record { type = real; bits = pos 32 })
    ∷ (codes "LREAL", record { type = lreal; bits = pos 64 })
    ∷ (codes "SINT", record { type = sint; bits = pos 8 })
    ∷ (codes "INT", record { type = int; bits = pos 16 })
    ∷ (codes "DINT", record { type = dint; bits = pos 32 })
    ∷ (codes "LINT", record { type = lint; bits = pos 64 })
    ∷ (codes "USINT", record { type = usint; bits = pos 8 })
    ∷ (codes "UINT", record { type = uint; bits = pos 16 })
    ∷ (codes "UDINT", record { type = udint; bits = pos 32 })
    ∷ (codes "ULINT", record { type = ulint; bits = pos 64 })
    ∷ (codes "BYTE", record { type = byte; bits = pos 8 })
    ∷ (codes "WORD", record { type = word; bits = pos 16 })
    ∷ (codes "DWORD", record { type = dword; bits = pos 32 })
    ∷ (codes "DT", record { type = dt; bits = pos 0 })
    ∷ (codes "TIME", record { type = time; bits = pos 0 })
    ∷ (codes "STRING", record { type = string; bits = pos 0 })
    ∷ []

-- The value that `operator[]` makes for a missing key: zeros, and 0 is the number of `EGD_BOOL`.
abbrev pub zero_type_info : EgdTypeInfo
zero_type_info = record { type = bool; bits = pos 0 }

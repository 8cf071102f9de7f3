-- ===== src/Config/Query.antt =====
-- libEGD-master/src/egd/config/egd_config.cpp, `GetConfigTime` to `DumpPageMap`. Output parameters are the values that they point to, `none` for a null pointer,
-- and come back as the call leaves them.
use auroralink.Prelude.{
  ℕ, ◌-◌, ◌^◌, Text, codes, Option, none, some, List, [], ◌∷◌, ◌++◌, ltb, if◌then◌else◌,
}
use auroralink.Prelude.Eq.{text_eq}
use auroralink.Prelude.Assoc.{find}
use auroralink.Prelude.Order.{text_less, in_order}
use auroralink.Status.{EgdStatus, ok, err_null, err_page_not_found, err_var_not_found}
use auroralink.Spec.{DataTime}
use auroralink.Config.Types.{EgdVarInfo, EgdVarMap, PageFields, EgdPageInfo, EgdPageMap, EgdConfig}
use auroralink.Config.Url.{decimal}

unfoldable pub get_config_time : EgdConfig → Option DataTime → Option DataTime × EgdStatus
get_config_time c none = (none, err_null)
get_config_time c (some _) = (some c.config_time, ok)

unfoldable pub get_page_map : EgdConfig → EgdPageMap × EgdStatus
get_page_map c = (c.page_map, ok)

-- The fields before `var_map` are copied, then `var_map` is pointed at the entry's map.
unfoldable pub get_page_info :
    EgdConfig → Text → Option EgdPageInfo → Option EgdPageInfo × EgdStatus
unfolding find
get_page_info c page_name none = (none, err_null)
get_page_info c page_name (some info) = elim (find page_name c.page_map) [
  | none ↦ (some info, err_page_not_found)
  | some entry ↦ (some (record { page_fields = entry.page; var_map = entry.var_map }), ok)
]

unfoldable pub get_var_info :
    EgdConfig → Text → EgdPageInfo → Option EgdVarInfo → Option EgdVarInfo × EgdStatus
unfolding find
get_var_info c var_name page none = (none, err_null)
get_var_info c var_name page (some info) = elim (find var_name page.var_map) [
  | none ↦ (some info, err_var_not_found)
  | some var ↦ (some var, ok)
]

-- The C interface: a null handle is refused, any other is the object.
unfoldable pub egd_config_get_config_time :
    Option EgdConfig → Option DataTime → Option DataTime × EgdStatus
unfolding get_config_time
egd_config_get_config_time none config_time = (config_time, err_null)
egd_config_get_config_time (some c) config_time = get_config_time c config_time

unfoldable pub egd_config_get_page_info :
    Option EgdConfig → Text → Option EgdPageInfo → Option EgdPageInfo × EgdStatus
unfolding get_page_info
egd_config_get_page_info none page_name info = (info, err_null)
egd_config_get_page_info (some c) page_name info = get_page_info c page_name info

unfoldable pub egd_config_get_var_info :
    Option EgdConfig → Text → EgdPageInfo → Option EgdVarInfo → Option EgdVarInfo × EgdStatus
unfolding get_var_info
egd_config_get_var_info none var_name page info = (info, err_null)
egd_config_get_var_info (some c) var_name page info = get_var_info c var_name page info

-- A signed 32-bit number from its bit pattern, as a stream prints it.
abbrev pub signed_decimal : ℕ → Text
signed_decimal n = if ltb n (2 ^ 31) then decimal n else 45 ∷ decimal (2 ^ 32 - n)

-- The lines of `DumpPageMap` on the variables of a page, which are met by name, and on the pages.
unfoldable dump_entries : EgdVarMap → List Text
unfolding decimal
dump_entries [] = []
dump_entries ((name, info) ∷ vars) =
    codes "----"
    ∷ (codes "    Var:        " ++ name)
    ∷ (codes "      Bit Offset: " ++ decimal info.bit_offset)
    ∷ dump_entries vars

unfoldable pub dump_vars : EgdVarMap → List Text
unfolding dump_entries in_order
dump_vars vars = dump_entries (in_order text_less vars)

unfoldable pub dump_page : Text → PageFields → List Text
unfolding decimal
dump_page name page =
    codes "============================"
    ∷ (codes "Page:                     " ++ name)
    ∷ (codes "  Producer ID:              " ++ decimal page.producer_id)
    ∷ (codes "  Exchange ID:              " ++ decimal page.exchange_id)
    ∷ (codes "  Sig Major:                " ++ decimal page.sig_major)
    ∷ (codes "  Sig Minor:                " ++ decimal page.sig_minor)
    ∷ (codes "  Period Seconds:           " ++ decimal page.period.tv_sec)
    ∷ (codes "  Period Nanoseconds:       " ++ signed_decimal page.period.tv_nsec)
    ∷ (codes "  Config Time Seconds:      " ++ decimal page.config_time.tv_sec)
    ∷ (codes "  Config Time Nanoseconds:  " ++ signed_decimal page.config_time.tv_nsec)
    ∷ (codes "  Data Length:              " ++ decimal page.data_length)
    ∷ codes "--"
    ∷ []

unfoldable dump_pages : EgdPageMap → List Text
unfolding dump_page dump_vars
dump_pages [] = []
dump_pages ((name, entry) ∷ pages) =
    dump_page name entry.page ++ dump_vars entry.var_map ++ dump_pages pages

unfoldable pub dump_page_map : EgdPageMap → List Text
unfolding dump_pages in_order
dump_page_map pages = dump_pages (in_order text_less pages)

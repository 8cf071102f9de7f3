-- ===== src/Config/Parse.antt =====
-- libEGD-master/src/egd/config/egd_config.cpp, `ParseXml`: from the server's XML to the page map.
pub mod Meaning
pub mod Pages
pub mod Typing
pub mod Signature
use Prim.Native.Nat.{bit_and, bit_or}
use auroralink.Prelude.{ℕ, ◌*◌, ◌%◌, ◌^◌, Text, codes, Option, none, some, List, [], ◌∷◌, ◌++◌}
use auroralink.Prelude.Eq.{text_eq}
use auroralink.Prelude.Assoc.{find, insert, assign}
use auroralink.Status.{
  EgdStatus, ok, err_xml_parse, err_xml_producer_not_found, err_xml_exchange_not_found,
}
use auroralink.Config.Types.{
  EgdTypeInfo, EgdTypeNameMap, zero_type_info, EgdVarMap, PageFields, EgdPageMap, EgdConfig,
}
use auroralink.Config.Libraries.{Xml}

-- `EgdTypeNameMap[name]`: a name that is not there is added with zeros.
unfoldable pub index_type_names : Text → EgdTypeNameMap → EgdTypeNameMap × EgdTypeInfo
unfolding find insert
index_type_names name names = elim (find name names) [
  | none ↦ (insert name zero_type_info names, zero_type_info)
  | some info ↦ (names, info)
]

-- `(sig_major << 8) | (sig_minor & 0xFF)`, as a WORD.
unfoldable pub page_signature : ℕ → ℕ → ℕ
page_signature sig_major sig_minor = bit_or (sig_major * 256) (bit_and sig_minor 0xff) % 2 ^ 16

module _ (x : Xml) where
  open x use {
    Doc, Node, load_string, select_node, select_nodes, as_string, as_uint, as_ullong, children,
  }

  -- The inner loop, over the variables of one exchange.
  unfoldable pub parse_vars : EgdTypeNameMap → List Node → EgdVarMap → EgdTypeNameMap × EgdVarMap
  unfolding index_type_names assign
  parse_vars names [] var_map = (names, var_map)
  parse_vars names (node ∷ nodes) var_map =
      let (names', info) = index_type_names (as_string node (codes "DType")) names in
      parse_vars names' nodes (
        assign (as_string node (codes "Name"))
          (record { bit_offset = as_ullong node (codes "VOffs") % 2 ^ 32; data_type = info })
          var_map)

  -- The page's name: the attribute `Page` with the text of `ExchangeId` behind it.
  unfoldable pub page_key : Node → Text
  page_key node = as_string node (codes "Page") ++ as_string node (codes "ExchangeId")

  -- The static information of an exchange, for the config object `this`.
  unfoldable pub exchange_page : ℕ → ℕ → Node → PageFields
  unfolding page_key page_signature
  exchange_page this id node =
      let major = as_uint node (codes "SigMajor") % 2 ^ 8 in
      let minor = as_uint node (codes "SigMinor") % 2 ^ 8 in
      record {
        producer_id = id;
        exchange_id = as_ullong node (codes "ExchangeId") % 2 ^ 32;
        sig_major = major;
        sig_minor = minor;
        signature = page_signature major minor;
        period = record {
          tv_sec = as_uint node (codes "PeriodSecs");
          tv_nsec = as_uint node (codes "PeriodNSecs");
        };
        config_time = record {
          tv_sec = as_uint node (codes "ConfigTimeSecs");
          tv_nsec = as_uint node (codes "ConfigTimeNSecs");
        };
        data_length = as_uint node (codes "DataLength");
        producer_name = this;
        page_name = page_key node;
        config_handle = this;
      }

  -- The outer loop, over the exchanges; an empty node is skipped, and a page that is in the map
  -- stays as it is.
  unfoldable pub parse_exchanges :
      ℕ → ℕ → Text → EgdTypeNameMap → List (Option Node) → EgdPageMap → EgdTypeNameMap × EgdPageMap
  unfolding parse_vars exchange_page insert
  parse_exchanges this id var_attribute names [] pages = (names, pages)
  parse_exchanges this id var_attribute names (none ∷ rest) pages =
      parse_exchanges this id var_attribute names rest pages
  parse_exchanges this id var_attribute names (some node ∷ rest) pages =
      let (names', var_map) = parse_vars names (children node var_attribute) [] in
      parse_exchanges this id var_attribute names' rest (
        insert (page_key node) (record { page = exchange_page this id node; var_map = var_map })
          pages)

  -- The part of `ParseXml` behind its three checks.
  unfoldable pub take_document :
      EgdTypeNameMap → EgdConfig → ℕ → Node → List (Option Node) → Text → EgdTypeNameMap × EgdConfig
  unfolding parse_exchanges
  take_document names c id producer exchanges var_attribute =
      let (names', pages) = parse_exchanges c.this id var_attribute names exchanges c.page_map in
      (
        names',
        record c {
          producer_name = as_string producer (codes "Name");
          config_time = record {
            tv_sec = as_uint producer (codes "ConfigTimeSecs");
            tv_nsec = as_uint producer (codes "ConfigTimeNSecs");
          };
          page_map = pages;
        },
      )

  -- The checks on the set of exchanges.
  unfoldable pub parse_document :
      EgdTypeNameMap
      → EgdConfig
      → ℕ
      → Node
      → List (Option Node)
      → Text
      → EgdTypeNameMap × EgdConfig × EgdStatus
  unfolding take_document
  parse_document names c id producer [] var_attribute = (names, c, err_xml_exchange_not_found)
  parse_document names c id producer (e ∷ es) var_attribute =
      let (names', c') = take_document names c id producer (e ∷ es) var_attribute in
      (names', c', ok)

  -- `c_str()` ends at the first zero byte, which the parser's text does too.
  unfoldable pub parse_xml :
      EgdTypeNameMap
      → EgdConfig
      → Text
      → ℕ
      → Text
      → Text
      → Text
      → EgdTypeNameMap × EgdConfig × EgdStatus
  unfolding parse_document
  parse_xml names c xml_str id producer_xpath exchange_xpath var_attribute =
      elim (load_string xml_str) [
        | none ↦ (names, c, err_xml_parse)
        | some doc ↦ elim (select_node doc producer_xpath) [
          | none ↦ (names, c, err_xml_producer_not_found)
          | some producer ↦
              parse_document names c id producer (select_nodes doc exchange_xpath) var_attribute
        ]
      ]

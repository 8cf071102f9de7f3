-- ===== src/Config/Read.antt =====
-- libEGD-master/src/egd/config/producer_config.cpp and consumer_config.cpp: the two classes that
-- implement `Read`, and the C interface's `egd_config_read`, which goes through the virtual call.
pub mod Effects
use auroralink.Prelude.{ℕ, ◌+◌, ◌-◌, Text, codes, some, [], ◌++◌, length, take, if◌then◌else◌}
use auroralink.Prelude.Assoc.{or_default}
use auroralink.Status.{EgdStatus, is_ok}
use auroralink.Config.Types.{EgdTypeNameMap, EgdConfig}
use auroralink.Config.Libraries.{Xml, Transfer, UrlLibrary}
use auroralink.Config.Url.{decimal, make_base_url}
use auroralink.Config.Fetch.{get_request}
use auroralink.Config.Parse.{parse_xml}

-- The classes.
pub data ConfigKind : Type 0 where
  producer_config : ConfigKind
  consumer_config : ConfigKind

-- `snprintf(buffer, size, …)` writes at most `size - 1` characters of the output.
unfoldable pub snprintf : ℕ → Text → Text
snprintf size output = take (size - 1) output

abbrev pub xpath_head : Text
xpath_head = codes "/ConsumedData/Consumer/RequiredProducer[@ProducerId='"

abbrev pub xpath_tail : Text
xpath_tail = codes "']/ConsumedExchange"

-- The size of the buffer: the template's, in which `%u` stands for the number, and 10.
abbrev pub xpath_len : ℕ
xpath_len = length xpath_head + 2 + length xpath_tail + 10

unfoldable pub exchange_xpath : ℕ → Text
unfolding snprintf decimal
exchange_xpath id = snprintf xpath_len (xpath_head ++ (decimal id ++ xpath_tail))

module _ (x : Xml) where
  -- What both classes do: fetch from a URL, then parse.
  unfoldable pub fetch_and_parse :
      Transfer
      → EgdTypeNameMap
      → EgdConfig
      → ℕ
      → Text
      → Text
      → Text
      → Text
      → EgdTypeNameMap × EgdConfig × EgdStatus
  unfolding get_request parse_xml
  fetch_and_parse t names c id url producer_xpath exchanges_xpath var_attribute =
      let (response, status) = get_request t url (some []) in
      if is_ok status
      then parse_xml x names c (or_default [] response) id producer_xpath exchanges_xpath
          var_attribute
      else (names, c, status)

module _ (x : Xml) (u : UrlLibrary) where
  open u use {add_query, str}

  unfoldable pub producer_read :
      Transfer → EgdTypeNameMap → EgdConfig → ℕ → EgdTypeNameMap × EgdConfig × EgdStatus
  unfolding make_base_url fetch_and_parse
  producer_read t names c id =
      fetch_and_parse x t names c id
        (str (add_query (codes "Type") (codes "ProducedData") (make_base_url u c.host c.port id)))
        (codes "/ProducedData/Producer") (codes "/ProducedData/Producer/Exchange") (codes "Var")

  unfoldable pub consumer_read :
      Transfer → EgdTypeNameMap → EgdConfig → ℕ → EgdTypeNameMap × EgdConfig × EgdStatus
  unfolding make_base_url fetch_and_parse exchange_xpath
  consumer_read t names c id =
      fetch_and_parse x t names c id
        (str (add_query (codes "Type") (codes "ConsumedData") (make_base_url u c.host c.port id)))
        (codes "/ConsumedData/Consumer") (exchange_xpath id) (codes "BoundVar")

  -- The virtual call.
  unfoldable pub read :
      ConfigKind
      → Transfer
      → EgdTypeNameMap
      → EgdConfig
      → ℕ
      → EgdTypeNameMap × EgdConfig × EgdStatus
  unfolding producer_read consumer_read
  read producer_config t names c id = producer_read t names c id
  read consumer_config t names c id = consumer_read t names c id

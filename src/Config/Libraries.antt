-- ===== src/Config/Libraries.antt =====
-- What egd_config.cpp, producer_config.cpp and consumer_config.cpp use of pugixml, libcurl and
-- CxxUrl.
use auroralink.Prelude.{ℕ, Text, Bool, List, Option}

-- pugixml. A document that does not load is `none`, and so is an empty node.
-- `as_string` and its like are `attribute(name)` followed by the conversion, with the library's
-- default for an attribute that is not there.
pub record Xml : Type 1 where
  pub Doc : Type 0
  pub Node : Type 0
  pub load_string : Text → Option Doc
  pub select_node : Doc → Text → Option Node
  pub select_nodes : Doc → Text → List (Option Node)
  pub as_string : Node → Text → Text
  pub as_uint : Node → Text → ℕ
  pub as_ullong : Node → Text → ℕ
  pub children : Node → Text → List Node

-- One request of libcurl: whether the handle is made, and for a URL the chunks that are handed to
-- the write callback, in order, with the result code.
pub record Transfer : Type 0 where
  pub easy_init : Bool
  pub easy_perform : Text → List Text × ℕ

-- CxxUrl. Each setter returns the changed URL.
pub record UrlLibrary : Type 1 where
  pub Url : Type 0
  pub empty : Url
  pub scheme : Text → Url → Url
  pub host : Text → Url → Url
  pub port : ℕ → Url → Url
  pub path : Text → Url → Url
  pub add_query : Text → Text → Url → Url
  pub str : Url → Text

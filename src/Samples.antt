-- ===== src/Samples.antt =====
-- Concrete libraries, servers and pages for the tests: a document with one page of two variables,
-- which comes twice, a JSON object with a value for each of them, and a system that answers.
use auroralink.Prelude.{
  ℕ, ◌+◌, ◌*◌, ◌/◌, Text, codes, Bool, true, false, Option, none, some, List, [], ◌∷◌, ◌++◌, ltb,
  ◌==◌, if◌then◌else◌, arith,
}
use auroralink.Prelude.Int.{ℤ, pos, negsuc}
use auroralink.Prelude.Eq.{text_eqb}
use auroralink.Config.Types.{
  EgdDataType, EgdVarMap, PageFields, EgdPageInfo, EgdPageMapEntry, EgdConfig, egd_type_names,
}
use auroralink.Config.Libraries.{Xml, Transfer, UrlLibrary}
use auroralink.Config.Read.{producer_config}
use auroralink.Client.Types.{SockAddr, EgdPubInfo, EgdSubCallbackInfo, EgdClient, Resolver, Replies}
use auroralink.Client.Configs.{Objects}
use auroralink.Json.Library.{CppType, JsonLibrary, GetFits}
use auroralink.Send.Types.{DoubleArith, Timespec, SendRound, SenderReplies}

abbrev sample_string : ℕ → Text → Text
sample_string node name =
    if text_eqb name (codes "Name")
    then (if node == 10 then codes "a" else codes "b")
    else (if text_eqb name (codes "DType")
        then (if node == 10 then codes "BOOL" else codes "INT")
        else codes "1")

abbrev sample_uint : ℕ → Text → ℕ
sample_uint node name =
    if text_eqb name (codes "VOffs")
    then (if node == 10 then 3 else 16)
    else (if text_eqb name (codes "DataLength") then 4 else 1)

-- The text `doc` alone is a document.
abbrev pub sample_xml : Xml
sample_xml = record {
  Doc = ℕ;
  Node = ℕ;
  load_string = λ s. if text_eqb s (codes "doc") then some 0 else none;
  select_node = λ doc xpath. some 5;
  select_nodes = λ doc xpath. some 1 ∷ none ∷ some 2 ∷ [];
  as_string = sample_string;
  as_uint = sample_uint;
  as_ullong = sample_uint;
  children = λ node name. if node == 1 then 10 ∷ 11 ∷ [] else [];
}

abbrev pub sample_urls : UrlLibrary
sample_urls = record {
  Url = Text;
  empty = [];
  scheme = λ s u. u ++ s;
  host = λ s u. u ++ s;
  port = λ n u. u;
  path = λ s u. u ++ s;
  add_query = λ k v u. u ++ k ++ v;
  str = λ u. u;
}

-- The document comes in two chunks.
abbrev pub sample_transfer : Transfer
sample_transfer = record {
  easy_init = true;
  easy_perform = λ url. (codes "do" ∷ codes "c" ∷ [], 0);
}

abbrev pub refusing_transfer : Transfer
refusing_transfer = record { easy_init = true; easy_perform = λ url. ([], 7) }

abbrev pub sample_vars : EgdVarMap
sample_vars =
    (
      codes "a",
      record { bit_offset = 3; data_type = record { type = EgdDataType.bool; bits = pos 1 } },
    )
    ∷ (
      codes "b",
      record { bit_offset = 16; data_type = record { type = EgdDataType.int; bits = pos 16 } },
    )
    ∷ []

abbrev pub sample_fields : PageFields
sample_fields = record {
  producer_id = 42;
  exchange_id = 1;
  sig_major = 1;
  sig_minor = 1;
  signature = 257;
  period = record { tv_sec = 1; tv_nsec = 0 };
  config_time = record { tv_sec = 9; tv_nsec = 0 };
  data_length = 4;
  producer_name = 5;
  page_name = codes "11";
  config_handle = 5;
}

abbrev pub sample_page : EgdPageInfo
sample_page = record { page_fields = sample_fields; var_map = sample_vars }

abbrev pub sample_entry : EgdPageMapEntry
sample_entry = record { page = sample_fields; var_map = sample_vars }

abbrev pub empty_config : EgdConfig
empty_config = record {
  this = 5;
  host = codes "server";
  port = 7937;
  config_time = record { tv_sec = 0; tv_nsec = 0 };
  producer_name = [];
  page_names = [];
  page_map = [];
}

abbrev pub sample_config : EgdConfig
sample_config = record empty_config { page_map = (codes "11", sample_entry) ∷ [] }

abbrev pub sample_objects : Objects
sample_objects = record {
  objects = (5, record { kind = producer_config; state = sample_config }) ∷ [];
  names = egd_type_names;
  requests = 0;
}

abbrev pub sample_resolver : Resolver
sample_resolver = record { inet_addr = λ host. 0x0100_007f; gethostbyname = λ host. none }

abbrev pub sample_replies : Replies
sample_replies = record {
  socket_reply = pos 3;
  setsockopt_reply = pos 0;
  bind_reply = pos 0;
  rcvbuf_reply = pos 0;
  now = record { tv_sec = 100; tv_nsec = 7 };
  sendto_reply = pos 1432;
  after_overflow = 0x8000_0000;
}

abbrev pub sample_addr : SockAddr
sample_addr = record { sin_family = 2; sin_addr = 0x0100_007f; sin_port = 18_000 }

abbrev pub sample_publisher : EgdPubInfo
sample_publisher = record {
  connection = record { host = codes "h"; port = 18246; addr = sample_addr; socket = pos 3 };
  request_id = 65535;
}

abbrev pub empty_client : EgdClient
empty_client = record { publisher_map = []; subscriber_map = [] }

-- A client that has published the page.
abbrev pub sample_client : EgdClient
sample_client = record empty_client {
  publisher_map = ((codes "h", (18246, (42, 1))), sample_publisher) ∷ [];
}

abbrev pub sample_callback : EgdSubCallbackInfo
sample_callback = record { callback = 1000; page_info = sample_page; user_data = 8 }

pub data SampleJson : Type 0 where
  values : SampleJson
  flag : SampleJson
  amount : SampleJson

abbrev sample_items : SampleJson → List (Text × SampleJson)
sample_items SampleJson.values = (codes "a", SampleJson.flag) ∷ (codes "b", SampleJson.amount) ∷ []
sample_items _ = []

abbrev sample_get : CppType → SampleJson → Option ℕ
sample_get CppType.int16 SampleJson.amount = some 513
sample_get _ _ = none

abbrev is_values : SampleJson → Bool
is_values SampleJson.values = true
is_values _ = false

abbrev is_flag : SampleJson → Bool
is_flag SampleJson.flag = true
is_flag _ = false

-- Any text is the object with the members `a`, true, and `b`, 513.
abbrev pub sample_json : JsonLibrary
sample_json = record {
  Json = SampleJson;
  parse = λ s. some SampleJson.values;
  is_object = is_values;
  is_array = λ j. false;
  is_string = λ j. false;
  is_boolean = is_flag;
  items = sample_items;
  get_bool = λ j. some true;
  get = sample_get;
  dump = λ message. some [];
}

pub sample_json-GetFits : GetFits sample_json
sample_json-GetFits CppType.int16 SampleJson.amount v e = ground arith
sample_json-GetFits t j v e = cc

abbrev of_int : ℤ → ℕ
of_int (pos n) = n
of_int (negsuc n) = 0

-- Whole numbers in place of doubles.
abbrev pub sample_doubles : DoubleArith
sample_doubles = record {
  Double = ℕ;
  of_int = of_int;
  tenth = 1;
  add = λ a b. a + b;
  mul = λ a b. a * b;
  div = λ a b. a / b;
  lt = ltb;
  sin = λ a. a;
  bits = λ a. a;
}

abbrev pub at_second : ℕ → Timespec
at_second n = record { tv_sec = n; tv_nsec = 999_000_000 }

-- A round in which nothing goes wrong.
abbrev pub sample_round : SendRound
sample_round = record {
  running = true;
  send_start = at_second 1;
  now = at_second 50;
  sendto_reply = pos 82;
  send_end = at_second 1;
  sleep = record { ret = 0; running = true } ∷ [];
  actual_wake = at_second 2;
  reset_time = at_second 2;
}

abbrev pub sample_sender_replies : SenderReplies
sample_sender_replies = record {
  socket_reply = pos 3;
  bind_reply = pos 0;
  broadcast_reply = pos 0;
  sndbuf_reply = pos 0;
  start = at_second 1;
  rounds = sample_round ∷ sample_round ∷ [];
  last_now = at_second 60;
  last_sendto_reply = pos 82;
}

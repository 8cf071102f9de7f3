-- ===== src/Pages/Program.antt =====
-- libEGD-master/src/examples/list_available_pages.cpp: the command line, and `main` as a whole.
use auroralink.Prelude.{
  ℕ, ◌-◌, ◌%◌, ◌^◌, Text, Bool, true, false, Option, none, some, List, [], ◌∷◌, length, ltb, ◌==◌,
  if◌then◌else◌,
}
use auroralink.Prelude.Int.{ℤ, pos, negsuc}
use auroralink.Status.{EgdStatus, is_ok}
use auroralink.Config.Types.{EgdTypeNameMap, EgdConfig, new_config}
use auroralink.Spec.{DataTime}
use auroralink.Config.Libraries.{Xml, Transfer, UrlLibrary}
use auroralink.Config.Query.{get_page_map}
use auroralink.Config.Read.{producer_read}
use auroralink.Client.Types.{Resolver, Replies}
use auroralink.Send.Main.{skip_spaces, read_sign, read_digits, strtol}
use auroralink.Examples.{listening_socket}
use auroralink.Pages.{listen}

-- What `getopt` finds, in order.
pub data Opt : Type 0 where
  config_host : Text → Opt
  config_port : Text → Opt
  producer_id : Text → Opt
  unknown : Opt

-- `std::stoi`; `none` is an exception. A text behind the number is ignored.
unfoldable pub stoi : Text → Option ℤ
unfolding strtol
stoi s = elim (strtol s) [
  | none ↦ none
  | some (pos n, _) ↦ if ltb n (2 ^ 31) then some (pos n) else none
  | some (negsuc n, _) ↦ if ltb n (2 ^ 31) then some (negsuc n) else none
]

-- `strtoull` takes a sign and wraps around.
abbrev pub unsigned_value : Bool → ℕ → ℕ
unsigned_value false n = n
unsigned_value true n = (2 ^ 64 - n) % 2 ^ 64

unfoldable pub stoull : Text → Option ℕ
unfolding read_digits
stoull str =
    let (negative, s) = read_sign (skip_spaces str) in
    let (n, rest) = read_digits 0 s in
    if length rest == length s
    then none
    else (if ltb n (2 ^ 64) then some (unsigned_value negative n) else none)

-- An `int` as a `uint16_t`.
abbrev pub to_port : ℤ → ℕ
to_port (pos n) = n % 2 ^ 16
to_port (negsuc n) = 2 ^ 16 - 1 - n % 2 ^ 16

-- The variables of the command line.
pub record Options : Type 0 where
  pub host : Text
  pub port : ℕ
  pub id : ℕ

-- How the command line ends: the usage is printed, an exception ends the program, or it goes on.
pub data Parsed : Type 0 where
  usage : Parsed
  exception : Parsed
  options : Options → Parsed

-- The loop over the options. A number that is not given is what its variable held.
unfoldable pub read_options : List Opt → Options → Parsed
unfolding stoi stoull
read_options [] o = options o
read_options (config_host h ∷ rest) o = read_options rest (record o { host = h })
read_options (config_port s ∷ rest) o =
    let go_on : ℤ → Parsed = λ n. read_options rest (record o { port = to_port n }) in
    elim (stoi s) [ none ↦ exception | some n ↦ go_on n ]
read_options (producer_id s ∷ rest) o =
    let go_on : ℕ → Parsed = λ n. read_options rest (record o { id = n }) in
    elim (stoull s) [ none ↦ exception | some n ↦ go_on n ]
read_options (unknown ∷ rest) o = usage

-- How the program ends; `listed` are the names that are printed before it is interrupted.
pub data Listing : Type 0 where
  usage_shown : Listing
  aborted : Listing
  config_failed : EgdStatus → Listing
  socket_failed : Text → Listing
  listed : List Text → Listing

module _ (x : Xml) (u : UrlLibrary) (t : Transfer) (names : EgdTypeNameMap) (resolver : Resolver)
    (replies : Replies) (this : ℕ) (start_time : DataTime) where
  -- Behind a `Read` that succeeded, for the datagrams that arrive, each with what the memory held.
  unfoldable pub list_pages : EgdConfig → List (List ℕ × List ℕ) → Listing
  unfolding get_page_map listening_socket listen
  list_pages c datagrams =
      let ((sock, message), _) = listening_socket resolver replies in
      elim message [
        | [] ↦ listed (listen (get_page_map c).0 [] datagrams).1
        | b ∷ rest ↦ socket_failed (b ∷ rest)
      ]

  -- `Read` takes the low 32 bits of the number.
  unfoldable pub run_options : Options → List (List ℕ × List ℕ) → Listing
  unfolding producer_read list_pages
  run_options o datagrams =
      let (_, c, status) =
        producer_read x u t names (new_config this start_time o.host o.port) (o.id % 2 ^ 32) in
      if is_ok status then list_pages c datagrams else config_failed status

  -- The first two arguments are what the variables of the numbers held.
  unfoldable pub main : ℕ → ℕ → List Opt → List (List ℕ × List ℕ) → Listing
  unfolding read_options run_options
  main port id opts datagrams =
      elim (read_options opts (record { host = []; port = port; id = id })) [
        | usage ↦ usage_shown
        | exception ↦ aborted
        | options o ↦ run_options o datagrams
      ]

-- ===== src/Pages/Listing.antt =====
-- list_available_pages.cpp from its command line to what it prints.
use auroralink.Prelude.{
  ℕ, ◌%◌, ◌^◌, ◌<◌, ◌≡◌, ◌⊎◌, refl, ap, inl, inr, Text, true, false, some, List, [], ◌∷◌, lt→ltb,
  ◌==◌, length, arith, Bool-cases,
}
use auroralink.Prelude.Int.{pos}
use auroralink.Status.{is_ok}
use auroralink.Spec.{DataTime}
use auroralink.Config.Types.{EgdTypeNameMap, EgdConfig, new_config}
use auroralink.Config.Libraries.{Xml, Transfer, UrlLibrary}
use auroralink.Config.Url.{decimal}
use auroralink.Config.Query.{get_page_map}
use auroralink.Config.Read.{producer_read}
use auroralink.Client.Types.{Resolver, Replies}
use auroralink.Send.Main.Numbers.{scan-decimal, strtol-decimal}
use auroralink.Examples.{listening_socket}
use auroralink.Pages.Program.{
  config_host, config_port, producer_id, stoi, stoull, Options, read_options, options, listed,
  config_failed, list_pages, run_options, main,
}
use auroralink.Pages.Reference.{names_of_new, heard_exchanges, listen-names_of_new}

stoi-decimal : (n : ℕ) → n < 2 ^ 31 → stoi (decimal n) ≡ some (pos n)
unfolding stoi
stoi-decimal n small = rw (strtol-decimal n (omega arith), stoi) (rw (lt→ltb n (2 ^ 31) small) refl)

stoull-decimal : (n : ℕ) → n < 2 ^ 64 → stoull (decimal n) ≡ some n
unfolding stoull
stoull-decimal n small =
    let (sign, digits, nonempty) = scan-decimal n in
    rw sign (
      rw digits (elim (Bool-cases (0 == length (decimal n))) [
        | inl empty ↦ absurd (nonempty (ground arith))
        | inr some_digits ↦ rw some_digits (rw (lt→ltb n (2 ^ 64) small) refl)
      ]))

read_options-decimal :
    (o : Options) (host : Text) (n producer : ℕ)
    → n < 2 ^ 31
    → producer < 2 ^ 64
    → read_options
        (config_host host ∷ config_port (decimal n) ∷ producer_id (decimal producer) ∷ [])
        o
      ≡ options (record { host = host; port = n % 2 ^ 16; id = producer })
unfolding read_options
read_options-decimal o host n producer small_port small_id =
    rw (stoi-decimal n small_port, read_options)
      (rw (stoull-decimal producer small_id, read_options) refl)

module _ (x : Xml) (u : UrlLibrary) (t : Transfer) (names : EgdTypeNameMap) (resolver : Resolver)
    (replies : Replies) (this : ℕ) (start_time : DataTime) where
  list_pages-listed :
      (c : EgdConfig) (datagrams : List (List ℕ × List ℕ))
      → (listening_socket resolver replies).0.1 ≡ []
      → list_pages x u t names resolver replies this start_time c datagrams
        ≡ listed (names_of_new c.page_map [] (heard_exchanges datagrams))
  unfolding list_pages get_page_map
  list_pages-listed c datagrams listens =
      rw (listens, list_pages) (ap listed (listen-names_of_new c.page_map datagrams))

  -- Given a host, a port that is an `int`, and an identifier of 64 bits, in decimal, and a socket
  -- that listens: the program reads the config from the port modulo 2^16, for the identifier modulo
  -- 2^32; where that fails it ends with its status, and elsewhere it prints the names of the pages
  -- of the exchanges that it hears, each exchange once, in the order in which they are heard, and the
  -- pages of one exchange in the order of their names.
  pub main-listed :
      (port id : ℕ) (host : Text) (n producer : ℕ) (datagrams : List (List ℕ × List ℕ))
      → n < 2 ^ 31
      → producer < 2 ^ 64
      → (listening_socket resolver replies).0.1 ≡ []
      → let (_, c, status) =
          producer_read x u t names
            (new_config this start_time host (n % 2 ^ 16))
            (producer % 2 ^ 32) in
        let run =
          main x u t names resolver replies this start_time port id
            (config_host host ∷ config_port (decimal n) ∷ producer_id (decimal producer) ∷ [])
            datagrams in
        ((is_ok status ≡ true)
          × (run ≡ listed (names_of_new c.page_map [] (heard_exchanges datagrams))))
        ⊎ ((is_ok status ≡ false) × (run ≡ config_failed status))
  unfolding main run_options
  main-listed port id host n producer datagrams small_port small_id listens =
      let held : Options = record { host = []; port = port; id = id } in
      let read =
        producer_read x u t names (new_config this start_time host (n % 2 ^ 16))
          (producer % 2 ^ 32) in
      rw (read_options-decimal held host n producer small_port small_id, main)
        (elim (Bool-cases (is_ok read.2)) [
          | inl good ↦ rw good (inl (refl, list_pages-listed read.1 datagrams listens))
          | inr bad ↦ rw bad (inr (refl, refl))
        ])

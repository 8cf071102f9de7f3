-- ===== src/Pages/Tests.antt =====
-- Tests of the listing.
use auroralink.Prelude.{
  ℕ, ◌+◌, ◌%◌, ◌^◌, ◌≡◌, ◌⊎◌, refl, true, false, codes, List, [], ◌∷◌, replicate, arith,
}
use auroralink.Status.{EgdStatus, is_ok}
use auroralink.Spec.{DataTime}
use auroralink.Config.Types.{EgdTypeNameMap, EgdConfig, egd_type_names, new_config}
use auroralink.Config.Url.{decimal}
use auroralink.Config.Read.{producer_read}
use auroralink.Client.Connect.{is_invalid_socket, is_failure, is_socket_error}
use auroralink.Examples.{listening_socket}
use auroralink.Pages.Program.{
  config_host, config_port, producer_id, Listing, listed, config_failed, main,
}
use auroralink.Pages.Reference.{names_of_new, heard_exchanges}
use auroralink.Pages.Listing.{main-listed}
use auroralink.Samples.{sample_xml, sample_urls, sample_transfer, sample_resolver, sample_replies}

-- A header for exchange 1.
abbrev exchange_one : List ℕ
exchange_one = 13 ∷ 1 ∷ 0 ∷ 0 ∷ 42 ∷ 0 ∷ 0 ∷ 0 ∷ 1 ∷ 0 ∷ 0 ∷ 0 ∷ []

abbrev held : DataTime
held = record { tv_sec = 7; tv_nsec = 8 }

socket_listens : (listening_socket sample_resolver sample_replies).0.1 ≡ []
unfolding listening_socket is_invalid_socket is_failure is_socket_error
socket_listens = refl

-- A port and an identifier that do not fit.
abbrev run : Listing
run =
    main sample_xml sample_urls sample_transfer egd_type_names sample_resolver sample_replies 5 held
      0 0
      (config_host (codes "h")
        ∷ config_port (decimal 73473)
        ∷ producer_id (decimal (2 ^ 32 + 42))
        ∷ [])
      ((replicate 32 0, exchange_one) ∷ (replicate 32 0, exchange_one) ∷ [])

abbrev read_it : EgdTypeNameMap × EgdConfig × EgdStatus
read_it =
    producer_read sample_xml sample_urls sample_transfer egd_type_names
      (new_config 5 held (codes "h") (73473 % 2 ^ 16)) ((2 ^ 32 + 42) % 2 ^ 32)

main-listed_example :
    ((is_ok read_it.2 ≡ true)
      × (run
          ≡ listed (
              names_of_new read_it.1.page_map [] (
                heard_exchanges
                  ((replicate 32 0, exchange_one) ∷ (replicate 32 0, exchange_one) ∷ [])))))
    ⊎ ((is_ok read_it.2 ≡ false) × (run ≡ config_failed read_it.2))
main-listed_example =
    main-listed sample_xml sample_urls sample_transfer egd_type_names sample_resolver sample_replies
      5 held 0 0 (codes "h") 73473 (2 ^ 32 + 42)
      ((replicate 32 0, exchange_one) ∷ (replicate 32 0, exchange_one) ∷ []) (omega arith)
      (omega arith) socket_listens

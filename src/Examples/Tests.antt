-- ===== src/Examples/Tests.antt =====
-- Tests of the examples.
use auroralink.Prelude.{ℕ, ◌+◌, ◌*◌, ◌≡◌, refl, some, List, [], ◌∷◌, replicate, arith}
use auroralink.Prelude.Int.{pos}
use auroralink.Config.Types.{EgdDataType, EgdVarInfo}
use auroralink.Json.Encode.{done}
use auroralink.Spec.{DataTime}
use auroralink.Config.Types.{EgdConfig, egd_type_names, new_config}
use auroralink.Client.Configs.{Objects}
use auroralink.Examples.{ready, fill_data, print_variable, local_host}
use auroralink.Examples.Mains.{
  and_then, raw_bytes_publish_main, json_publish_main, raw_bytes_subscribe_main,
  json_subscribe_main,
}
use auroralink.Examples.Interface.{
  raw_bytes_publish_main_c, json_publish_main_c, raw_bytes_subscribe_main_c, json_subscribe_main_c,
}
use auroralink.Examples.Agree.{examples_agree}
use auroralink.Samples.{
  sample_xml, sample_urls, sample_transfer, sample_resolver, sample_replies, sample_page,
  sample_json,
}
use auroralink.Examples.Value.{rest_at, print_variable-fill_data}

abbrev counter : EgdVarInfo
counter = record { bit_offset = 32; data_type = record { type = EgdDataType.ulint; bits = pos 64 } }

-- An array that held the byte 1 everywhere.
print_variable-fill_data_example :
    (bytes' : List ℕ) × (fill_data counter (replicate 20 1) ≡ done bytes')
    × (print_variable counter bytes' ≡ done (some (42 + 256 * rest_at (replicate 20 1) 4)))
print_variable-fill_data_example =
    print_variable-fill_data counter (replicate 20 1) refl (omega arith)

abbrev held : DataTime
held = record { tv_sec = 7; tv_nsec = 8 }

abbrev no_objects : Objects
no_objects = record { objects = []; names = egd_type_names; requests = 0 }

abbrev config : EgdConfig
config = new_config 5 held local_host 7938

examples_agree_example :
    (raw_bytes_publish_main_c sample_xml sample_urls
        (λ n. sample_transfer)
        5
        held
        no_objects
        sample_page
        sample_resolver
        counter
        (replicate 1400 1)
        (sample_replies ∷ [])
      ≡ raw_bytes_publish_main sample_xml sample_urls sample_transfer egd_type_names config
          sample_page sample_resolver counter
          (replicate 1400 1)
          (sample_replies ∷ []))
    × (json_publish_main_c sample_xml sample_urls
          (λ n. sample_transfer)
          5
          held
          no_objects
          sample_page
          sample_resolver
          sample_json
          (sample_replies ∷ [])
        ≡ json_publish_main sample_xml sample_urls sample_transfer egd_type_names config sample_page
            sample_resolver sample_json
            (sample_replies ∷ []))
    × (raw_bytes_subscribe_main_c sample_xml sample_urls
          (λ n. sample_transfer)
          5
          held
          no_objects
          sample_page
          sample_resolver
          sample_replies
          1000
        ≡ and_then
            (raw_bytes_subscribe_main sample_xml sample_urls sample_transfer egd_type_names config
              sample_page sample_resolver sample_replies 1000 5)
            (λ (c, calls). ready (some c, calls)))
    × (json_subscribe_main_c sample_xml sample_urls
          (λ n. sample_transfer)
          5
          held
          no_objects
          sample_page
          sample_resolver
          sample_replies
          500
          1000
        ≡ and_then
            (json_subscribe_main sample_xml sample_urls sample_transfer egd_type_names config
              sample_page sample_resolver sample_replies 500 1000 5)
            (λ (c, calls). ready (some c, calls)))
examples_agree_example =
    examples_agree sample_xml sample_urls (λ n. sample_transfer) 5 held no_objects sample_page
      sample_resolver sample_json counter (replicate 1400 1) (sample_replies ∷ []) sample_replies
      500 1000

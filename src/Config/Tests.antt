-- ===== src/Config/Tests.antt =====
-- Tests of the configuration parser and of the two classes that read one.
use auroralink.Prelude.{◌≡◌, ◌≢◌, refl, codes, none, some, ◌++◌, arith}
use auroralink.Prelude.Eq.{text_eq}
use auroralink.Prelude.Assoc.{find}
use auroralink.Status.{ok}
use auroralink.Config.Types.{egd_type_names}
use auroralink.Config.Url.{decimal}
use auroralink.Config.Url.Decimal.{spells, spells-decimal}
use auroralink.Config.Parse.Meaning.{egd_type_names-Agrees}
use auroralink.Config.Parse.Typing.{PagesTyped}
use auroralink.Config.Read.{
  producer_config, consumer_config, read, exchange_xpath, xpath_head, xpath_tail,
}
use auroralink.Config.Read.Effects.{read_keeps, read_refused, exchange_xpath_whole, read-PagesTyped}
use auroralink.Samples.{
  sample_xml, sample_urls, sample_transfer, refusing_transfer, empty_config, sample_config,
  sample_entry,
}

spells-decimal_example : spells 0 (decimal 18246) ≡ 18246
spells-decimal_example = spells-decimal 18246

absent : find (codes "WSTRING") egd_type_names ≡ none
unfolding find
absent = refl

held : find (codes "11") sample_config.page_map ≡ some sample_entry
unfolding find
held = refl

read_keeps_example :
    find
      (codes "11")
      (read sample_xml sample_urls producer_config sample_transfer egd_type_names sample_config
        42).1.page_map
    ≡ some sample_entry
read_keeps_example =
    read_keeps sample_xml sample_urls sample_transfer egd_type_names sample_config 42
      producer_config (codes "11") sample_entry egd_type_names-Agrees held

refused_request :
    (read sample_xml sample_urls consumer_config refusing_transfer egd_type_names sample_config
      42).2
    ≢ ok
unfolding read
refused_request e = ground arith

read_refused_example :
    ((read sample_xml sample_urls consumer_config refusing_transfer egd_type_names sample_config
        42).0
      ≡ egd_type_names)
    × ((read sample_xml sample_urls consumer_config refusing_transfer egd_type_names sample_config
          42).1
        ≡ sample_config)
read_refused_example =
    read_refused sample_xml sample_urls refusing_transfer egd_type_names sample_config 42
      consumer_config egd_type_names-Agrees refused_request

exchange_xpath_whole_example :
    exchange_xpath 4294967295 ≡ xpath_head ++ (decimal 4294967295 ++ xpath_tail)
exchange_xpath_whole_example = exchange_xpath_whole 4294967295 (omega arith)

read-PagesTyped_example :
    PagesTyped
      (read sample_xml sample_urls producer_config sample_transfer egd_type_names empty_config
        42).1.page_map
read-PagesTyped_example =
    read-PagesTyped sample_xml sample_urls sample_transfer egd_type_names empty_config 42
      producer_config egd_type_names-Agrees tt

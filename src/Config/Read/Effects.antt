-- ===== src/Config/Read/Effects.antt =====
-- What a `Read` of either class does to the config object.
use auroralink.Prelude.{
  ℕ, subst, ◌-◌, ◌<◌, ◌^◌, ◌≡◌, refl, sym, ◌∙◌, ◌≢◌, ◌⊎◌, inl, inr, Text, some, List, [], ◌∷◌, ◌++◌,
  append_assoc, append-nil, length-append, take_all, true, false, Bool-cases, arith,
}
use auroralink.Prelude.Eq.{text_eq}
use auroralink.Prelude.Assoc.{find, or_default}
use auroralink.Status.{EgdStatus, ok, is_ok}
use auroralink.Config.Types.{EgdTypeNameMap, EgdConfig, EgdPageMapEntry}
use auroralink.Config.Libraries.{Xml, Transfer, UrlLibrary}
use auroralink.Config.Url.{decimal}
use auroralink.Config.Url.Decimal.{length-decimal}
use auroralink.Config.Fetch.{get_request, receive_chunks}
use auroralink.Config.Parse.{parse_xml}
use auroralink.Config.Parse.Meaning.{Agrees}
use auroralink.Config.Parse.Pages.{parse_xml_keeps, parse_xml_refused, parse_xml-Agrees}
use auroralink.Config.Parse.Typing.{PagesTyped, parse_xml-PagesTyped}
use auroralink.Config.Read.{
  ConfigKind, producer_config, consumer_config, xpath_head, xpath_tail, xpath_len, exchange_xpath,
  fetch_and_parse, read,
}

-- For every 32-bit producer, the buffer holds the whole XPath.
pub exchange_xpath_whole :
    (id : ℕ) → id < 2 ^ 32 → exchange_xpath id ≡ xpath_head ++ (decimal id ++ xpath_tail)
unfolding exchange_xpath
exchange_xpath_whole id h =
    take_all (xpath_len - 1) (xpath_head ++ (decimal id ++ xpath_tail))
      (omega (arith, length-append (decimal id) xpath_tail, length-decimal id h))

-- The chunks of a response in one text.
unfoldable pub joined : List Text → Text
joined [] = []
joined (c ∷ cs) = c ++ joined cs

receive_chunks-joined : (cs : List Text) (r : Text) → receive_chunks cs r ≡ r ++ joined cs
unfolding receive_chunks joined
receive_chunks-joined [] r = sym (append-nil r)
receive_chunks-joined (c ∷ cs) r = receive_chunks-joined cs (r ++ c) ∙ append_assoc r c (joined cs)

module _ (x : Xml) (t : Transfer) (names : EgdTypeNameMap) (c : EgdConfig) (id : ℕ) where
  -- If the handle is made and the transfer succeeds, the text that is parsed is the chunks joined in
  -- the order in which they came.
  pub fetch_parses_response :
      (url pxp exp va : Text) (chunks : List Text)
      → t.easy_init ≡ true
      → t.easy_perform url ≡ (chunks, 0)
      → fetch_and_parse x t names c id url pxp exp va
        ≡ parse_xml x names c (joined chunks) id pxp exp va
  unfolding fetch_and_parse
  fetch_parses_response url pxp exp va chunks init perform =
      rw (init, fetch_and_parse)
        (rw (perform, fetch_and_parse) (rw (receive_chunks-joined chunks [])))

  -- A fetch either leaves everything alone with a status that is not `ok`, or parses a response.
  fetch_cases :
      (url pxp exp va : Text)
      → ((status : EgdStatus) × (fetch_and_parse x t names c id url pxp exp va ≡ (names, c, status))
          × (is_ok status ≡ false))
        ⊎ ((response : Text) × (fetch_and_parse x t names c id url pxp exp va
              ≡ parse_xml x names c response id pxp exp va))
  unfolding fetch_and_parse
  fetch_cases url pxp exp va =
      let r = get_request t url (some []) in
      elim (Bool-cases (is_ok r.1)) [
        | inl good ↦ inr (or_default [] r.0, rw good)
        | inr bad ↦ inl (r.1, rw bad, bad)
      ]

  -- What every parse keeps, and the refusals, every fetch keeps.
  fetch_inv {ℓ} :
      (P : EgdTypeNameMap × EgdConfig × EgdStatus → Type ℓ) (url pxp exp va : Text)
      → ((status : EgdStatus) → is_ok status ≡ false → P (names, c, status))
      → ((response : Text) → P (parse_xml x names c response id pxp exp va))
      → P (fetch_and_parse x t names c id url pxp exp va)
  fetch_inv P url pxp exp va refused parsed = elim (fetch_cases url pxp exp va) [
    | inl (status, e, bad) ↦ subst P (sym e) (refused status bad)
    | inr (response, e) ↦ subst P (sym e) (parsed response)
  ]

module _ (x : Xml) (u : UrlLibrary) (t : Transfer) (names : EgdTypeNameMap) (c : EgdConfig)
    (id : ℕ) where
  read_inv {ℓ} :
      (P : EgdTypeNameMap × EgdConfig × EgdStatus → Type ℓ) (kind : ConfigKind)
      → ((status : EgdStatus) → is_ok status ≡ false → P (names, c, status))
      → ((response pxp exp va : Text) → P (parse_xml x names c response id pxp exp va))
      → P (read x u kind t names c id)
  unfolding read
  read_inv P producer_config refused parsed =
      fetch_inv x t names c id P _ _ _ _ refused λ response. parsed response _ _ _
  read_inv P consumer_config refused parsed =
      fetch_inv x t names c id P _ _ _ _ refused λ response. parsed response _ _ _

  -- For a static map that answers as at the start: whatever the server answers, a page that the
  -- object holds is as it was.
  pub read_keeps :
      (kind : ConfigKind) (k : Text) (entry : EgdPageMapEntry)
      → Agrees names
      → find k c.page_map ≡ some entry
      → find k (read x u kind t names c id).1.page_map ≡ some entry
  read_keeps kind k entry agrees h =
      read_inv (λ r. find k r.1.page_map ≡ some entry) kind (λ status bad. h)
        λ response pxp exp va. parse_xml_keeps x names c response id pxp exp va agrees k entry h

  -- For a static map that answers as at the start: a read whose status is not `ok` changes neither
  -- that map nor the object.
  pub read_refused :
      (kind : ConfigKind)
      → Agrees names
      → (read x u kind t names c id).2 ≢ ok
      → ((read x u kind t names c id).0 ≡ names) × ((read x u kind t names c id).1 ≡ c)
  read_refused kind agrees =
      read_inv (λ r. r.2 ≢ ok → (r.0 ≡ names) × (r.1 ≡ c)) kind (λ status bad h. (refl, refl))
        λ response pxp exp va. parse_xml_refused x names c response id pxp exp va agrees

  -- For a static map that answers as at the start, and pages of which this holds before: after a read
  -- every variable of every page has the size of its type, or is a BOOL of 0 bits, which is what an
  -- unknown name of a type gets.
  pub read-PagesTyped :
      (kind : ConfigKind)
      → Agrees names
      → PagesTyped c.page_map
      → PagesTyped (read x u kind t names c id).1.page_map
  read-PagesTyped kind agrees h =
      read_inv (λ r. PagesTyped r.1.page_map) kind (λ status bad. h)
        λ response pxp exp va. parse_xml-PagesTyped x names c response id pxp exp va agrees h

  pub read-Agrees : (kind : ConfigKind) → Agrees names → Agrees (read x u kind t names c id).0
  read-Agrees kind agrees =
      read_inv (λ r. Agrees r.0) kind (λ status bad. agrees)
        λ response pxp exp va. parse_xml-Agrees x names c response id pxp exp va agrees

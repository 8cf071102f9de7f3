-- ===== src/Config/Parse/Pages.antt =====
-- What the page map holds after a document has been read.
use auroralink.Prelude.{
  ℕ, ◌≡◌, refl, ap, sym, subst, ◌∙◌, ◌≢◌, ◌⊎◌, inl, inr, Option-cases, List-cases, Text, Option,
  none, some, List, [], ◌∷◌, arith, if◌then◌else◌,
}
use auroralink.Prelude.Eq.{text_eq, text_eqb}
use auroralink.Prelude.Assoc.{find, insert, find-insert}
use auroralink.Status.{ok, err_xml_parse, err_xml_producer_not_found, err_xml_exchange_not_found}
use auroralink.Config.Types.{EgdTypeNameMap, EgdConfig, EgdPageMap, EgdPageMapEntry}
use auroralink.Config.Libraries.{Xml}
use auroralink.Config.Parse.{page_key, parse_xml, parse_document}
use auroralink.Config.Parse.Meaning.{Agrees, entry_of, pages_of, parse_exchanges-pages_of}

module _ (x : Xml) where
  open x use {Doc, Node, load_string, select_node, select_nodes}

  -- The first exchange of a name.
  unfoldable pub first_exchange : Text → List (Option Node) → Option Node
  first_exchange k [] = none
  first_exchange k (none ∷ rest) = first_exchange k rest
  first_exchange k (some node ∷ rest) =
      let later = first_exchange k rest in if text_eqb (page_key x node) k then some node else later

  -- The page of a name after the exchanges: the page that was there, or that of the first exchange.
  abbrev pub page_after :
      ℕ → ℕ → Text → Text → List (Option Node) → Option EgdPageMapEntry → Option EgdPageMapEntry
  page_after this id va k es (some e) = some e
  page_after this id va k es none = elim (first_exchange k es) [
    | none ↦ none
    | some node ↦ some (entry_of x this id va node)
  ]

  find-pages_of :
      (this id : ℕ) (va k : Text) (es : List (Option Node)) (pages : EgdPageMap)
      → find k (pages_of x this id va es pages) ≡ page_after this id va k es (find k pages)
  unfolding pages_of first_exchange
  find-pages_of this id va k [] pages = ground arith
  find-pages_of this id va k (none ∷ rest) pages = find-pages_of this id va k rest pages
  find-pages_of this id va k (some node ∷ rest) pages = ground (
    arith,
    find-pages_of this id va k rest (insert (page_key x node) (entry_of x this id va node) pages),
    find-insert (page_key x node) k (entry_of x this id va node) pages,
  )

  module _ (names : EgdTypeNameMap) (c : EgdConfig) (xml : Text) (id : ℕ) (pxp exp va : Text)
      (agrees : Agrees names) where
    pub parse_xml_pages :
        (doc : Doc) (producer : Node) (e : Option Node) (es : List (Option Node))
        → load_string xml ≡ some doc
        → select_node doc pxp ≡ some producer
        → select_nodes doc exp ≡ e ∷ es
        → ((parse_xml x names c xml id pxp exp va).2 ≡ ok)
          × ((k : Text)
              → find k (parse_xml x names c xml id pxp exp va).1.page_map
                ≡ page_after c.this id va k (e ∷ es) (find k c.page_map))
          × Agrees (parse_xml x names c xml id pxp exp va).0
    unfolding parse_xml
    parse_xml_pages doc producer e es loads has_producer has_exchange =
        let (pages, agrees') =
          parse_exchanges-pages_of x c.this id va names (e ∷ es) c.page_map agrees in
        rw (loads, parse_xml)
          (rw (has_producer, parse_xml)
            (rw (has_exchange, parse_document)
              (refl, (λ k. rw pages (find-pages_of c.this id va k (e ∷ es) c.page_map)), agrees')))

    -- What `parse_xml` comes to: a refusal with its status, which leaves the object and the static
    -- map alone, or the document's pages.
    parse_xml_cases :
        (((parse_xml x names c xml id pxp exp va).2 ≡ err_xml_parse)
            ⊎ ((parse_xml x names c xml id pxp exp va).2 ≡ err_xml_producer_not_found)
            ⊎ ((parse_xml x names c xml id pxp exp va).2 ≡ err_xml_exchange_not_found))
          × ((parse_xml x names c xml id pxp exp va).0 ≡ names)
          × ((parse_xml x names c xml id pxp exp va).1 ≡ c)
        ⊎ ((doc : Doc) × (producer : Node) × (e : Option Node) × (es : List (Option Node))
            × (load_string xml ≡ some doc)
            × (select_node doc pxp ≡ some producer)
            × (select_nodes doc exp ≡ e ∷ es))
    unfolding parse_xml
    parse_xml_cases = elim (Option-cases (load_string xml)) [
      | inl bad ↦ rw (bad, parse_xml) (inl (inl refl, refl, refl))
      | inr (doc, loads) ↦
          rw (loads, parse_xml)
            (elim (Option-cases (select_node doc pxp)) [
              | inl missing ↦ rw (missing, parse_xml) (inl (inr (inl refl), refl, refl))
              | inr (producer, there) ↦
                  rw (there, parse_xml)
                    (elim (List-cases (select_nodes doc exp)) [
                      | inl empty ↦ rw (empty, parse_document) (inl (inr (inr refl), refl, refl))
                      | inr (e, es, more) ↦ inr (doc, producer, e, es, refl, there, more)
                    ])
            ])
    ]

    -- For a static map that answers as at the start: a page that the object holds is not changed by
    -- any text that is parsed.
    pub parse_xml_keeps :
        (k : Text) (entry : EgdPageMapEntry)
        → find k c.page_map ≡ some entry
        → find k (parse_xml x names c xml id pxp exp va).1.page_map ≡ some entry
    parse_xml_keeps k entry h = elim parse_xml_cases [
      | inl (_, _, same) ↦ rw same h
      | inr (doc, producer, e, es, l, p, n) ↦ (parse_xml_pages doc producer e es l p n).1 k ∙ rw h
    ]

    -- For a static map that answers as at the start: if the status is not `ok`, neither that map nor
    -- the object has changed.
    pub parse_xml_refused :
        ((parse_xml x names c xml id pxp exp va).2 ≢ ok)
        → ((parse_xml x names c xml id pxp exp va).0 ≡ names)
          × ((parse_xml x names c xml id pxp exp va).1 ≡ c)
    parse_xml_refused h = elim parse_xml_cases [
      | inl (_, m, same) ↦ (m, same)
      | inr (doc, producer, e, es, l, p, n) ↦ absurd (h (parse_xml_pages doc producer e es l p n).0)
    ]

    -- Whatever the document, the pages are those of a fold over some exchanges, or unchanged.
    pub parse_xml_fold :
        (es : List (Option Node)) × ((parse_xml x names c xml id pxp exp va).1.page_map
          ≡ pages_of x c.this id va es c.page_map)
    unfolding parse_xml
    parse_xml_fold = elim parse_xml_cases [
      | inl (_, _, same) ↦ ([], unfold pages_of in ap (λ (d : EgdConfig). d.page_map) same)
      | inr (doc, producer, e, es, l, p, n) ↦ (
        e ∷ es,
        rw (l, parse_xml)
            (rw (p, parse_xml)
              (rw (n, parse_document)
                (parse_exchanges-pages_of x c.this id va names (e ∷ es) c.page_map agrees).0)),
      )
    ]

    pub parse_xml-Agrees : Agrees (parse_xml x names c xml id pxp exp va).0
    parse_xml-Agrees = elim parse_xml_cases [
      | inl (_, same, _) ↦ subst Agrees (sym same) agrees
      | inr (doc, producer, e, es, l, p, n) ↦ (parse_xml_pages doc producer e es l p n).2
    ]

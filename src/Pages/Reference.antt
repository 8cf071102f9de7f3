-- ===== src/Pages/Reference.antt =====
-- What list_available_pages.cpp prints, against a description of it.
use auroralink.Prelude.{
  ℕ, ◌≡◌, ◌⊎◌, refl, ap, sym, subst, ◌∙◌, inl, inr, Text, Bool, true, false, ◌||◌, ◌==◌, List, [],
  ◌∷◌, ◌++◌, if◌then◌else◌, ltb, arith, Bool-cases,
}
use auroralink.Config.Types.{EgdPageMap}
use auroralink.Client.Poll.{received_message, received_length}
use auroralink.Prelude.Order.{text_less, in_order}
use auroralink.Pages.{print_pages, contains, print_entries, hear, receive_datagram, listen}
use auroralink.Pages.Once.{contains-append, print_entries-cases}

-- The names of an exchange's pages, in the order of the entries, and in that of their names.
abbrev pub names_of : ℕ → EgdPageMap → List Text
names_of id [] = []
names_of id ((name, entry) ∷ pages) =
    if id == entry.page.exchange_id then name ∷ names_of id pages else names_of id pages

abbrev pub names_by_name : ℕ → EgdPageMap → List Text
names_by_name id pages = names_of id (in_order text_less pages)

-- The exchanges of the datagrams that are not empty.
abbrev pub heard_exchanges : List (List ℕ × List ℕ) → List ℕ
heard_exchanges [] = []
heard_exchanges ((stack, datagram) ∷ rest) =
    if ltb 0 (received_length datagram)
    then (received_message stack datagram).hdr.exchange_id ∷ heard_exchanges rest
    else heard_exchanges rest

-- The names of the pages of some exchanges, each exchange where it comes first.
abbrev pub names_of_new : EgdPageMap → List ℕ → List ℕ → List Text
names_of_new pages seen [] = []
names_of_new pages seen (id ∷ ids) =
    (if contains id seen then [] else names_by_name id pages)
    ++ names_of_new pages (seen ++ id ∷ []) ids

-- The numbers that are kept are those that were heard, but for those without a page.
abbrev Agrees : EgdPageMap → List ℕ → List ℕ → Type 0
Agrees pages printed seen =
    (id : ℕ) → (contains id printed ≡ contains id seen) ⊎ (names_by_name id pages ≡ [])

print_entries-names_of :
    (id : ℕ) (pages : EgdPageMap) (printed : List ℕ)
    → (print_entries id pages printed).1 ≡ names_of id pages
unfolding print_entries
print_entries-names_of id [] printed = refl
print_entries-names_of id ((name, entry) ∷ pages) printed =
    elim (Bool-cases (id == entry.page.exchange_id)) [
      | inl same ↦ rw same (
          ap (λ (names : List Text). name ∷ names)
            (print_entries-names_of id pages (printed ++ id ∷ [])))
      | inr other ↦ rw other (print_entries-names_of id pages printed)
    ]

or_false : (b : Bool) → (b || (false || false)) ≡ b
or_false true = refl
or_false false = refl

-- Another number is kept as it was, and this one is kept if it has a page.
print_entries-contains_other :
    (id j : ℕ) (pages : EgdPageMap) (printed : List ℕ)
    → (j == id) ≡ false
    → contains id (print_entries j pages printed).0 ≡ contains id printed
unfolding print_entries contains
print_entries-contains_other id j [] printed other = refl
print_entries-contains_other id j ((name, entry) ∷ pages) printed other =
    elim (Bool-cases (j == entry.page.exchange_id)) [
      | inl same ↦ rw same (
          print_entries-contains_other id j pages (printed ++ j ∷ []) other
          ∙ contains-append id printed (j ∷ [])
          ∙ rw other (or_false (contains id printed)))
      | inr differ ↦ rw differ (print_entries-contains_other id j pages printed other)
    ]

contains-added :
    (j id : ℕ) (seen : List ℕ) → (id == j) ≡ false → contains j (seen ++ id ∷ []) ≡ contains j seen
unfolding contains
contains-added j id seen other =
    contains-append j seen (id ∷ []) ∙ rw other (or_false (contains j seen))

contains-last : (id : ℕ) (seen : List ℕ) → contains id (seen ++ id ∷ []) ≡ true
unfolding contains
contains-last id seen = contains-append id seen (id ∷ []) ∙ ground arith

-- A test that holds only where there are no names.
if_seen :
    (seen : Bool) (names : List Text)
    → (seen ≡ false) ⊎ (names ≡ [])
    → names ≡ (if seen then [] else names)
if_seen seen names (inl fresh) = rw fresh refl
if_seen true names (inr empty) = empty
if_seen false names (inr empty) = refl

if_known :
    (seen : Bool) (names : List Text)
    → (seen ≡ true) ⊎ (names ≡ [])
    → [] ≡ (if seen then [] else names)
if_known seen names (inl known) = rw known refl
if_known true names (inr empty) = refl
if_known false names (inr empty) = sym empty

hear-names :
    (pages : EgdPageMap) (printed seen : List ℕ) (id : ℕ)
    → Agrees pages printed seen
    → (hear pages printed id).1 ≡ (if contains id seen then [] else names_by_name id pages)
unfolding hear print_pages
hear-names pages printed seen id agrees = elim (Bool-cases (contains id printed)) [
  | inl known ↦ rw known (if_known (contains id seen) (names_by_name id pages) (seen_is true known))
  | inr fresh ↦ rw fresh (
      print_entries-names_of id (in_order text_less pages) printed
      ∙ if_seen (contains id seen) (names_by_name id pages) (seen_is false fresh))
]
  where
    seen_is :
        (b : Bool)
        → contains id printed ≡ b
        → (contains id seen ≡ b) ⊎ (names_by_name id pages ≡ [])
    seen_is b h = elim (agrees id) [ inl same ↦ inl (sym same ∙ h) | inr no_page ↦ inr no_page ]

hear-kept :
    (pages : EgdPageMap) (printed : List ℕ) (id : ℕ)
    → (contains id (hear pages printed id).0 ≡ true) ⊎ (names_by_name id pages ≡ [])
unfolding hear print_pages
hear-kept pages printed id = elim (Bool-cases (contains id printed)) [
  | inl known ↦ rw known (inl known)
  | inr fresh ↦ rw fresh (elim (print_entries-cases id (in_order text_less pages) printed) [
    | inl kept ↦ inl kept
    | inr none ↦ inr (sym (print_entries-names_of id (in_order text_less pages) printed) ∙ none)
  ])
]

hear-other :
    (pages : EgdPageMap) (printed : List ℕ) (id j : ℕ)
    → (id == j) ≡ false
    → contains j (hear pages printed id).0 ≡ contains j printed
unfolding hear print_pages
hear-other pages printed id j other = elim (Bool-cases (contains id printed)) [
  | inl known ↦ rw known refl
  | inr fresh ↦
      rw fresh (print_entries-contains_other j id (in_order text_less pages) printed other)
]

hear-Agrees :
    (pages : EgdPageMap) (printed seen : List ℕ) (id : ℕ)
    → Agrees pages printed seen
    → Agrees pages (hear pages printed id).0 (seen ++ id ∷ [])
hear-Agrees pages printed seen id agrees j = elim (Bool-cases (id == j)) [
  | inl same ↦
      subst
        (λ i.
          (contains i (hear pages printed id).0 ≡ contains i (seen ++ id ∷ []))
          ⊎ (names_by_name i pages ≡ []))
        (same_id same)
        (elim (hear-kept pages printed id) [
          | inl kept ↦ inl (kept ∙ sym (contains-last id seen))
          | inr no_page ↦ inr no_page
        ])
  | inr other ↦ elim (agrees j) [
    | inl same ↦
        inl (hear-other pages printed id j other ∙ same ∙ sym (contains-added j id seen other))
    | inr no_page ↦ inr no_page
  ]
]
  where
    same_id : (id == j) ≡ true → id ≡ j
    same_id h = ground arith

listen-names :
    (pages : EgdPageMap) (printed seen : List ℕ) (datagrams : List (List ℕ × List ℕ))
    → Agrees pages printed seen
    → (listen pages printed datagrams).1 ≡ names_of_new pages seen (heard_exchanges datagrams)
unfolding listen receive_datagram
listen-names pages printed seen [] agrees = refl
listen-names pages printed seen ((stack, datagram) ∷ rest) agrees =
    let id = (received_message stack datagram).hdr.exchange_id in
    elim (Bool-cases (ltb 0 (received_length datagram))) [
      | inl some_bytes ↦ rw some_bytes (
          rw (hear-names pages printed seen id agrees) (
            ap (◌++◌ (if contains id seen then [] else names_by_name id pages)) (
              listen-names pages (hear pages printed id).0 (seen ++ id ∷ []) rest
                (hear-Agrees pages printed seen id agrees))))
      | inr empty ↦ rw empty (listen-names pages printed seen rest agrees)
    ]

-- Over any datagrams, the program prints the names of the pages of the exchanges that it hears, in
-- the order of their names, each exchange where it is heard first and there alone.
pub listen-names_of_new :
    (pages : EgdPageMap) (datagrams : List (List ℕ × List ℕ))
    → (listen pages [] datagrams).1 ≡ names_of_new pages [] (heard_exchanges datagrams)
listen-names_of_new pages datagrams = listen-names pages [] [] datagrams (λ id. inl refl)

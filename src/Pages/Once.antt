-- ===== src/Pages/Once.antt =====
-- A page is printed for the first message of its exchange only.
use auroralink.Prelude.{
  ℕ, ◌≡◌, refl, ap, ◌∙◌, ◌⊎◌, inl, inr, Text, true, ◌||◌, ◌==◌, List, [], ◌∷◌, ◌++◌, ltb, arith,
  Bool-cases,
}
use auroralink.Config.Types.{EgdPageMap}
use auroralink.Client.Poll.{received_message, received_length}
use auroralink.Prelude.Order.{text_less, in_order}
use auroralink.Pages.{print_pages, contains, print_entries, hear, receive_datagram, listen}

pub contains-append :
    (id : ℕ) (xs ys : List ℕ) → contains id (xs ++ ys) ≡ (contains id xs || contains id ys)
unfolding contains
contains-append id [] ys = refl
contains-append id (x ∷ xs) ys = ground (arith, contains-append id xs ys)

-- Numbers that are kept stay.
print_entries-contains :
    (id j : ℕ) (pages : EgdPageMap) (printed : List ℕ)
    → contains id printed ≡ true
    → contains id (print_entries j pages printed).0 ≡ true
unfolding print_entries
print_entries-contains id j [] printed h = h
print_entries-contains id j ((name, entry) ∷ pages) printed h =
    elim (Bool-cases (j == entry.page.exchange_id)) [
      | inl same ↦ rw same (
          print_entries-contains id j pages (printed ++ j ∷ [])
            (contains-append id printed (j ∷ []) ∙ rw h refl))
      | inr other ↦ rw other (print_entries-contains id j pages printed h)
    ]

hear-contains :
    (pages : EgdPageMap) (printed : List ℕ) (id j : ℕ)
    → contains id printed ≡ true
    → contains id (hear pages printed j).0 ≡ true
unfolding hear print_pages
hear-contains pages printed id j h = elim (Bool-cases (contains j printed)) [
  | inl known ↦ rw known h
  | inr fresh ↦ rw fresh (print_entries-contains id j (in_order text_less pages) printed h)
]

listen-contains :
    (pages : EgdPageMap) (printed : List ℕ) (rest : List (List ℕ × List ℕ)) (id : ℕ)
    → contains id printed ≡ true
    → contains id (listen pages printed rest).0 ≡ true
unfolding listen receive_datagram
listen-contains pages printed [] id h = h
listen-contains pages printed ((stack, datagram) ∷ rest) id h =
    listen-contains pages (receive_datagram pages printed stack datagram).0 rest id
      (elim (Bool-cases (ltb 0 (received_length datagram))) [
        | inl some_bytes ↦
            rw some_bytes
              (hear-contains pages printed id (received_message stack datagram).hdr.exchange_id h)
        | inr empty ↦ rw empty h
      ])

-- What is printed does not depend on what is kept.
print_entries-names :
    (id : ℕ) (pages : EgdPageMap) (p q : List ℕ)
    → (print_entries id pages p).1 ≡ (print_entries id pages q).1
unfolding print_entries
print_entries-names id [] p q = refl
print_entries-names id ((name, entry) ∷ pages) p q =
    elim (Bool-cases (id == entry.page.exchange_id)) [
      | inl same ↦ rw same (
          ap (λ (names : List Text). name ∷ names)
            (print_entries-names id pages (p ++ id ∷ []) (q ++ id ∷ [])))
      | inr other ↦ rw other (print_entries-names id pages p q)
    ]

-- After a message either its number is kept, or it has no page.
pub print_entries-cases :
    (id : ℕ) (pages : EgdPageMap) (printed : List ℕ)
    → (contains id (print_entries id pages printed).0 ≡ true)
      ⊎ ((print_entries id pages printed).1 ≡ [])
unfolding print_entries
print_entries-cases id [] printed = inr refl
print_entries-cases id ((name, entry) ∷ pages) printed =
    elim (Bool-cases (id == entry.page.exchange_id)) [
      | inl same ↦ rw same (
          inl (
            print_entries-contains id id pages (printed ++ id ∷ [])
              (contains-append id printed (id ∷ []) ∙ unfold contains in ground arith)))
      | inr other ↦ rw other (print_entries-cases id pages printed)
    ]

hear_silent :
    (pages : EgdPageMap) (printed : List ℕ) (id : ℕ)
    → (contains id printed ≡ true) ⊎ ((print_pages id pages printed).1 ≡ [])
    → (hear pages printed id).1 ≡ []
unfolding hear
hear_silent pages printed id (inl known) = rw known refl
hear_silent pages printed id (inr no_page) = elim (Bool-cases (contains id printed)) [
  | inl known ↦ rw known refl
  | inr fresh ↦ rw fresh no_page
]

hear-cases :
    (pages : EgdPageMap) (printed : List ℕ) (id : ℕ)
    → (contains id (hear pages printed id).0 ≡ true) ⊎ ((print_pages id pages printed).1 ≡ [])
unfolding hear print_pages
hear-cases pages printed id = elim (Bool-cases (contains id printed)) [
  | inl known ↦ rw known (inl known)
  | inr fresh ↦ rw fresh (print_entries-cases id (in_order text_less pages) printed)
]

hear_twice :
    (pages : EgdPageMap) (printed : List ℕ) (id : ℕ) (between : List (List ℕ × List ℕ))
    → (hear pages (listen pages (hear pages printed id).0 between).0 id).1 ≡ []
unfolding print_pages
hear_twice pages printed id between = elim (hear-cases pages printed id) [
  | inl kept ↦
      hear_silent pages (listen pages (hear pages printed id).0 between).0 id
        (inl (listen-contains pages (hear pages printed id).0 between id kept))
  | inr no_page ↦ hear_silent pages (listen pages (hear pages printed id).0 between).0 id (
      inr (
        print_entries-names id (in_order text_less pages)
          (listen pages (hear pages printed id).0 between).0 printed
        ∙ no_page))
]

-- A datagram that comes a second time with the same memory, whatever has come in between, prints
-- nothing.
pub listen_once :
    (pages : EgdPageMap) (printed stack datagram : List ℕ) (between : List (List ℕ × List ℕ))
    → (receive_datagram pages
        (listen pages (receive_datagram pages printed stack datagram).0 between).0
        stack
        datagram).1
      ≡ []
unfolding receive_datagram
listen_once pages printed stack datagram between =
    elim (Bool-cases (ltb 0 (received_length datagram))) [
      | inr empty ↦ rw empty refl
      | inl some_bytes ↦
          rw some_bytes
            (hear_twice pages printed (received_message stack datagram).hdr.exchange_id between)
    ]

-- ===== src/Pages.antt =====
-- libEGD-master/src/examples/list_available_pages.cpp: the loop that tells which pages of a
-- producer are sent. `std::cout` is the list of the names that are printed.
pub mod Once
pub mod Program
pub mod Reference
pub mod Listing
mod Tests
use auroralink.Prelude.{ℕ, Text, Bool, false, ◌||◌, ◌==◌, List, [], ◌∷◌, ◌++◌, if◌then◌else◌, ltb}
use auroralink.Prelude.Order.{text_less, in_order}
use auroralink.Config.Types.{EgdPageMap}
use auroralink.Client.Poll.{received_message, received_length}

-- `std::find` in `printed_exchange_ids`.
unfoldable pub contains : ℕ → List ℕ → Bool
contains id [] = false
contains id (i ∷ ids) = (i == id) || contains id ids

-- The body of the loop over the page map, for each entry: a page of the exchange is printed, and
-- its number kept.
unfoldable pub print_entries : ℕ → EgdPageMap → List ℕ → List ℕ × List Text
print_entries id [] printed = (printed, [])
print_entries id ((name, entry) ∷ pages) printed =
    let is_same = id == entry.page.exchange_id in
    let kept = if is_same then printed ++ id ∷ [] else printed in
    let (printed', names) = print_entries id pages kept in
    (printed', if is_same then name ∷ names else names)

-- The loop goes over the map by page name.
unfoldable pub print_pages : ℕ → EgdPageMap → List ℕ → List ℕ × List Text
unfolding in_order print_entries
print_pages id pages printed = print_entries id (in_order text_less pages) printed

-- A message for an exchange.
unfoldable pub hear : EgdPageMap → List ℕ → ℕ → List ℕ × List Text
unfolding contains print_pages
hear pages printed id = if contains id printed then (printed, []) else print_pages id pages printed

-- The body of the loop, for a datagram into memory that held `stack`.
unfoldable pub receive_datagram : EgdPageMap → List ℕ → List ℕ → List ℕ → List ℕ × List Text
unfolding hear received_message
receive_datagram pages printed stack datagram =
    if ltb 0 (received_length datagram)
    then hear pages printed (received_message stack datagram).hdr.exchange_id
    else (printed, [])

-- The loop, for the datagrams that arrive, each with what the memory held.
unfoldable pub listen : EgdPageMap → List ℕ → List (List ℕ × List ℕ) → List ℕ × List Text
unfolding receive_datagram
listen pages printed [] = (printed, [])
listen pages printed ((stack, datagram) ∷ rest) =
    let (printed₁, names₁) = receive_datagram pages printed stack datagram in
    let (printed₂, names₂) = listen pages printed₁ rest in (printed₂, names₁ ++ names₂)

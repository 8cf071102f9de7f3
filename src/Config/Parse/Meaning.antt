-- ===== src/Config/Parse/Meaning.antt =====
-- The parser without its state: the static map of type names only ever gains zero entries, so each
-- lookup gives what the name means from the start, and the pages are those of a plain fold.
use auroralink.Prelude.{
  ℕ, ◌≡◌, refl, Text, codes, Option, none, some, List, [], ◌∷◌, arith, ◌%◌, ◌^◌,
}
use auroralink.Prelude.Eq.{text_eq, text_eqb_iff}
use auroralink.Prelude.Assoc.{find, insert, assign, or_default, find-insert}
use auroralink.Config.Types.{
  EgdTypeInfo, EgdTypeNameMap, egd_type_names, zero_type_info, EgdVarMap, EgdPageMap,
  EgdPageMapEntry, EgdVarInfo,
}
use auroralink.Config.Libraries.{Xml}
use auroralink.Config.Parse.{index_type_names, parse_vars, page_key, exchange_page, parse_exchanges}

-- What a type name means: its row in the table, and zeros for any other name.
unfoldable pub type_of_name : Text → EgdTypeInfo
type_of_name name = or_default zero_type_info (find name egd_type_names)

-- A map that answers every name by `T`.
abbrev pub Answers : (Text → EgdTypeInfo) → EgdTypeNameMap → Type 0
Answers T names = (name : Text) → or_default zero_type_info (find name names) ≡ T name

index_type_names-Answers :
    (T : Text → EgdTypeInfo) (name : Text) (names : EgdTypeNameMap)
    → Answers T names
    → ((index_type_names name names).1 ≡ T name) × Answers T (index_type_names name names).0
unfolding index_type_names
index_type_names-Answers T name names h = (
  ground (arith, h name),
  λ other. ground (
    arith,
    h name,
    h other,
    find-insert name other zero_type_info names,
    text_eqb_iff name other,
  ),
)

-- The map in use answers every name as the first one does.
abbrev pub Agrees : EgdTypeNameMap → Type 0
Agrees = Answers type_of_name

pub egd_type_names-Agrees : Agrees egd_type_names
unfolding type_of_name
egd_type_names-Agrees name = refl

module _ (x : Xml) where
  open x use {Node, as_string, as_ullong, children}

  abbrev pub var_info : Node → EgdVarInfo
  var_info node = record {
    bit_offset = as_ullong node (codes "VOffs") % 2 ^ 32;
    data_type = type_of_name (as_string node (codes "DType"));
  }

  -- The variables of an exchange; a name that comes twice keeps its last description.
  unfoldable pub vars_of : List Node → EgdVarMap → EgdVarMap
  vars_of [] m = m
  vars_of (node ∷ nodes) m =
      vars_of nodes (assign (as_string node (codes "Name")) (var_info node) m)

  pub parse_vars-vars_of :
      (names : EgdTypeNameMap) (nodes : List Node) (m : EgdVarMap)
      → Agrees names
      → ((parse_vars x names nodes m).1 ≡ vars_of nodes m) × Agrees (parse_vars x names nodes m).0
  unfolding parse_vars vars_of
  parse_vars-vars_of names [] m h = (refl, h)
  parse_vars-vars_of names (node ∷ nodes) m h =
      let step = index_type_names-Answers type_of_name (as_string node (codes "DType")) names h in
      rw (← step.0) (
        parse_vars-vars_of (index_type_names (as_string node (codes "DType")) names).0 nodes
          (assign (as_string node (codes "Name"))
            (record {
              bit_offset = as_ullong node (codes "VOffs") % 2 ^ 32;
              data_type = (index_type_names (as_string node (codes "DType")) names).1;
            })
            m)
          step.1)

  -- The entry that an exchange stands for.
  abbrev pub entry_of : ℕ → ℕ → Text → Node → EgdPageMapEntry
  entry_of this id var_attribute node = record {
    page = exchange_page x this id node;
    var_map = vars_of (children node var_attribute) [];
  }

  -- The pages of a list of exchanges; the first exchange of a name keeps it.
  unfoldable pub pages_of : ℕ → ℕ → Text → List (Option Node) → EgdPageMap → EgdPageMap
  pages_of this id va [] pages = pages
  pages_of this id va (none ∷ rest) pages = pages_of this id va rest pages
  pages_of this id va (some node ∷ rest) pages =
      pages_of this id va rest (insert (page_key x node) (entry_of this id va node) pages)

  pub parse_exchanges-pages_of :
      (this id : ℕ) (va : Text) (names : EgdTypeNameMap) (es : List (Option Node))
      (pages : EgdPageMap)
      → Agrees names
      → ((parse_exchanges x this id va names es pages).1 ≡ pages_of this id va es pages)
        × Agrees (parse_exchanges x this id va names es pages).0
  unfolding parse_exchanges pages_of
  parse_exchanges-pages_of this id va names [] pages h = (refl, h)
  parse_exchanges-pages_of this id va names (none ∷ rest) pages h =
      parse_exchanges-pages_of this id va names rest pages h
  parse_exchanges-pages_of this id va names (some node ∷ rest) pages h =
      let step = parse_vars-vars_of names (children node va) [] h in
      rw (← step.0) (
        parse_exchanges-pages_of this id va (parse_vars x names (children node va) []).0 rest
          (insert (page_key x node)
            (record {
              page = exchange_page x this id node;
              var_map = (parse_vars x names (children node va) []).1;
            })
            pages)
          step.1)

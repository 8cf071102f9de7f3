-- ===== src/Config/Parse/Typing.antt =====
-- The types of parsed variables: the size of each belongs to its type, and a type name that the
-- table does not have reads as a Boolean of no bits.
use auroralink.Prelude.{
  ℕ, ◌≡◌, refl, sym, subst, ◌⊎◌, inl, inr, Text, codes, Option, none, some, List, [], ◌∷◌, All,
  arith, Bool-cases, Option-cases,
}
use auroralink.Prelude.Int.{ℤ, pos, negsuc}
use auroralink.Prelude.Eq.{text_eq, text_eqb}
use auroralink.Prelude.Assoc.{Map, find, insert, assign}
use auroralink.Config.Types.{
  EgdDataType, EgdTypeInfo, EgdVarMap, EgdTypeNameMap, EgdPageMap, EgdConfig, egd_type_names,
  zero_type_info,
}
use auroralink.Config.Libraries.{Xml}
use auroralink.Config.Parse.{index_type_names, page_key, parse_xml}
use auroralink.Config.Parse.Pages.{parse_xml_fold}
use auroralink.Config.Parse.Meaning.{type_of_name, Agrees, var_info, vars_of, entry_of, pages_of}

-- The size of a type in the table.
unfoldable pub bits_of : EgdDataType → ℤ
bits_of EgdDataType.undefined = negsuc 0
bits_of EgdDataType.bool = pos 1
bits_of EgdDataType.real = pos 32
bits_of EgdDataType.lreal = pos 64
bits_of EgdDataType.sint = pos 8
bits_of EgdDataType.int = pos 16
bits_of EgdDataType.dint = pos 32
bits_of EgdDataType.lint = pos 64
bits_of EgdDataType.usint = pos 8
bits_of EgdDataType.uint = pos 16
bits_of EgdDataType.udint = pos 32
bits_of EgdDataType.ulint = pos 64
bits_of EgdDataType.byte = pos 8
bits_of EgdDataType.word = pos 16
bits_of EgdDataType.dword = pos 32
bits_of EgdDataType.dt = pos 0
bits_of EgdDataType.time = pos 0
bits_of EgdDataType.string = pos 0

-- A row of the table, or the zeros that a name outside it gets.
abbrev pub IsTyped : EgdTypeInfo → Type 0
IsTyped t = (t.bits ≡ bits_of t.type) ⊎ (t ≡ zero_type_info)

abbrev pub VarsTyped : EgdVarMap → Type 0
VarsTyped = All λ entry. IsTyped entry.1.data_type

abbrev pub PagesTyped : EgdPageMap → Type 0
PagesTyped = All λ entry. VarsTyped entry.1.var_map

module _ {ℓ κ} {V : Type ℓ} (P : V → Type κ) where
  pub find-All :
      (k : Text) (m : Map Text V) (v : V) → All (λ entry. P entry.1) m → find k m ≡ some v → P v
  unfolding find
  find-All k [] v h e = cc
  find-All k ((j, w) ∷ m) v (hw, hm) e = elim (Bool-cases (text_eqb j k)) [
    | inl hit ↦ let same : w ≡ v = ground arith in subst P same hw
    | inr miss ↦ find-All k m v hm (rw miss at e)
  ]

  assign-All :
      (k : Text) (v : V) (m : Map Text V)
      → P v
      → All (λ entry. P entry.1) m
      → All (λ entry. P entry.1) (assign k v m)
  unfolding assign
  assign-All k v [] hv h = (hv, tt)
  assign-All k v ((j, w) ∷ m) hv (hw, hm) = elim (Bool-cases (text_eqb j k)) [
    | inl hit ↦ rw hit (hv, hm)
    | inr miss ↦ rw miss (hw, assign-All k v m hv hm)
  ]

  insert-All :
      (k : Text) (v : V) (m : Map Text V)
      → P v
      → All (λ entry. P entry.1) m
      → All (λ entry. P entry.1) (insert k v m)
  unfolding insert
  insert-All k v [] hv h = (hv, tt)
  insert-All k v ((j, w) ∷ m) hv (hw, hm) = elim (Bool-cases (text_eqb j k)) [
    | inl hit ↦ rw hit (hw, hm)
    | inr miss ↦ rw miss (hw, insert-All k v m hv hm)
  ]

table-IsTyped : All (λ entry. IsTyped entry.1) egd_type_names
unfolding bits_of
table-IsTyped = (
  inl refl,
  (
    inl refl,
    (
      inl refl,
      (
        inl refl,
        (
          inl refl,
          (
            inl refl,
            (
              inl refl,
              (
                inl refl,
                (
                  inl refl,
                  (
                    inl refl,
                    (
                      inl refl,
                      (
                        inl refl,
                        (inl refl, (inl refl, (inl refl, (inl refl, (inl refl, (inl refl, tt)))))),
                      ),
                    ),
                  ),
                ),
              ),
            ),
          ),
        ),
      ),
    ),
  ),
)

type_of_name-IsTyped : (name : Text) → IsTyped (type_of_name name)
unfolding type_of_name
type_of_name-IsTyped name = elim (Option-cases (find name egd_type_names)) [
  | inl e ↦ rw e (inr refl)
  | inr (t, e) ↦ rw e (find-All IsTyped name egd_type_names t table-IsTyped e)
]

module _ (x : Xml) where
  open x use {Node, as_string, children}

  vars_of-VarsTyped :
      (nodes : List Node) (m : EgdVarMap) → VarsTyped m → VarsTyped (vars_of x nodes m)
  unfolding vars_of
  vars_of-VarsTyped [] m h = h
  vars_of-VarsTyped (node ∷ nodes) m h = vars_of-VarsTyped nodes _ (
      assign-All (λ v. IsTyped v.data_type) (as_string node (codes "Name")) (var_info x node) m
        (type_of_name-IsTyped (as_string node (codes "DType"))) h)

  -- Every page that is read from exchanges has typed variables.
  pub pages_of-PagesTyped :
      (this id : ℕ) (va : Text) (es : List (Option Node)) (pages : EgdPageMap)
      → PagesTyped pages
      → PagesTyped (pages_of x this id va es pages)
  unfolding pages_of
  pages_of-PagesTyped this id va [] pages h = h
  pages_of-PagesTyped this id va (none ∷ rest) pages h = pages_of-PagesTyped this id va rest pages h
  pages_of-PagesTyped this id va (some node ∷ rest) pages h =
      pages_of-PagesTyped this id va rest _ (
        insert-All (λ e. VarsTyped e.var_map) (page_key x node) (entry_of x this id va node) pages
          (vars_of-VarsTyped (children node va) [] tt) h)

-- In a static map that answers as at the start, a type name that the table does not have reads as
-- a Boolean of no bits.
pub unknown_type_name :
    (name : Text) (names : EgdTypeNameMap)
    → Agrees names
    → find name egd_type_names ≡ none
    → (index_type_names name names).1 ≡ record { type = EgdDataType.bool; bits = pos 0 }
unfolding index_type_names type_of_name
unknown_type_name name names agrees missing = ground (arith, agrees name)

-- A document keeps every page's variables typed.
pub parse_xml-PagesTyped :
    (x : Xml) (names : EgdTypeNameMap) (c : EgdConfig) (xml : Text) (id : ℕ) (pxp exp va : Text)
    → Agrees names
    → PagesTyped c.page_map
    → PagesTyped (parse_xml x names c xml id pxp exp va).1.page_map
parse_xml-PagesTyped x names c xml id pxp exp va agrees h =
    let (es, fold) = parse_xml_fold x names c xml id pxp exp va agrees in
    subst PagesTyped (sym fold) (pages_of-PagesTyped x c.this id va es c.page_map h)

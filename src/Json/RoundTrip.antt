-- ===== src/Json/RoundTrip.antt =====
-- A JSON value through the loop of `Publish` in json_client.cpp: what its variable decodes to.
pub mod Members
pub mod Exchange
pub mod Delivery
use auroralink.Prelude.{
  ℕ, ◌≡◌, sym, subst, ◌∙◌, ◌≢◌, ◌⊎◌, inl, inr, Text, false, some, List, [], ◌∷◌, ◌++◌, All,
  Bool-cases, Option-cases, arith,
}
use auroralink.Prelude.Eq.{text_eq, text_eqb, text_eqb_iff}
use auroralink.Prelude.Assoc.{find}
use auroralink.Config.Types.{EgdVarInfo, EgdVarMap}
use auroralink.Config.Parse.Typing.{VarsTyped}
use auroralink.Json.Library.{JsonLibrary, JsonValue, GetFits}
use auroralink.Json.Layout.{Separate}
use auroralink.Json.Encode.{
  done, ◌>>=◌, is_out_of_bounds, is_skipped, encode_variable, encode_entry, encode_items,
}
use auroralink.Json.Encode.Inversion.{>>=-eq-done}
use auroralink.Json.Encode.Safety.{IsPayload, IsSafe, encode_entry-IsSafe}
use auroralink.Json.Decode.{decode_value}
use auroralink.Json.Decode.RoundTrip.{
  decode_value-Separate, decode_value-encode_value, Encodes, IsClear,
}

-- `name` stands for `i` alone, and no other variable shares a bit with it.
abbrev pub IsApart : Text → EgdVarInfo → EgdVarMap → Type 0
IsApart name i vars =
    All (λ (e : Text × EgdVarInfo). ((e.0 ≡ name) × (e.1 ≡ i)) ⊎ ((e.0 ≢ name) × Separate i e.1))
      vars

-- No item is for `name`.
abbrev pub IsAbsent {ℓ} : {J : Type ℓ} → Text → List (Text × J) → Type 0
IsAbsent {J = J} name items = All (λ (e : Text × J). e.0 ≢ name) items

other_variable :
    (name : Text) (i : EgdVarInfo) (vars : EgdVarMap) (k : Text) (n : EgdVarInfo)
    → IsApart name i vars
    → k ≢ name
    → find k vars ≡ some n
    → Separate i n
unfolding find
other_variable name i [] k n h ne e = cc
other_variable name i ((m, w) ∷ vars) k n (h, hs) ne e = elim (Bool-cases (text_eqb m k)) [
  | inl hit ↦ elim h [
    | inl (same, _) ↦ elim (ne (sym ((text_eqb_iff m k).0 hit) ∙ same)) [ ]
    | inr (_, apart) ↦
        let is_n : w ≡ n = ground arith in subst (λ (w : EgdVarInfo). Separate i w) is_n apart
  ]
  | inr miss ↦ other_variable name i vars k n hs ne (rw miss at e)
]

module _ (l : JsonLibrary) where
  -- An entry for another name leaves the variable.
  entry_elsewhere :
      (vars : EgdVarMap) (name : Text) (i : EgdVarInfo) (k : Text) (j : l.Json) (buf buf' : List ℕ)
      → IsApart name i vars
      → IsPayload buf
      → k ≢ name
      → encode_entry l vars buf k j ≡ done buf'
      → decode_value buf' i ≡ decode_value buf i
  unfolding encode_entry encode_variable
  entry_elsewhere vars name i k j buf buf' apart payload ne e = elim (Bool-cases (is_skipped l j)) [
    | inl skipped ↦ let same : buf' ≡ buf = cc in rw same
    | inr plain ↦ elim (Option-cases (find k vars)) [
      | inl missing ↦ let same : buf' ≡ buf = cc in rw same
      | inr (n, found) ↦ elim (Bool-cases (is_out_of_bounds n)) [
        | inl outside ↦ cc
        | inr inside ↦
            decode_value-Separate l i n buf j buf' payload.1
              (other_variable name i vars k n apart ne found) (rw (plain, found, inside) at e)
      ]
    ]
  ]

  entry_here :
      (vars : EgdVarMap) (name : Text) (i : EgdVarInfo) (j : l.Json) (value : JsonValue)
      (buf buf' : List ℕ)
      → GetFits l
      → IsPayload buf
      → IsClear buf i
      → find name vars ≡ some i
      → is_skipped l j ≡ false
      → Encodes l i j value
      → encode_entry l vars buf name j ≡ done buf'
      → decode_value buf' i ≡ done (some value)
  unfolding encode_entry encode_variable
  entry_here vars name i j value buf buf' fits payload clear found plain value_is e =
      elim (Bool-cases (is_out_of_bounds i)) [
        | inl outside ↦ cc
        | inr inside ↦
            decode_value-encode_value l i buf j value buf' fits payload.1 clear value_is
              (rw (plain, found, inside) at e)
      ]

  entry-IsPayload :
      (vars : EgdVarMap) (k : Text) (j : l.Json) (buf buf' : List ℕ)
      → VarsTyped vars
      → IsPayload buf
      → encode_entry l vars buf k j ≡ done buf'
      → IsPayload buf'
  entry-IsPayload vars k j buf buf' typed payload e =
      subst IsSafe e (encode_entry-IsSafe l vars buf k j typed payload)

  items_elsewhere :
      (vars : EgdVarMap) (name : Text) (i : EgdVarInfo) (items : List (Text × l.Json))
      (buf buf' : List ℕ)
      → VarsTyped vars
      → IsApart name i vars
      → IsPayload buf
      → IsAbsent name items
      → encode_items l vars items buf ≡ done buf'
      → decode_value buf' i ≡ decode_value buf i
  unfolding encode_items
  items_elsewhere vars name i [] buf buf' typed apart payload absent e =
      let same : buf' ≡ buf = cc in rw same
  items_elsewhere vars name i ((k, j) ∷ rest) buf buf' typed apart payload (ne, absent) e =
      let (mid, first, rest_done) =
        >>=-eq-done (encode_entry l vars buf k j) (encode_items l vars rest) buf' e in
      items_elsewhere vars name i rest mid buf' typed apart
        (entry-IsPayload vars k j buf mid typed payload first) absent rest_done
      ∙ entry_elsewhere vars name i k j buf mid apart payload ne first

  -- The loop of `Publish`, for an item that names a variable.
  pub encode_items-decode_value :
      (vars : EgdVarMap) (name : Text) (i : EgdVarInfo) (j : l.Json) (value : JsonValue)
      (before after : List (Text × l.Json)) (buf buf' : List ℕ)
      → GetFits l
      → VarsTyped vars
      → IsApart name i vars
      → IsPayload buf
      → IsClear buf i
      → find name vars ≡ some i
      → IsAbsent name before
      → IsAbsent name after
      → is_skipped l j ≡ false
      → Encodes l i j value
      → encode_items l vars (before ++ (name, j) ∷ after) buf ≡ done buf'
      → decode_value buf' i ≡ done (some value)
  unfolding encode_items
  encode_items-decode_value vars name i j value [] after buf buf' fits typed apart payload clear
        found _ absent plain value_is e =
      let (mid, first, rest_done) =
        >>=-eq-done (encode_entry l vars buf name j) (encode_items l vars after) buf' e in
      items_elsewhere vars name i after mid buf' typed apart
        (entry-IsPayload vars name j buf mid typed payload first) absent rest_done
      ∙ entry_here vars name i j value buf mid fits payload clear found plain value_is first
  encode_items-decode_value vars name i j value ((k, o) ∷ before) after buf buf' fits typed apart
        payload clear found (ne, absent_before) absent plain value_is e =
      let (mid, first, rest_done) =
        >>=-eq-done (encode_entry l vars buf k o)
          (encode_items l vars (before ++ (name, j) ∷ after)) buf' e in
      encode_items-decode_value vars name i j value before after mid buf' fits typed apart
        (entry-IsPayload vars k o buf mid typed payload first)
        (λ is_bool. entry_elsewhere vars name i k o buf mid apart payload ne first ∙ clear is_bool)
        found absent_before absent plain value_is rest_done

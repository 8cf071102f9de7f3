-- ===== src/Json/RoundTrip/Exchange.antt =====
-- A JSON value from `Publish` to `JsonProxyCallback`: through both loops of json_client.cpp.
use auroralink.Prelude.{
  ℕ, ◌≡◌, ◌∙◌, ap, inl, inr, Text, false, Option, none, some, List, [], ◌∷◌, ◌++◌, Bool-cases,
  replicate, ltb,
}
use auroralink.Prelude.Table.{same}
use auroralink.Prelude.Eq.{text_eq}
use auroralink.Prelude.Assoc.{find}
use auroralink.Spec.{max_egd_payload}
use auroralink.Config.Types.{EgdVarInfo, EgdVarMap, EgdPageInfo}
use auroralink.Config.Parse.Typing.{VarsTyped}
use auroralink.Client.Poll.{Invocation}
use auroralink.Json.Library.{JsonLibrary, JsonValue, GetFits, message_of}
use auroralink.Json.Encode.{
  Result, done, ◌>>=◌, is_out_of_bounds, is_skipped, encode_variable, encode_entry, encode_items,
}
use auroralink.Json.Encode.Inversion.{>>=-eq-done}
use auroralink.Json.Encode.Safety.{zeros-IsPayload}
use auroralink.Json.Decode.{decode_vars}
use auroralink.Json.Decode.RoundTrip.{Encodes}
use auroralink.Json.Messages.{
  JsonUserData, JsonInvocation, payload_of, json_proxy_callback, or_thrown,
}
use auroralink.Json.RoundTrip.{IsApart, IsAbsent, encode_items-decode_value}
use auroralink.Json.RoundTrip.Members.{zeros-IsClear, members_keep}

entry_inside :
    (l : JsonLibrary) (vars : EgdVarMap) (name : Text) (i : EgdVarInfo) (j : l.Json)
    (buf buf' : List ℕ)
    → find name vars ≡ some i
    → is_skipped l j ≡ false
    → encode_entry l vars buf name j ≡ done buf'
    → is_out_of_bounds i ≡ false
unfolding encode_entry encode_variable
entry_inside l vars name i j buf buf' found plain e = elim (Bool-cases (is_out_of_bounds i)) [
  | inl outside ↦ cc
  | inr inside ↦ inside
]

items_inside :
    (l : JsonLibrary) (vars : EgdVarMap) (name : Text) (i : EgdVarInfo) (j : l.Json)
    (before after : List (Text × l.Json)) (buf buf' : List ℕ)
    → find name vars ≡ some i
    → is_skipped l j ≡ false
    → encode_items l vars (before ++ (name, j) ∷ after) buf ≡ done buf'
    → is_out_of_bounds i ≡ false
unfolding encode_items
items_inside l vars name i j [] after buf buf' found plain e =
    let (mid, first, _) =
      >>=-eq-done (encode_entry l vars buf name j) (encode_items l vars after) buf' e in
    entry_inside l vars name i j buf mid found plain first
items_inside l vars name i j ((k, o) ∷ before) after buf buf' found plain e =
    let (mid, _, rest_done) =
      >>=-eq-done (encode_entry l vars buf k o) (encode_items l vars (before ++ (name, j) ∷ after))
        buf' e in
    items_inside l vars name i j before after mid buf' found plain rest_done

pub payload_of_object :
    (l : JsonLibrary) (o : l.Json) (page : EgdPageInfo) (payload : List ℕ)
    → payload_of l (some o) page ≡ done payload
    → encode_items l page.var_map (l.items o) (replicate max_egd_payload 0) ≡ done payload
unfolding payload_of
payload_of_object l o page payload e = elim (Bool-cases (l.is_object o)) [
  | inl object ↦ rw object at e
  | inr other ↦ let wrong = rw other at e in cc
]

callback_members :
    (l : JsonLibrary) (user : JsonUserData) (received : Invocation) (call : JsonInvocation)
    → json_proxy_callback l user received ≡ done (some call)
    → (members : List (Text × JsonValue)) × (decode_vars received.payload received.page_info.var_map
          []
        ≡ done members)
      × (l.dump (message_of members) ≡ some call.message)
unfolding json_proxy_callback
callback_members l user received call e =
    elim (Bool-cases (ltb received.data_len received.page_info.data_length)) [
      | inl short ↦ let wrong = rw short at e in cc
      | inr long ↦
          let (members, decoded, built) =
            >>=-eq-done (decode_vars received.payload received.page_info.var_map [])
              (λ members.
                or_thrown (l.dump (message_of members)) >>= λ text. done (some (invocation text)))
              (some call) (rw long at e) in
          let (text, dumped, made) =
            >>=-eq-done (or_thrown (l.dump (message_of members)))
              (λ text. done (some (invocation text))) (some call) built in
          (
            members,
            decoded,
            dump_is (l.dump (message_of members)) text dumped ∙ ap some (ap text_of made),
          )
    ]
  where
    text_of : Result (Option JsonInvocation) → Text
    text_of (done (some c)) = c.message
    text_of r = []

    dump_is : (o : Option Text) (text : Text) → or_thrown o ≡ done text → o ≡ some text
    dump_is none text e = cc
    dump_is (some t) text e = cc

    invocation : Text → JsonInvocation
    invocation text = record {
      callback = user.callback;
      page_info = received.page_info;
      header = received.header;
      status = received.status;
      message = text;
      user_data = user.user_data;
    }

-- A plain member of the object that `Publish` encodes, among the members that the callback's loop
-- makes of the payload.
pub decoded_value :
    (l : JsonLibrary) (o : l.Json) (page : EgdPageInfo) (payload : List ℕ) (name : Text)
    (i : EgdVarInfo) (j : l.Json) (value : JsonValue) (before after : List (Text × l.Json))
    (members : List (Text × JsonValue))
    → GetFits l
    → VarsTyped page.var_map
    → IsApart name i page.var_map
    → find name page.var_map ≡ some i
    → l.items o ≡ before ++ (name, j) ∷ after
    → IsAbsent name before
    → IsAbsent name after
    → is_skipped l j ≡ false
    → Encodes l i j value
    → payload_of l (some o) page ≡ done payload
    → decode_vars payload page.var_map [] ≡ done members
    → find name members ≡ some value
decoded_value l o page payload name i j value before after members fits typed apart found items
      absent_before absent plain value_is published decoded =
    let encoded = (rw items at (payload_of_object l o page payload published)) in
    let inside =
      items_inside l page.var_map name i j before after (replicate max_egd_payload 0) payload found
        plain encoded in
    members_keep name i value payload page.var_map [] members apart
      (encode_items-decode_value l page.var_map name i j value before after
        (replicate max_egd_payload 0) payload fits typed apart zeros-IsPayload
        (zeros-IsClear i inside) found absent_before absent plain value_is encoded)
      (inl found) decoded

-- Where `Publish` builds a payload from an object with one member `name`, a plain one, and
-- `JsonProxyCallback` passes on a message for that payload under the same variables, the message
-- is the text of an object whose member `name` is the value that `get` gave: for a `get` whose
-- numbers fit the types that it is asked for, a variable `name`
-- of the page that shares no bit with another one, and variables whose sizes belong to their types.
pub received_value :
    (l : JsonLibrary) (user : JsonUserData) (o : l.Json) (page : EgdPageInfo)
    (received : Invocation) (call : JsonInvocation) (name : Text) (i : EgdVarInfo) (j : l.Json)
    (value : JsonValue) (before after : List (Text × l.Json))
    → GetFits l
    → VarsTyped page.var_map
    → IsApart name i page.var_map
    → find name page.var_map ≡ some i
    → l.items o ≡ before ++ (name, j) ∷ after
    → IsAbsent name before
    → IsAbsent name after
    → is_skipped l j ≡ false
    → Encodes l i j value
    → payload_of l (some o) page ≡ done received.payload
    → received.page_info.var_map ≡ page.var_map
    → json_proxy_callback l user received ≡ done (some call)
    → (members : List (Text × JsonValue)) × (l.dump (message_of members) ≡ some call.message)
      × (find name members ≡ some value)
received_value l user o page received call name i j value before after fits typed apart found items
      absent_before absent plain value_is published same called =
    let (members, decoded, message) = callback_members l user received call called in
    (
      members,
      message,
      decoded_value l o page received.payload name i j value before after members fits typed apart
          found items absent_before absent plain value_is published (rw same at decoded),
    )

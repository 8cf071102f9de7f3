-- ===== src/Json/Messages/Callback.antt =====
-- `JsonProxyCallback` on a payload that holds all the variables of its page.
use auroralink.Prelude.{
  ℕ, ◌+◌, ◌≤◌, ◌≡◌, refl, inl, inr, Text, Option, none, some, List, [], ◌∷◌, length, All, ltb,
  le→leb, ltb→lt, Bool-cases, Option-cases, ◌⊎◌, ◌<◌, arith,
}
use auroralink.Bytes.{load, word_at}
use auroralink.Config.Types.{EgdDataType, EgdVarInfo, EgdVarMap}
use auroralink.Client.Poll.{Invocation}
use auroralink.Json.Library.{JsonLibrary, JsonValue, message_of, boolean, number, CppType, size_of}
use auroralink.Json.Layout.{width, width_of}
use auroralink.Json.Encode.{done, thrown, cpp_type, byte_offset, bit_in_byte}
use auroralink.Json.Decode.{
  bit_at, load_bit, decode_number, decode_as, decode_value, decode_vars, set_member,
}
use auroralink.Json.Messages.{JsonUserData, JsonInvocation, json_proxy_callback}

-- Each variable lies in the first `n` bytes.
abbrev pub IsInside : ℕ → EgdVarMap → Type 0
IsInside n vars =
    All (λ (e : Text × EgdVarInfo). byte_offset e.1 + width e.1.data_type.type ≤ n) vars

decode_number-done :
    (payload : List ℕ) (off : ℕ) (t : Option CppType)
    → off + width_of t ≤ length payload
    → (v : Option JsonValue) × (decode_number payload off t ≡ done v)
unfolding decode_number load
decode_number-done payload off none fits = (none, refl)
decode_number-done payload off (some t) fits = (
  some (number t (word_at payload off (size_of t))),
  rw (le→leb (off + size_of t) (length payload) fits) refl,
)

decode_as-done :
    (type : EgdDataType) (payload : List ℕ) (off k : ℕ)
    → off + width type ≤ length payload
    → (v : Option JsonValue) × (decode_as type payload off k ≡ done v)
unfolding decode_as width load_bit load
decode_as-done EgdDataType.bool payload off k fits = (
  some (boolean (bit_at (word_at payload off 1) k)),
  rw (le→leb (off + 1) (length payload) fits) refl,
)
decode_as-done type payload off k fits = decode_number-done payload off (cpp_type type) fits

decode_vars-done :
    (payload : List ℕ) (vars : EgdVarMap) (members : List (Text × JsonValue))
    → IsInside (length payload) vars
    → (result : List (Text × JsonValue)) × (decode_vars payload vars members ≡ done result)
unfolding decode_vars decode_value
decode_vars-done payload [] members inside = (members, refl)
decode_vars-done payload ((name, info) ∷ vars) members (fits, inside) =
    let (v, read) =
      decode_as-done info.data_type.type payload (byte_offset info) (bit_in_byte info) fits in
    let (result, rest) = decode_vars-done payload vars (set_member name v members) inside in
    (result, rw read rest)

-- The call of the user's callback.
abbrev pub passed_on : JsonUserData → Invocation → Text → JsonInvocation
passed_on user i message = record {
  callback = user.callback;
  page_info = i.page_info;
  header = i.header;
  status = i.status;
  message = message;
  user_data = user.user_data;
}

-- For a call with a payload that holds all the variables of its page: a length below the page's
-- passes nothing on; with any other, every variable is read inside the payload. Where `dump` has a
-- text for the object that they make, or for `null` where there are none, the user's callback gets
-- it; where `dump` throws, the exception leaves the callback.
pub callback_outcome :
    (l : JsonLibrary) (user : JsonUserData) (i : Invocation)
    → IsInside (length i.payload) i.page_info.var_map
    → ((i.data_len < i.page_info.data_length) × (json_proxy_callback l user i ≡ done none))
      ⊎ ((i.page_info.data_length ≤ i.data_len)
          × ((members : List (Text × JsonValue)) × (decode_vars i.payload i.page_info.var_map []
                ≡ done members)
              × (((text : Text) × (l.dump (message_of members) ≡ some text)
                    × (json_proxy_callback l user i ≡ done (some (passed_on user i text))))
                  ⊎ ((l.dump (message_of members) ≡ none)
                      × (json_proxy_callback l user i ≡ thrown)))))
unfolding json_proxy_callback
callback_outcome l user i inside =
    let (members, read) = decode_vars-done i.payload i.page_info.var_map [] inside in
    elim (Bool-cases (ltb i.data_len i.page_info.data_length)) [
      | inl short ↦ rw short (inl (ltb→lt i.data_len i.page_info.data_length short, refl))
      | inr long ↦ rw long (
          inr (
            ground arith,
            (
              members,
              read,
              rw read (elim (Option-cases (l.dump (message_of members))) [
                | inl throws ↦ rw throws (inr (refl, refl))
                | inr (text, dumped) ↦ rw dumped (inl (text, refl, refl))
              ]),
            ),
          ))
    ]

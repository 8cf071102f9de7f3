-- ===== src/Json/RoundTrip/Delivery.antt =====
-- A JSON value from one `JsonClient` to another: through `Publish`, the datagram, the receiving
-- loop and `JsonProxyCallback`.
use auroralink.Prelude.{
  ℕ, ◌≡◌, ◌≤◌, refl, ap, sym, subst, ◌∙◌, inl, inr, ◌⊎◌, none, Text, false, some, List, [], ◌∷◌,
  ◌++◌, length, replicate, length-replicate, arith,
}
use auroralink.Prelude.Eq.{nat_eq, text_eq, pair_eq}
use auroralink.Prelude.Assoc.{find}
use auroralink.Status.{ok}
use auroralink.Bytes.Buffer.{write_at_all}
use auroralink.Spec.{DataTime, message_bytes, message_size, max_egd_payload}
use auroralink.Config.Types.{EgdVarInfo, EgdPageInfo}
use auroralink.Config.Parse.Typing.{VarsTyped}
use auroralink.Client.Types.{EgdPubInfo, EgdSubCallbackInfo, Resolver, Replies, send_to}
use auroralink.Client.Publish.{make_message, publish}
use auroralink.Client.Publish.Datagram.{IsPage}
use auroralink.Client.Publish.Requests.{key_of}
use auroralink.Client.Poll.{ConfigService, Invocation, receive}
use auroralink.Client.Poll.Receive.{publish_received, call_of}
use auroralink.Json.Library.{JsonLibrary, JsonValue, GetFits, message_of}
use auroralink.Json.Encode.{done, thrown, is_skipped}
use auroralink.Json.Decode.{decode_vars}
use auroralink.Json.Encode.Safety.{IsSafe, encode_items-IsSafe, zeros-IsPayload}
use auroralink.Json.Decode.RoundTrip.{Encodes}
use auroralink.Json.Messages.{
  JsonUserData, JsonClient, JsonInvocation, payload_of, publish_payload, publish_json,
  json_proxy_callback,
}
use auroralink.Json.Messages.Callback.{IsInside, passed_on, callback_outcome}
use auroralink.Json.RoundTrip.{IsApart, IsAbsent}
use auroralink.Json.RoundTrip.Exchange.{payload_of_object, decoded_value}

-- An object with one member for a variable, a plain one, of whose value the type can be read; the
-- variable shares no bit with another one of the page.
pub record IsMember (l : JsonLibrary) (o : l.Json) (page : EgdPageInfo) (name : Text)
    (value : JsonValue) : Type 0 where
  pub variable : EgdVarInfo
  pub member : l.Json
  pub before : List (Text × l.Json)
  pub after : List (Text × l.Json)
  pub found : find name page.var_map ≡ some variable
  pub apart : IsApart name variable page.var_map
  pub items_are : l.items o ≡ before ++ (name, member) ∷ after
  pub absent_before : IsAbsent name before
  pub absent_after : IsAbsent name after
  pub plain : is_skipped l member ≡ false
  pub encodes : Encodes l variable member value

payload_length :
    (l : JsonLibrary) (o : l.Json) (page : EgdPageInfo) (payload : List ℕ)
    → VarsTyped page.var_map
    → payload_of l (some o) page ≡ done payload
    → length payload ≡ max_egd_payload
payload_length l o page payload typed e =
    (subst IsSafe (payload_of_object l o page payload e) (
      encode_items-IsSafe l page.var_map (l.items o) (replicate max_egd_payload 0) typed
        zeros-IsPayload)).0

make_message-whole :
    (page : EgdPageInfo) (r : ℕ) (now : DataTime) (bytes : List ℕ)
    → length bytes ≡ max_egd_payload
    → (make_message page r now bytes).payload ≡ bytes
unfolding make_message
make_message-whole page r now bytes h =
    write_at_all (replicate max_egd_payload 0) bytes
      (h ∙ sym (length-replicate {A = ℕ} max_egd_payload 0))

publish_json-calls :
    (l : JsonLibrary) (r : Resolver) (s : Replies) (c : JsonClient) (h : Text) (p : ℕ)
    (page : EgdPageInfo) (text : Text) (o : l.Json) (payload : List ℕ)
    → l.parse text ≡ some o
    → payload_of l (some o) page ≡ done payload
    → (publish_json l r s c h p page text).2 ≡ (publish r s c.base h p page payload).2
unfolding publish_json publish_payload
publish_json-calls l r s c h p page text o payload parsed e = rw parsed (rw e refl)

module _ (service : ConfigService) (c_string : Text → Text) (l : JsonLibrary) where
  open service use {Configs}

  -- For a publisher that has connected, a text that is an object of which the page takes every
  -- member, with one plain member for a variable that shares no bit with another one, a page whose
  -- fields fit the header and whose variables have the sizes of their types and lie in the payload,
  -- and a subscriber of that page: publishing the text makes one call, which sends one datagram; a
  -- receiver with that subscriber alone calls it once, with the status `ok`; and
  -- `JsonProxyCallback` makes of it an object whose member for the variable is the value that was
  -- published, and passes its text on to the user's callback with the status `ok`, or throws if
  -- `dump` throws on that object.
  pub json_delivered :
      (user : JsonUserData) (r : Resolver) (s : Replies) (c : JsonClient) (h : Text) (p : ℕ)
      (page : EgdPageInfo) (text : Text) (o : l.Json) (payload : List ℕ) (info : EgdPubInfo)
      (cs : Configs) (stack : List ℕ) (cb : EgdSubCallbackInfo) (name : Text) (value : JsonValue)
      → GetFits l
      → VarsTyped page.var_map
      → IsInside max_egd_payload page.var_map
      → page.data_length ≤ max_egd_payload
      → IsPage page
      → IsMember l o page name value
      → l.parse text ≡ some o
      → payload_of l (some o) page ≡ done payload
      → find (key_of r h p page) c.base.publisher_map ≡ some info
      → length stack ≡ message_size
      → cb.page_info ≡ page
      → (datagram : List ℕ) × (call : Invocation) × (members : List (Text × JsonValue))
        × ((publish_json l r s c h p page text).2 ≡ send_to info.socket datagram info.addr ∷ [])
        × (receive service c_string cs stack datagram (cb ∷ []) ≡ (cs, cb ∷ [], call ∷ []))
        × (call.status ≡ ok)
        × (find name members ≡ some value)
        × (((passed : JsonInvocation) × (json_proxy_callback l user call ≡ done (some passed))
              × (passed.callback ≡ user.callback)
              × (passed.user_data ≡ user.user_data)
              × (passed.status ≡ ok)
              × (l.dump (message_of members) ≡ some passed.message))
            ⊎ ((l.dump (message_of members) ≡ none) × (json_proxy_callback l user call ≡ thrown)))
  json_delivered user r s c h p page text o payload info cs stack cb name value fits typed inside
        short is_page m parsed built known memory same =
      let size = payload_length l o page payload typed built in
      let message = make_message page info.request_id s.now payload in
      let (sends, receives) =
        publish_received service c_string r s c.base h p page payload info cs stack cb is_page
          (omega (arith, size)) known memory (ap (λ (g : EgdPageInfo). g.producer_id) same)
          (ap (λ (g : EgdPageInfo). g.exchange_id) same)
          (ap (λ (g : EgdPageInfo). g.signature) same) in
      let call = call_of service c_string message max_egd_payload cb in
      let whole = make_message-whole page info.request_id s.now payload size in
      let in_payload : IsInside (length message.payload) cb.page_info.var_map =
        subst (λ (g : EgdPageInfo). IsInside (length message.payload) g.var_map) (sym same)
          (subst (λ n. IsInside n page.var_map) (sym (ap length whole ∙ size)) inside) in
      elim (callback_outcome l user call in_payload) [
        | inl (too_short, _) ↦
            absurd (omega (arith, too_short, ap (λ (g : EgdPageInfo). g.data_length) same))
        | inr (_, (members, read, outcome)) ↦ (
          message_bytes message,
          call,
          members,
          publish_json-calls l r s c h p page text o payload parsed built ∙ sends,
          receives,
          refl,
          decoded_value l o page call.payload name m.variable m.member value m.before m.after
              members fits typed m.apart m.found m.items_are m.absent_before m.absent_after m.plain
              m.encodes (built ∙ ap done (sym whole))
              (subst (λ (g : EgdPageInfo). decode_vars call.payload g.var_map [] ≡ done members)
                same read),
          elim outcome [
            | inl (message, dumped, passes) ↦
                inl (passed_on user call message, passes, refl, refl, refl, dumped)
            | inr throws ↦ inr throws
          ],
        )
      ]

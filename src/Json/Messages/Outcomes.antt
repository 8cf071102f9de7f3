-- ===== src/Json/Messages/Outcomes.antt =====
-- How `JsonClient::Publish` ends.
use auroralink.Prelude.{
  ℕ, ◌+◌, ◌≡◌, ◌≢◌, inl, inr, Text, false, Option, none, some, List, replicate, arith, Bool-cases,
}
use auroralink.Prelude.Eq.{text_eq}
use auroralink.Prelude.Assoc.{find}
use auroralink.Status.{err_out_of_bounds}
use auroralink.Spec.{max_egd_payload}
use auroralink.Config.Types.{EgdVarInfo, EgdVarMap, EgdPageInfo}
use auroralink.Config.Parse.Typing.{VarsTyped}
use auroralink.Client.Types.{Resolver, Replies}
use auroralink.Json.Library.{JsonLibrary}
use auroralink.Json.Encode.{
  Result, done, returned, thrown, fault, bytes_of_bits, byte_offset, is_out_of_bounds, is_skipped,
  encode_entry, encode_variable,
}
use auroralink.Json.Encode.Safety.{IsSafe, encode_items-IsSafe, zeros-IsPayload}
use auroralink.Json.Messages.{JsonClient, payload_of, publish_payload, publish_json}

payload_of-IsSafe :
    (l : JsonLibrary) (o : Option l.Json) (page : EgdPageInfo)
    → VarsTyped page.var_map
    → IsSafe (payload_of l o page)
unfolding payload_of
payload_of-IsSafe l none page typed = tt
payload_of-IsSafe l (some j) page typed = elim (Bool-cases (l.is_object j)) [
  | inl object ↦ rw object (
      encode_items-IsSafe l page.var_map (l.items j) (replicate max_egd_payload 0) typed
        zeros-IsPayload)
  | inr other ↦ rw other tt
]

safe_result :
    (l : JsonLibrary) (r : Resolver) (s : Replies) (c : JsonClient) (h : Text) (p : ℕ)
    (page : EgdPageInfo) (built : Result (List ℕ))
    → IsSafe built
    → (publish_payload l r s c h p page built).1 ≢ fault
unfolding publish_payload
safe_result l r s c h p page (done payload) safe e = cc
safe_result l r s c h p page (returned status) safe e = cc
safe_result l r s c h p page thrown safe e = cc
safe_result l r s c h p page fault safe e = safe

-- For a page whose variables have the sizes of their types, publishing any text as JSON makes no
-- access outside the payload: it returns a status or throws an exception of the JSON library.
pub publish_json-IsSafe :
    (l : JsonLibrary) (r : Resolver) (s : Replies) (c : JsonClient) (h : Text) (p : ℕ)
    (page : EgdPageInfo) (message : Text)
    → VarsTyped page.var_map
    → (publish_json l r s c h p page message).1 ≢ fault
unfolding publish_json
publish_json-IsSafe l r s c h p page message typed =
    safe_result l r s c h p page (payload_of l (l.parse message) page)
      (payload_of-IsSafe l (l.parse message) page typed)

-- A plain member for a variable whose bytes end exactly where the payload ends is refused.
pub last_bytes_refused :
    (l : JsonLibrary) (vars : EgdVarMap) (buf : List ℕ) (name : Text) (j : l.Json)
    (info : EgdVarInfo)
    → find name vars ≡ some info
    → is_skipped l j ≡ false
    → byte_offset info + bytes_of_bits info.data_type.bits ≡ max_egd_payload
    → encode_entry l vars buf name j ≡ returned err_out_of_bounds
unfolding encode_entry encode_variable is_out_of_bounds
last_bytes_refused l vars buf name j info found plain at_end = rw (plain, found) (ground arith)

-- ===== src/Examples/Agree.antt =====
-- The C examples against the C++ examples.
use auroralink.Prelude.{
  ℕ, suc, ◌≡◌, refl, ap, sym, ◌∙◌, codes, if◌then◌else◌, Option, inl, inr, some, List, [], ◌∷◌,
  Bool-cases,
}
use auroralink.Prelude.Eq.{nat_eq}
use auroralink.Prelude.Assoc.{assign, find-assigned}
use auroralink.Status.{is_ok}
use auroralink.Spec.{DataTime}
use auroralink.Config.Types.{EgdVarInfo, EgdPageInfo, EgdConfig, new_config}
use auroralink.Config.Libraries.{Xml, Transfer, UrlLibrary}
use auroralink.Config.Query.{get_page_info, egd_config_get_page_info, egd_config_get_var_info}
use auroralink.Config.Read.{producer_config, read}
use auroralink.Client.Types.{EgdClient, EgdSubCallbackInfo, Resolver, Replies, SystemCall}
use auroralink.Client.Publish.{publish, egd_client_publish}
use auroralink.Client.Configs.{Objects, read_object, read_handle, egd_config_read}
use auroralink.Client.Subscribe.{subscribe, egd_client_init, egd_client_subscribe}
use auroralink.Client.Handles.{new_object, egd_producer_config_init, state_at}
use auroralink.Json.Library.{JsonLibrary}
use auroralink.Json.Encode.{Result, done, returned, thrown, fault, ◌>>=◌}
use auroralink.Json.Messages.{
  JsonClient, publish_json, subscribe_json, egd_json_client_init, egd_json_client_publish,
  egd_json_client_subscribe,
}
use auroralink.Examples.{
  fill_data, Start, failed, ready, my_page, my_message, local_host, page_of, open_page,
  find_variable, raw_bytes_publish, json_publish, raw_bytes_subscribe, json_subscribe,
}
use auroralink.Examples.Mains.{
  and_then, raw_bytes_publish_main, json_publish_main, raw_bytes_subscribe_main,
  json_subscribe_main,
}
use auroralink.Examples.Interface.{
  get_page, open_page_c, find_variable_c, raw_bytes_publish_c, json_publish_c,
  raw_bytes_publish_main_c, json_publish_main_c, raw_bytes_subscribe_main_c, json_subscribe_main_c,
}

raw_bytes_publish_c-some :
    (r : Resolver) (replies : List Replies) (c : EgdClient) (page : EgdPageInfo) (bytes : List ℕ)
    → raw_bytes_publish_c r replies (some c) page bytes ≡ raw_bytes_publish r replies c page bytes
unfolding raw_bytes_publish_c raw_bytes_publish egd_client_publish
raw_bytes_publish_c-some r [] c page bytes = refl
raw_bytes_publish_c-some r (s ∷ ss) c page bytes =
    let (c', status, calls) = publish r s c local_host 18246 page bytes in
    ap (◌∷◌ (status, calls)) (raw_bytes_publish_c-some r ss c' page bytes)

json_publish_c-some :
    (l : JsonLibrary) (r : Resolver) (replies : List Replies) (c : JsonClient) (page : EgdPageInfo)
    → json_publish_c l r replies (some c) page ≡ json_publish l r replies c page
unfolding json_publish_c json_publish egd_json_client_publish
json_publish_c-some l r [] c page = refl
json_publish_c-some l r (s ∷ ss) c page =
    let (c', result, calls) = publish_json l r s c local_host 18246 page my_message in
    ap (◌∷◌ (result, calls)) (json_publish_c-some l r ss c' page)

and_then-cong :
    {A B : Type 0} (m : Start A) (f g : A → Start B)
    → ((a : A) → f a ≡ g a)
    → and_then m f ≡ and_then m g
and_then-cong (failed status calls) f g h = refl
and_then-cong (ready a) f g h = h a

and_then_assoc :
    {A B C : Type 0} (m : Start A) (f : A → Start B) (g : B → Start C)
    → and_then (and_then m f) g ≡ and_then m (λ a. and_then (f a) g)
and_then_assoc (failed status calls) f g = refl
and_then_assoc (ready a) f g = refl

>>=-cong :
    {A B : Type 0} (m : Result A) (f g : A → Result B) → ((a : A) → f a ≡ g a) → m >>= f ≡ m >>= g
>>=-cong (done a) f g h = h a
>>=-cong (returned status) f g h = refl
>>=-cong thrown f g h = refl
>>=-cong fault f g h = refl

-- The last part of the subscribing mains.
raw_bytes_subscribe_c-some :
    (r : Resolver) (s : Replies) (page : EgdPageInfo) (callback config : ℕ)
    → let cb : EgdSubCallbackInfo = record {
      callback = callback;
      page_info = page;
      user_data = config;
    } in
      let (c, status, calls) =
        egd_client_subscribe r s (some egd_client_init) (codes "0.0.0.0") 18246 cb in
      let ends : Start (Option EgdClient × List SystemCall) =
        if is_ok status then ready (c, calls) else failed status calls in
      ends
      ≡ and_then
          (raw_bytes_subscribe r s page callback config)
          (λ (c, calls). ready (some c, calls))
unfolding raw_bytes_subscribe egd_client_subscribe
raw_bytes_subscribe_c-some r s page callback config =
    let cb : EgdSubCallbackInfo = record {
      callback = callback;
      page_info = page;
      user_data = config;
    } in
    elim (Bool-cases (is_ok (subscribe r s egd_client_init (codes "0.0.0.0") 18246 cb).1)) [
      | inl good ↦ rw good refl
      | inr bad ↦ rw bad refl
    ]

json_subscribe_c-some :
    (r : Resolver) (s : Replies) (proxy : ℕ) (page : EgdPageInfo) (callback config : ℕ)
    → let (c, status, calls) =
        egd_json_client_subscribe proxy r s
          (some egd_json_client_init)
          (codes "0.0.0.0")
          18246
          page
          callback
          config in
      let ends : Start (Option JsonClient × List SystemCall) =
        if is_ok status then ready (c, calls) else failed status calls in
      ends
      ≡ and_then
          (json_subscribe r s proxy page callback config)
          (λ (c, calls). ready (some c, calls))
unfolding json_subscribe egd_json_client_subscribe
json_subscribe_c-some r s proxy page callback config =
    elim (Bool-cases (
      is_ok
        (subscribe_json proxy r s egd_json_client_init (codes "0.0.0.0") 18246 page callback
          config).1)) [ inl good ↦ rw good refl | inr bad ↦ rw bad refl ]

module _ (x : Xml) (u : UrlLibrary) (server : ℕ → Transfer) (handle : ℕ) (held : DataTime)
    (o : Objects) where
  abbrev made : Objects
  made = egd_producer_config_init o handle held local_host 7938

  abbrev config : EgdConfig
  config = new_config handle held local_host 7938

  -- The objects after the read, with the state that the object then has.
  abbrev after_read : EgdConfig → Objects
  after_read c = record {
    objects = assign handle (record { kind = producer_config; state = c }) made.objects;
    names = (read x u producer_config (server o.requests) o.names config 123456).0;
    requests = suc o.requests;
  }

  state_at-after_read : (c : EgdConfig) → state_at (after_read c) handle ≡ some c
  unfolding state_at
  state_at-after_read c =
      rw
        (find-assigned handle (record { kind = producer_config; state = c }) made.objects, state_at)
        refl

  get_page-after_read :
      (c : EgdConfig) (page : EgdPageInfo)
      → get_page x u server handle held (after_read c) page
        ≡ and_then
            (page_of x u (server o.requests) o.names c page)
            (λ (c, p). ready (after_read c, p))
  unfolding get_page page_of egd_config_get_page_info
  get_page-after_read c page =
      rw (state_at-after_read c)
        (elim (Bool-cases (is_ok (get_page_info c my_page (some page)).1)) [
          | inl good ↦ rw good refl
          | inr bad ↦ rw bad refl
        ])

  open_page_c-open_page :
      (page : EgdPageInfo)
      → open_page_c x u server handle held o page
        ≡ and_then
            (open_page x u (server o.requests) o.names config page)
            (λ (c, p). ready (after_read c, p))
  unfolding open_page_c open_page egd_config_read read_handle read_object new_object
  open_page_c-open_page page =
      let run = read x u producer_config (server o.requests) o.names config 123456 in
      rw
        (
          find-assigned handle (record { kind = producer_config; state = config }) o.objects,
          read_handle,
        )
        (elim (Bool-cases (is_ok run.2)) [
          | inl good ↦ rw good (get_page-after_read run.1 page)
          | inr bad ↦ rw bad refl
        ])

  find_variable_c-after_read :
      (c : EgdConfig) (page : EgdPageInfo) (var : EgdVarInfo)
      → find_variable_c x u server handle held (after_read c) page var ≡ find_variable c page var
  unfolding find_variable_c find_variable egd_config_get_var_info
  find_variable_c-after_read c page var = rw (state_at-after_read c) refl

  -- A part that follows the opened page in a C example, against the part of the C++ example.
  main_agrees :
      {B : Type 0} (page : EgdPageInfo) (f : Objects × EgdPageInfo → Start B)
      (g : EgdConfig × EgdPageInfo → Start B)
      → ((c : EgdConfig) (p : EgdPageInfo) → f (after_read c, p) ≡ g (c, p))
      → and_then (open_page_c x u server handle held o page) f
        ≡ and_then (open_page x u (server o.requests) o.names config page) g
  main_agrees page f g same =
      ap (λ m. and_then m f) (open_page_c-open_page page)
      ∙ opened (open_page x u (server o.requests) o.names config page)
    where
      opened :
          (m : Start (EgdConfig × EgdPageInfo))
          → and_then (and_then m (λ (c, p). ready (after_read c, p))) f ≡ and_then m g
      opened (failed status calls) = refl
      opened (ready (c, p)) = same c p

  abbrev cpp_server : Transfer
  cpp_server = server o.requests

  -- Each of the four C examples, with a handle for its new config object, ends or goes on as the
  -- C++ example of its name does with a config object at the same address, in memory that held the
  -- same: with the same status and calls of the system where it fails, and elsewhere with the same
  -- statuses printed and the same calls made for the messages that it publishes, or the same calls
  -- made and the same client left to wait.
  pub examples_agree :
      (page : EgdPageInfo) (r : Resolver) (l : JsonLibrary) (var : EgdVarInfo) (bytes : List ℕ)
      (replies : List Replies) (s : Replies) (proxy callback : ℕ)
      → (raw_bytes_publish_main_c x u server handle held o page r var bytes replies
          ≡ raw_bytes_publish_main x u cpp_server o.names config page r var bytes replies)
        × (json_publish_main_c x u server handle held o page r l replies
            ≡ json_publish_main x u cpp_server o.names config page r l replies)
        × (raw_bytes_subscribe_main_c x u server handle held o page r s callback
            ≡ and_then
                (raw_bytes_subscribe_main x u cpp_server o.names config page r s callback handle)
                (λ (c, calls). ready (some c, calls)))
        × (json_subscribe_main_c x u server handle held o page r s proxy callback
            ≡ and_then
                (json_subscribe_main x u cpp_server o.names config page r s proxy callback handle)
                (λ (c, calls). ready (some c, calls)))
  unfolding raw_bytes_publish_main_c raw_bytes_publish_main json_publish_main_c json_publish_main
      raw_bytes_subscribe_main_c raw_bytes_subscribe_main json_subscribe_main_c json_subscribe_main
  examples_agree page r l var bytes replies s proxy callback = (
    main_agrees page _ _ (λ c p.
        ap
          (λ m. and_then m (λ v. ready (
            fill_data v bytes >>= λ filled.
            done (raw_bytes_publish_c r replies (some egd_client_init) p filled))))
          (find_variable_c-after_read c p var)
        ∙ and_then-cong (find_variable c p var) _ _ (λ v. ap ready (
            >>=-cong (fill_data v bytes) _ _
              (λ filled. ap done (raw_bytes_publish_c-some r replies egd_client_init p filled))))),
    main_agrees page _ _ (λ c p. ap ready (json_publish_c-some l r replies egd_json_client_init p)),
    main_agrees page _
          (λ (c, p).
            and_then (raw_bytes_subscribe r s p callback handle)
              (λ (c, calls). ready (some c, calls)))
          (λ c p. raw_bytes_subscribe_c-some r s p callback handle)
        ∙ sym (and_then_assoc (open_page x u cpp_server o.names config page) _ _),
    main_agrees page _
          (λ (c, p).
            and_then (json_subscribe r s proxy p callback handle)
              (λ (c, calls). ready (some c, calls)))
          (λ c p. json_subscribe_c-some r s proxy p callback handle)
        ∙ sym (and_then_assoc (open_page x u cpp_server o.names config page) _ _),
  )

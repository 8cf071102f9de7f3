-- ===== src/Client/Configs/Stale.antt =====
-- A page whose signature changes on the wire: `Read` keeps the page that the object has, so that
-- the new signature is never learnt.
use auroralink.Prelude.{
  ℕ, ◌≡◌, refl, sym, subst, ltb, ◌∙◌, ◌≢◌, Text, some, Bool-cases, inl, inr, false, ◌==◌, arith,
  List, [], ◌∷◌, ◌++◌, All, All-append,
}
use auroralink.Prelude.Eq.{nat_eq, text_eq}
use auroralink.Prelude.Assoc.{find, find-assign, beq_self}
use auroralink.Status.{ok, is_ok, err_signature_mismatch}
use auroralink.Spec.{DataProductionHdr, DataProductionMessage}
use auroralink.Config.Types.{EgdPageInfo, EgdPageMapEntry}
use auroralink.Config.Libraries.{Xml, Transfer, UrlLibrary}
use auroralink.Config.Query.{get_page_info}
use auroralink.Config.Parse.Meaning.{Agrees}
use auroralink.Config.Read.{read}
use auroralink.Config.Read.Effects.{read_keeps, read-Agrees}
use auroralink.Client.Types.{EgdSubCallbackInfo}
use auroralink.Client.Poll.{
  Invocation, Round, cares_about, no_event, receive_error, arrival, received_message,
  received_length, data_length_of, check_signature, renew_page, visit, receive, poll_round,
  poll_socket,
}
use auroralink.Client.Configs.{ConfigObject, Objects, read_handle, page_of_handle, config_objects}

-- The object of a page's handle holds an entry under the page's name, and that entry's signature
-- is not `signature`; nor is the page's own.
pub record IsStale (c_string : Text → Text) (signature : ℕ) (o : Objects) (page : EgdPageInfo)
    : Type 0 where
  pub object : ConfigObject
  pub entry : EgdPageMapEntry
  pub names_agree : Agrees o.names
  pub has_object : find page.config_handle o.objects ≡ some object
  pub has_entry : find (c_string page.page_name) object.state.page_map ≡ some entry
  pub own_handle : entry.page.config_handle ≡ page.config_handle
  pub own_name : entry.page.page_name ≡ page.page_name
  pub page_differs : signature ≢ page.signature
  pub entry_differs : signature ≢ entry.page.signature

-- Every datagram of the rounds has the signature.
abbrev pub Signed : ℕ → List Round → Type 0
Signed signature [] = Unit {0}
Signed signature (arrival stack datagram ∷ rs) =
    ((received_message stack datagram).hdr.signature ≡ signature) × Signed signature rs
Signed signature (r ∷ rs) = Signed signature rs

Signed-cons :
    (signature : ℕ) (r : Round) (rs : List Round)
    → Signed signature (r ∷ rs)
    → Signed signature (r ∷ []) × Signed signature rs
Signed-cons signature no_event rs s = (tt, s)
Signed-cons signature receive_error rs s = (tt, s)
Signed-cons signature (arrival stack datagram) rs (s, ss) = ((s, tt), ss)

module _ (x : Xml) (u : UrlLibrary) (server : ℕ → Transfer) (c_string : Text → Text) where
  read_handle-IsStale :
      (signature : ℕ) (o : Objects) (page : EgdPageInfo) (id : ℕ)
      → IsStale c_string signature o page
      → IsStale c_string signature (read_handle x u server o page.config_handle id).0 page
  unfolding read_handle
  read_handle-IsStale signature o page id v =
      let state = v.object.state in
      let transfer = server o.requests in
      let after = (read x u v.object.kind transfer o.names state id).1 in
      rw (v.has_object, read_handle)
        (record {
          object = record v.object { state = after };
          entry = v.entry;
          names_agree = read-Agrees x u transfer o.names state id v.object.kind v.names_agree;
          has_object =
              find-assign page.config_handle page.config_handle (record v.object { state = after })
                o.objects
              ∙ rw (beq_self page.config_handle);
          has_entry =
              read_keeps x u transfer o.names state id v.object.kind (c_string page.page_name)
                v.entry v.names_agree v.has_entry;
          own_handle = v.own_handle;
          own_name = v.own_name;
          page_differs = v.page_differs;
          entry_differs = v.entry_differs;
        })

  -- The page that the entry describes.
  abbrev entry_page : EgdPageMapEntry → EgdPageInfo
  entry_page entry = record { page_fields = entry.page; var_map = entry.var_map }

  page_of_handle-IsStale :
      (signature : ℕ) (o : Objects) (page : EgdPageInfo) (v : IsStale c_string signature o page)
      → page_of_handle o page.config_handle (c_string page.page_name) page
        ≡ (entry_page v.entry, ok)
  unfolding page_of_handle
  page_of_handle-IsStale signature o page v =
      rw (v.has_object, page_of_handle) (rw (v.has_entry, get_page_info))

  differs : (a b : ℕ) → a ≢ b → (a == b) ≡ false
  differs a b ne = ground arith

  renew_page-IsStale :
      (o : Objects) (h : DataProductionHdr) (page : EgdPageInfo)
      (v : IsStale c_string h.signature o page)
      → renew_page (config_objects x u server) c_string o h page
        ≡ (entry_page v.entry, err_signature_mismatch)
  unfolding renew_page
  renew_page-IsStale o h page v =
      rw (page_of_handle-IsStale h.signature o page v)
        (rw (differs h.signature v.entry.page.signature v.entry_differs))

  entry_page-IsStale :
      (signature : ℕ) (o : Objects) (page : EgdPageInfo) (v : IsStale c_string signature o page)
      → IsStale c_string signature o (entry_page v.entry)
  entry_page-IsStale signature o page v = record {
    object = v.object;
    entry = v.entry;
    names_agree = v.names_agree;
    has_object = rw v.own_handle v.has_object;
    has_entry =
        subst (λ n. find (c_string n) v.object.state.page_map ≡ some v.entry) (sym v.own_name)
          v.has_entry;
    own_handle = refl;
    own_name = refl;
    page_differs = v.entry_differs;
    entry_differs = v.entry_differs;
  }

  -- Fetching the config again does not help: the status is not `ok`, and the page stays stale.
  check_signature-IsStale :
      (o : Objects) (h : DataProductionHdr) (page : EgdPageInfo)
      → IsStale c_string h.signature o page
      → let (o', page', status) = check_signature (config_objects x u server) c_string o h page in
        IsStale c_string h.signature o' page' × (status ≢ ok)
  unfolding check_signature
  check_signature-IsStale o h page v =
      let r = read_handle x u server o page.config_handle page.producer_id in
      let v' = read_handle-IsStale h.signature o page page.producer_id v in
      rw (differs h.signature page.signature v.page_differs) (elim (Bool-cases (is_ok r.1)) [
        | inl good ↦ rw good (
            rw (renew_page-IsStale r.0 h page v')
              (entry_page-IsStale h.signature r.0 page v', λ e. cc))
        | inr bad ↦ rw bad (v', λ e. ground arith)
      ])

  visit-IsStale :
      (o : Objects) (m : DataProductionMessage) (n : ℕ) (cb : EgdSubCallbackInfo)
      → IsStale c_string m.hdr.signature o cb.page_info
      → let (o', cb', calls) = visit (config_objects x u server) c_string o m n cb in
        IsStale c_string m.hdr.signature o' cb'.page_info
        × All (λ (i : Invocation). i.status ≢ ok) calls
  unfolding visit
  visit-IsStale o m n cb v =
      let (v', bad) = check_signature-IsStale o m.hdr cb.page_info v in
      elim (Bool-cases (cares_about m.hdr cb.page_info)) [
        | inl cares ↦ rw cares (v', (bad, tt))
        | inr not_mine ↦ rw not_mine (v, tt)
      ]

  poll_round-IsStale :
      (signature : ℕ) (o : Objects) (r : Round) (cb : EgdSubCallbackInfo)
      → Signed signature (r ∷ [])
      → IsStale c_string signature o cb.page_info
      → (o' : Objects) × (cb' : EgdSubCallbackInfo) × (calls : List Invocation) × (poll_round
            (config_objects x u server)
            c_string
            o
            r
            (cb ∷ [])
          ≡ (o', cb' ∷ [], calls))
        × IsStale c_string signature o' cb'.page_info
        × All (λ (i : Invocation). i.status ≢ ok) calls
  unfolding poll_round
  poll_round-IsStale signature o no_event cb s v = (o, cb, [], refl, v, tt)
  poll_round-IsStale signature o receive_error cb s v = (o, cb, [], refl, v, tt)
  poll_round-IsStale signature o (arrival stack datagram) cb (s, _) v =
      let m = received_message stack datagram in
      let n = data_length_of (received_length datagram) in
      let t = visit (config_objects x u server) c_string o m n cb in
      let (v', bad) =
        visit-IsStale o m n cb (subst (λ k. IsStale c_string k o cb.page_info) (sym s) v) in
      elim (Bool-cases (ltb 0 (received_length datagram))) [
        | inr empty ↦ (o, cb, [], rw (empty, receive), v, tt)
        | inl bytes ↦ (
          t.0,
          t.1,
          t.2 ++ [],
          rw (bytes, receive),
          subst (λ k. IsStale c_string k t.0 t.1.page_info) s v',
          All-append (λ (i : Invocation). i.status ≢ ok) t.2 [] bad tt,
        )
      ]

  -- If the datagrams of some rounds have a signature that is neither the subscriber's page's nor that
  -- of the entry which the config object of the page's handle holds under the page's name, with the
  -- same handle and name, and the static map answers as at the start, then no callback is called
  -- with the status `ok`, however often the server is asked and whatever it answers.
  pub stale_forever :
      (signature : ℕ) (o : Objects) (rounds : List Round) (cb : EgdSubCallbackInfo)
      → Signed signature rounds
      → IsStale c_string signature o cb.page_info
      → All
          (λ (i : Invocation). i.status ≢ ok)
          (poll_socket (config_objects x u server) c_string o rounds (cb ∷ [])).2
  unfolding poll_socket
  stale_forever signature o [] cb s v = tt
  stale_forever signature o (r ∷ rounds) cb s v =
      let (first, rest) = Signed-cons signature r rounds s in
      let (o', cb', calls, e, v', bad) = poll_round-IsStale signature o r cb first v in
      rw (e, poll_socket)
        (All-append (λ (i : Invocation). i.status ≢ ok) calls _ bad
          (stale_forever signature o' rounds cb' rest v'))

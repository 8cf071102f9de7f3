-- ===== src/Client/Poll/Dispatch.antt =====
-- Which callbacks a datagram reaches, with what arguments and which status.
use auroralink.Prelude.{
  ℕ, ◌≡◌, ◌≢◌, ◌⊎◌, refl, ap, sym, ◌∙◌, Text, List, [], ◌∷◌, ◌++◌, map, map-append, All, All-append,
  Bool-cases, inl, inr, arith, if◌then◌else◌,
}
use auroralink.Status.{ok}
use auroralink.Spec.{DataProductionHdr, DataProductionMessage}
use auroralink.Config.Types.{EgdPageInfo}
use auroralink.Client.Types.{EgdSubCallbackInfo}
use auroralink.Client.Poll.{
  ConfigService, Invocation, cares_about, check_signature, visit, dispatch,
}

-- A callback with its user data.
abbrev pub target : EgdSubCallbackInfo → ℕ × ℕ
target cb = (cb.callback, cb.user_data)

-- Which callback a call is made of.
abbrev pub called : Invocation → ℕ × ℕ
called i = (i.callback, i.user_data)

-- The callbacks that care about a header, in the order of subscription.
abbrev pub interested : DataProductionHdr → List EgdSubCallbackInfo → List (ℕ × ℕ)
interested h [] = []
interested h (cb ∷ cbs) =
    if cares_about h cb.page_info then target cb ∷ interested h cbs else interested h cbs

pub interested-append :
    (h : DataProductionHdr) (xs ys : List EgdSubCallbackInfo)
    → interested h (xs ++ ys) ≡ interested h xs ++ interested h ys
interested-append h [] ys = refl
interested-append h (x ∷ xs) ys = elim (Bool-cases (cares_about h x.page_info)) [
  | inl cares ↦ rw cares (ap (◌∷◌ (target x)) (interested-append h xs ys))
  | inr not_mine ↦ rw not_mine (interested-append h xs ys)
]

interested_cons :
    (h : DataProductionHdr) (cb : EgdSubCallbackInfo) (cbs : List EgdSubCallbackInfo)
    → interested h (cb ∷ []) ++ interested h cbs ≡ interested h (cb ∷ cbs)
interested_cons h cb cbs = sym (interested-append h (cb ∷ []) cbs)

-- A call carries the message that came, and its status is `ok` only if the page that is handed
-- over has the header's signature.
abbrev pub Carries : DataProductionMessage → ℕ → Invocation → Type 0
Carries m data_len i =
    (i.header ≡ m.hdr)
    × (i.payload ≡ m.payload)
    × (i.data_len ≡ data_len)
    × ((i.status ≢ ok) ⊎ (i.page_info.signature ≡ m.hdr.signature))

module _ (service : ConfigService) (c_string : Text → Text) where
  open service use {Configs, read_config, page_info_of}

  check_signature-ok :
      (cs : Configs) (h : DataProductionHdr) (page : EgdPageInfo)
      → ((check_signature service c_string cs h page).2 ≢ ok)
        ⊎ ((check_signature service c_string cs h page).1.signature ≡ h.signature)
  unfolding check_signature
  check_signature-ok cs h page = ground arith

  pub visit-calls :
      (cs : Configs) (m : DataProductionMessage) (data_len : ℕ) (cb : EgdSubCallbackInfo)
      → (map called (visit service c_string cs m data_len cb).2 ≡ interested m.hdr (cb ∷ []))
        × All (Carries m data_len) (visit service c_string cs m data_len cb).2
        × (target (visit service c_string cs m data_len cb).1 ≡ target cb)
  unfolding visit
  visit-calls cs m data_len cb = elim (Bool-cases (cares_about m.hdr cb.page_info)) [
    | inl cares ↦
        rw cares (refl, ((refl, refl, refl, check_signature-ok cs m.hdr cb.page_info), tt), refl)
    | inr not_mine ↦ rw not_mine (refl, tt, refl)
  ]

  -- A message calls exactly the callbacks that care about it, each once and in the order of
  -- subscription, with the message's header, payload and length, and with the status `ok` only if
  -- the page handed over has the header's signature; the callbacks stay subscribed, in their order.
  pub dispatch_reaches :
      (cs : Configs) (m : DataProductionMessage) (data_len : ℕ) (cbs : List EgdSubCallbackInfo)
      → (map called (dispatch service c_string cs m data_len cbs).2 ≡ interested m.hdr cbs)
        × All (Carries m data_len) (dispatch service c_string cs m data_len cbs).2
        × (map target (dispatch service c_string cs m data_len cbs).1 ≡ map target cbs)
  unfolding dispatch
  dispatch_reaches cs m data_len [] = (refl, tt, refl)
  dispatch_reaches cs m data_len (cb ∷ cbs) =
      let v = visit service c_string cs m data_len cb in
      let (reached, carried, kept) = visit-calls cs m data_len cb in
      let (reached', carried', kept') = dispatch_reaches v.0 m data_len cbs in
      (
        map-append _ v.2 _ ∙ rw (reached, reached') (interested_cons m.hdr cb cbs),
        All-append (Carries m data_len) v.2 _ carried carried',
        rw (kept, kept'),
      )

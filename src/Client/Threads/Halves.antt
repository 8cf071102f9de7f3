-- ===== src/Client/Threads/Halves.antt =====
-- The two halves of `Subscribe`, before and behind its lock, against the whole.
use auroralink.Prelude.{ℕ, ◌≡◌, ◌≢◌, ◌⊎◌, inl, inr, refl, ap, Text, Bool-cases, Option-cases, arith}
use auroralink.Prelude.Eq.{nat_eq, text_eq, pair_eq}
use auroralink.Prelude.Assoc.{Map, find, assign, find-assigned, assign-assign, or_default}
use auroralink.Status.{ok, is_ok}
use auroralink.Client.Types.{EgdSubInfo, EgdSubCallbackInfo, EgdSubKey, Resolver, Replies}
use auroralink.Client.Connect.{subscribe_connect}
use auroralink.Client.Subscribe.{new_sub_info, add_callback, subscribe}
use auroralink.Client.Poll.{ConfigService}
use auroralink.Client.Threads.{adding, System, enter_subscribe, append_callback}

append_fresh :
    (k : EgdSubKey) (cb : EgdSubCallbackInfo) (fresh : EgdSubInfo) (m : Map EgdSubKey EgdSubInfo)
    → assign k
        (add_callback cb (or_default new_sub_info (find k (assign k fresh m))))
        (assign k fresh m)
      ≡ assign k (add_callback cb fresh) m
append_fresh k cb fresh m =
    rw (find-assigned k fresh m) (assign-assign k (add_callback cb fresh) fresh m)

module _ (service : ConfigService) (c_string : Text → Text) (resolver : Resolver) where
  -- With no other step in between, the two halves of a `Subscribe` make of the client what
  -- `subscribe` makes of it where its status is `ok`; elsewhere the first half changes nothing, and
  -- `subscribe` does not either.
  pub subscribe_halves :
      (replies : Replies) (h : Text) (p : ℕ) (cb : EgdSubCallbackInfo)
      (s : System service c_string resolver)
      → let t = enter_subscribe service c_string resolver replies h p cb s in
        let whole = subscribe resolver replies s.client h p cb in
        ((whole.1 ≡ ok)
          × (t.user ≡ adding (h, p) cb)
          × ((append_callback service c_string resolver (h, p) cb t).client ≡ whole.0))
        ⊎ ((whole.1 ≢ ok) × (t ≡ s) × (whole.0 ≡ s.client))
  unfolding enter_subscribe append_callback subscribe
  subscribe_halves replies h p cb s =
      let k = subscribe_connect resolver replies h p new_sub_info.connection in
      let fresh = record new_sub_info { connection = k.0 } in
      let m = s.client.subscriber_map in
      elim (Option-cases (find (h, p) s.client.subscriber_map)) [
        | inr (info, known) ↦
            rw (known, enter_subscribe, subscribe) (rw known (inl (refl, refl, refl)))
        | inl unknown ↦
            rw (unknown, enter_subscribe, subscribe)
              (elim (Bool-cases (is_ok k.1)) [
                | inl good ↦ rw good (
                    inl (
                      refl,
                      refl,
                      ap (λ m'. record s.client { subscriber_map = m' })
                          (append_fresh (h, p) cb fresh m),
                    ))
                | inr bad ↦ rw bad (inr ((λ e. ground arith), refl, refl))
              ])
      ]

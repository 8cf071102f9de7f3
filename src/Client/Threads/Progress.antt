-- ===== src/Client/Threads/Progress.antt =====
-- A `Subscribe` that waits for the write lock: its endpoint is there, and it gets the lock when
-- the walk of the endpoint's thread has ended.
use auroralink.Prelude.{
  ℕ, ◌≡◌, ◌≢◌, ◌⊎◌, inl, inr, refl, ap, subst, sym, ◌∙◌, Text, some, [], ◌∷◌, ◌++◌, map, map-append,
  Bool-cases,
}
use auroralink.Prelude.Eq.{nat_eq, text_eq, pair_eq}
use auroralink.Prelude.Assoc.{find, assign, find-assign, find-assigned}
use auroralink.Client.Types.{
  EgdSubInfo, EgdSubCallbackInfo, EgdSubKey, EgdClient, Resolver, Replies,
}
use auroralink.Client.Poll.{ConfigService}
use auroralink.Client.Poll.Dispatch.{target, dispatch_reaches}
use auroralink.Client.Threads.{
  Walk, Phase, waiting, received, walking, free, adding, System, enter_subscribe, append_callback,
  publish_page, walk_on, move_thread, Step, enters, appends, publishes, hears, locks, visits,
  unlocks, Reach, here, next, new_system,
}
use auroralink.Client.Threads.Invariant.{
  callbacks_at-known, enter_cases, publish-subscribers, walks_stand,
}
use auroralink.Client.Threads.Subscriptions.{board, board-append_callback}
use auroralink.Client.Threads.Alone.{WalksAt, walk_finishes}

-- An endpoint has a subscriber.
abbrev pub IsKnown : EgdSubKey → EgdClient → Type 0
IsKnown k c = (info : EgdSubInfo) × (find k c.subscriber_map ≡ some info)

pub IsKnown-assign :
    (k j : EgdSubKey) (info : EgdSubInfo) (c : EgdClient)
    → IsKnown j c
    → IsKnown j (record c { subscriber_map = assign k info c.subscriber_map })
IsKnown-assign k j info c (old, known) = elim (Bool-cases (pair_eq.beq k j)) [
  | inl is ↦ (info, find-assign k j info c.subscriber_map ∙ rw is refl)
  | inr other ↦ (old, find-assign k j info c.subscriber_map ∙ rw other known)
]

pub IsKnown-assigned :
    (k : EgdSubKey) (info : EgdSubInfo) (c : EgdClient)
    → IsKnown k (record c { subscriber_map = assign k info c.subscriber_map })
IsKnown-assigned k info c = (info, find-assigned k info c.subscriber_map)

adding_key : {k j : EgdSubKey} {cb cb' : EgdSubCallbackInfo} → adding k cb ≡ adding j cb' → k ≡ j
adding_key e = cc

-- A thread that does not walk leaves its lock free.
Phase-cases : (p : Phase) → ((w : Walk) × (p ≡ walking w)) ⊎ ((w : Walk) → p ≢ walking w)
Phase-cases waiting = inr (λ w e. cc)
Phase-cases (received m n) = inr (λ w e. cc)
Phase-cases (walking w) = inl (w, refl)

module _ (service : ConfigService) (c_string : Text → Text) (resolver : Resolver) where
  open service use {Configs}

  abbrev PendingKnown : System service c_string resolver → Type 0
  PendingKnown s =
      (k : EgdSubKey) (cb : EgdSubCallbackInfo) → s.user ≡ adding k cb → IsKnown k s.client

  enters-PendingKnown :
      (replies : Replies) (h : Text) (p : ℕ) (cb : EgdSubCallbackInfo)
      (s : System service c_string resolver)
      → s.user ≡ free
      → PendingKnown (enter_subscribe service c_string resolver replies h p cb s)
  enters-PendingKnown replies h p cb s idle =
      elim (enter_cases service c_string resolver replies h p cb s) [
        | inl same ↦ rw same (λ k cb' e. absurd (not_both (sym idle ∙ e)))
        | inr (inl (known, waits)) ↦
            rw waits (λ k cb' e. subst (λ j. IsKnown j s.client) (adding_key e) known)
        | inr (inr (info, _, _, started)) ↦ rw started (λ k cb' e.
            subst
              (λ j.
                IsKnown j
                  (record s.client { subscriber_map = assign (h, p) info s.client.subscriber_map }))
              (adding_key e) (IsKnown-assigned (h, p) info s.client))
      ]
    where
      not_both : {k : EgdSubKey} {cb' : EgdSubCallbackInfo} → free ≢ adding k cb'
      not_both e = cc

  Step-PendingKnown :
      {s t : System service c_string resolver}
      → Step service c_string resolver s t
      → PendingKnown s
      → PendingKnown t
  unfolding append_callback publish_page move_thread walk_on
  Step-PendingKnown {s} (enters replies h p cb idle) held =
      enters-PendingKnown replies h p cb s idle
  Step-PendingKnown (appends k cb waits still) held = λ j cb' e. cc
  Step-PendingKnown {s} (publishes replies h p page bytes idle) held = λ j cb' e.
      rw (publish-subscribers service c_string resolver replies h p page bytes s.client)
        (held j cb' e)
  Step-PendingKnown (hears k info r known waits) held = held
  Step-PendingKnown (locks k info m n known has) held = held
  Step-PendingKnown {s} (visits k info w known is inside) held =
      λ j cb' e. IsKnown-assign k j _ s.client (held j cb' e)
  Step-PendingKnown (unlocks k info w known is over) held = held

  pending_known :
      (cs : Configs) {s : System service c_string resolver}
      → Reach service c_string resolver (new_system service c_string resolver cs) s
      → PendingKnown s
  pending_known cs here = λ k cb e. cc
  pending_known cs (next r st) = Step-PendingKnown st (pending_known cs r)

  -- The thread ends its walk, and the endpoint's callbacks are the same but for their pages.
  walk_over :
      (cs : Configs) (s : System service c_string resolver) (k : EgdSubKey) (w : Walk)
      → Reach service c_string resolver (new_system service c_string resolver cs) s
      → IsKnown k s.client
      → s.phase k ≡ walking w
      → (t : System service c_string resolver) × Reach service c_string resolver s t
        × (t.phase k ≡ waiting)
        × (t.user ≡ s.user)
        × (board t.client k ≡ board s.client k)
  walk_over cs s k w r (info, known) is =
      let (seen, done, rest, found, now, place, _, _, _) =
        walks_stand service c_string resolver cs s r k w is in
      let at_now : WalksAt service c_string resolver k info w done rest s = record {
        known = known;
        is = is;
        now = sym (callbacks_at-known k info s.client known) ∙ now;
        place = place;
      } in
      let (t, moves, waits, _, callbacks, _) =
        walk_finishes service c_string resolver k rest done info w s at_now in
      (
        t,
        moves.reached,
        waits,
        moves.user_stays,
        ap (map target) callbacks
            ∙ map-append target done _
            ∙ ap (◌++◌ (map target done))
                (dispatch_reaches service c_string s.configs w.message w.data_len rest).2
            ∙ sym (ap (map target) now ∙ map-append target done rest),
      )

  -- In every state that a new client and its threads reach, a `Subscribe` that waits for the write
  -- lock can still end: there is a run on which it does, with its callback behind those that the
  -- endpoint has.
  pub subscribe_completes :
      (cs : Configs) (s : System service c_string resolver) (k : EgdSubKey)
      (cb : EgdSubCallbackInfo)
      → Reach service c_string resolver (new_system service c_string resolver cs) s
      → s.user ≡ adding k cb
      → (t : System service c_string resolver) × Reach service c_string resolver s t
        × (t.user ≡ free)
        × (board t.client k ≡ board s.client k ++ target cb ∷ [])
  unfolding append_callback
  subscribe_completes cs s k cb r waits = elim (Phase-cases (s.phase k)) [
    | inr still ↦ (
      append_callback service c_string resolver k cb s,
      next here (appends k cb waits still),
      refl,
      board-append_callback service c_string resolver k cb s,
    )
    | inl (w, is) ↦
        let (t, reached, idle, user, kept) =
          walk_over cs s k w r (pending_known cs r k cb waits) is in
        (
          append_callback service c_string resolver k cb t,
          next reached (appends k cb (user ∙ waits) (λ w' e. not_both (sym idle ∙ e))),
          refl,
          board-append_callback service c_string resolver k cb t ∙ rw kept refl,
        )
  ]
    where
      not_both : {w' : Walk} → waiting ≢ walking w'
      not_both e = cc

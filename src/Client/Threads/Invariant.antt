-- ===== src/Client/Threads/Invariant.antt =====
-- What holds of a client and its threads in every reachable state.
use auroralink.Prelude.{
  ℕ, ◌≡◌, ◌≢◌, ◌⊎◌, inl, inr, refl, ap, subst, ◌∙◌, Text, false, none, some, List, [], arith,
  Bool-cases, Option-cases,
}
use auroralink.Prelude.Eq.{nat_eq, text_eq, pair_eq}
use auroralink.Prelude.Assoc.{find, assign, or_default, beq_self}
use auroralink.Status.{is_ok}
use auroralink.Config.Types.{EgdPageInfo}
use auroralink.Client.Types.{
  EgdSubInfo, EgdSubCallbackInfo, EgdSubKey, EgdClient, Resolver, Replies,
}
use auroralink.Client.Connect.{subscribe_connect}
use auroralink.Client.Publish.{send_message, connect_and_send, publish}
use auroralink.Client.Subscribe.{new_sub_info, add_callback}
use auroralink.Client.Subscribe.Lifetime.{callbacks_at, callbacks_at-assign}
use auroralink.Client.Poll.{ConfigService, Round, no_event, receive_error, arrival}
use auroralink.Client.Threads.{
  Walk, Phase, waiting, walking, adding, hear_round, first_walk, set_phase, System, enter_subscribe,
  append_callback, publish_page, visit_at, walk_on, move_thread, Step, enters, appends, publishes,
  hears, locks, visits, unlocks, Reach, here, next, new_system,
}
use auroralink.Client.Threads.Walks.{IsWalk, first_walk-IsWalk, visit_at-IsWalk}

pub callbacks_at-known :
    (k : EgdSubKey) (info : EgdSubInfo) (c : EgdClient)
    → find k c.subscriber_map ≡ some info
    → callbacks_at k c ≡ info.callbacks
unfolding callbacks_at
callbacks_at-known k info c known = rw (known, callbacks_at) refl

pub callbacks_at-unknown :
    (k : EgdSubKey) (c : EgdClient) → find k c.subscriber_map ≡ none → callbacks_at k c ≡ []
unfolding callbacks_at
callbacks_at-unknown k c unknown = rw (unknown, callbacks_at) refl

-- No round of the system begins a walk.
hear_round-walking : (r : Round) (w : Walk) → hear_round r ≢ walking w
unfolding hear_round
hear_round-walking no_event w e = cc
hear_round-walking receive_error w e = cc
hear_round-walking (arrival stack datagram) w e = ground arith

abbrev pub WalksHold : EgdClient → (EgdSubKey → Phase) → Type 0
WalksHold c phase = (k : EgdSubKey) (w : Walk) → phase k ≡ walking w → IsWalk w (callbacks_at k c)

-- Only one endpoint's callbacks differ.
abbrev DiffersAt : EgdSubKey → EgdClient → EgdClient → Type 0
DiffersAt k c c' = (j : EgdSubKey) → pair_eq.beq k j ≡ false → callbacks_at j c' ≡ callbacks_at j c

-- Only one endpoint's thread moves, and only its callbacks change.
WalksHold-move :
    (c c' : EgdClient) (phase : EgdSubKey → Phase) (k : EgdSubKey) (p : Phase)
    → WalksHold c phase
    → DiffersAt k c c'
    → ((w : Walk) → p ≡ walking w → IsWalk w (callbacks_at k c'))
    → WalksHold c' (set_phase k p phase)
unfolding set_phase
WalksHold-move c c' phase k p held apart mine j w is = elim (Bool-cases (pair_eq.beq k j)) [
  | inl same ↦
      subst (λ i. IsWalk w (callbacks_at i c')) ((pair_eq.beq_iff k j).0 same)
        (mine w (rw same at is))
  | inr other ↦ rw (apart j other) (held j w (rw other at is))
]

-- The callbacks of an endpoint whose thread does not walk may change.
WalksHold-add :
    (c c' : EgdClient) (phase : EgdSubKey → Phase) (k : EgdSubKey)
    → WalksHold c phase
    → DiffersAt k c c'
    → ((w : Walk) → phase k ≢ walking w)
    → WalksHold c' phase
WalksHold-add c c' phase k held apart still j w is = elim (Bool-cases (pair_eq.beq k j)) [
  | inl same ↦ absurd (still w (ap phase ((pair_eq.beq_iff k j).0 same) ∙ is))
  | inr other ↦ rw (apart j other) (held j w is)
]

DiffersAt-assign :
    (k : EgdSubKey) (info : EgdSubInfo) (c : EgdClient)
    → DiffersAt k c (record c { subscriber_map = assign k info c.subscriber_map })
DiffersAt-assign k info c j other = callbacks_at-assign k j info c ∙ rw other refl

pub callbacks_at-assigned :
    (k : EgdSubKey) (info : EgdSubInfo) (c : EgdClient)
    → callbacks_at k (record c { subscriber_map = assign k info c.subscriber_map }) ≡ info.callbacks
callbacks_at-assigned k info c =
    callbacks_at-assign k k info c ∙ rw (beq_self {K = EgdSubKey} k) refl

walking_inj : {v w : Walk} → walking v ≡ walking w → v ≡ w
walking_inj e = cc

pub callbacks_at-same :
    (c c' : EgdClient)
    → c'.subscriber_map ≡ c.subscriber_map
    → (k : EgdSubKey) → callbacks_at k c' ≡ callbacks_at k c
unfolding callbacks_at
callbacks_at-same c c' same k = rw same refl

module _ (service : ConfigService) (c_string : Text → Text) (resolver : Resolver) where
  open service use {Configs}

  -- `Subscribe` up to its lock changes nothing, or only waits for the lock, or starts a thread for
  -- an endpoint that had none.
  pub enter_cases :
      (replies : Replies) (h : Text) (p : ℕ) (cb : EgdSubCallbackInfo)
      (s : System service c_string resolver)
      → let t = enter_subscribe service c_string resolver replies h p cb s in
        let key : EgdSubKey = (h, p) in
        (t ≡ s)
        ⊎ (((info : EgdSubInfo) × (find key s.client.subscriber_map ≡ some info))
            × (t ≡ record s { user = adding key cb }))
        ⊎ ((info : EgdSubInfo) × (find key s.client.subscriber_map ≡ none)
            × (info.callbacks ≡ [])
            × (t ≡ record s {
              client = record s.client { subscriber_map = assign key info s.client.subscriber_map };
              phase = set_phase key waiting s.phase;
              user = adding key cb;
            }))
  unfolding enter_subscribe
  enter_cases replies h p cb s =
      let k = subscribe_connect resolver replies h p new_sub_info.connection in
      elim (Option-cases (find (h, p) s.client.subscriber_map)) [
        | inr (info, known) ↦ rw (known, enter_subscribe) (inr (inl ((info, refl), refl)))
        | inl unknown ↦
            rw (unknown, enter_subscribe)
              (elim (Bool-cases (is_ok k.1)) [
                | inl good ↦
                    rw good (inr (inr (record new_sub_info { connection = k.0 }, refl, refl, refl)))
                | inr bad ↦ rw bad (inl refl)
              ])
      ]

  pub publish-subscribers :
      (replies : Replies) (h : Text) (p : ℕ) (page : EgdPageInfo) (bytes : List ℕ) (c : EgdClient)
      → (publish resolver replies c h p page bytes).0.subscriber_map ≡ c.subscriber_map
  unfolding publish connect_and_send send_message
  publish-subscribers replies h p page bytes c = ground arith

  enters-WalksHold :
      (replies : Replies) (h : Text) (p : ℕ) (cb : EgdSubCallbackInfo)
      (s : System service c_string resolver)
      → WalksHold s.client s.phase
      → let t = enter_subscribe service c_string resolver replies h p cb s in
        WalksHold t.client t.phase
  enters-WalksHold replies h p cb s held = elim (enter_cases replies h p cb s) [
    | inl same ↦ rw same held
    | inr (inl (_, waits)) ↦ rw waits held
    | inr (inr (info, _, _, started)) ↦ rw started (
        WalksHold-move s.client _ s.phase (h, p) waiting held
          (DiffersAt-assign (h, p) info s.client) (λ w e. cc))
  ]

  -- A step keeps the walks.
  Step-WalksHold :
      {s t : System service c_string resolver}
      → Step service c_string resolver s t
      → WalksHold s.client s.phase
      → WalksHold t.client t.phase
  unfolding append_callback publish_page move_thread walk_on
  Step-WalksHold {s} (enters replies h p cb idle) held = enters-WalksHold replies h p cb s held
  Step-WalksHold {s} (appends k cb waits still) held =
      WalksHold-add s.client _ s.phase k held
        (DiffersAt-assign k
          (add_callback cb (or_default new_sub_info (find k s.client.subscriber_map))) s.client)
        still
  Step-WalksHold {s} (publishes replies h p page bytes idle) held = λ k w is.
      rw
        (callbacks_at-same s.client (publish resolver replies s.client h p page bytes).0
          (publish-subscribers replies h p page bytes s.client) k)
        (held k w is)
  Step-WalksHold {s} (hears k info r known waits) held =
      WalksHold-move s.client s.client s.phase k (hear_round r) held (λ j other. refl)
        (λ w e. absurd (hear_round-walking r w e))
  Step-WalksHold {s} (locks k info m n known has) held =
      WalksHold-move s.client s.client s.phase k (walking (first_walk m n info.callbacks)) held
        (λ j other. refl)
        (λ w e.
          subst (λ v. IsWalk v (callbacks_at k s.client)) (walking_inj e)
            (rw (callbacks_at-known k info s.client known)
              (first_walk-IsWalk service c_string resolver m n info.callbacks)))
  Step-WalksHold {s} (visits k info w known is inside) held =
      WalksHold-move s.client _ s.phase k _ held (DiffersAt-assign k _ s.client) (λ w' e.
        subst (λ v. IsWalk v (callbacks_at k (walk_on service c_string resolver k info w s).client))
          (walking_inj e)
          (rw
            (callbacks_at-assigned k
              (record info {
                callbacks =
                    (visit_at service c_string resolver s.configs w.message w.data_len
                      w.next_callback info.callbacks).1;
              })
              s.client)
            (visit_at-IsWalk service c_string resolver s.configs w info.callbacks
              (rw (callbacks_at-known k info s.client known) at (held k w is)) inside)))
  Step-WalksHold {s} (unlocks k info w known is over) held =
      WalksHold-move s.client s.client s.phase k waiting held (λ j other. refl) (λ w e. cc)

  Reach-WalksHold :
      {s t : System service c_string resolver}
      → Reach service c_string resolver s t
      → WalksHold s.client s.phase
      → WalksHold t.client t.phase
  Reach-WalksHold here held = held
  Reach-WalksHold (next r st) held = Step-WalksHold st (Reach-WalksHold r held)

  -- In every state that a new client and its threads reach, by any order of their steps, a walk
  -- under the read lock stands in the callbacks of its endpoint: those it has seen are the first
  -- ones, each with its callback and user data as it was found and each called if and only if it
  -- cares about the message; all the others are as they were found.
  pub walks_stand :
      (cs : Configs) (s : System service c_string resolver)
      → Reach service c_string resolver (new_system service c_string resolver cs) s
      → (k : EgdSubKey) (w : Walk) → s.phase k ≡ walking w
      → IsWalk w (callbacks_at k s.client)
  walks_stand cs s r = Reach-WalksHold r (λ k w e. cc)

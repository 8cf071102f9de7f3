-- ===== src/Client/Threads/Rounds.antt =====
-- Whole rounds of one thread of `PollSocket`, and the end of a `Subscribe` that waits.
use auroralink.Prelude.{
  ℕ, ◌≡◌, inl, inr, refl, ap, sym, subst, ◌∙◌, Text, some, List, [], ◌∷◌, ◌++◌, append-nil,
  Bool-cases, ltb,
}
use auroralink.Prelude.Eq.{nat_eq, text_eq, pair_eq}
use auroralink.Prelude.Assoc.{find}
use auroralink.Spec.{DataProductionMessage}
use auroralink.Client.Types.{EgdSubInfo, EgdSubKey, Resolver}
use auroralink.Client.Subscribe.Lifetime.{callbacks_at}
use auroralink.Client.Poll.{
  ConfigService, Invocation, Round, no_event, receive_error, arrival, received_message,
  received_length, data_length_of, dispatch, receive, poll_round,
}
use auroralink.Client.Threads.{
  Walk, waiting, received, walking, hear_round, first_walk, System, move_thread, Step, hears, locks,
}
use auroralink.Client.Threads.Invariant.{callbacks_at-known}
use auroralink.Client.Threads.Alone.{
  set_phase_here, WalksAt, MovesOnly, MovesOnly-trans, move_thread-MovesOnly, walk_finishes,
}

-- The calls of all the walks that have ended, in their order.
abbrev pub calls_made : List Walk → List Invocation
calls_made [] = []
calls_made (w ∷ ws) = calls_made ws ++ w.made

module _ (service : ConfigService) (c_string : Text → Text) (resolver : Resolver) where
  open service use {Configs}

  -- What a round of `poll_round` makes of a state.
  abbrev pub RoundDone :
      EgdSubKey
      → EgdSubInfo
      → Round
      → System service c_string resolver
      → System service c_string resolver
      → Type 0
  RoundDone k info r s t =
      let (cs, cbs, calls) = poll_round service c_string s.configs r info.callbacks in
      MovesOnly service c_string resolver k s t
      × (t.phase k ≡ waiting)
      × (t.configs ≡ cs)
      × (callbacks_at k t.client ≡ cbs)
      × (calls_made t.rounds ≡ calls_made s.rounds ++ calls)

  -- A round that brings no message.
  idle_round :
      (k : EgdSubKey) (info : EgdSubInfo) (r : Round) (s : System service c_string resolver)
      → find k s.client.subscriber_map ≡ some info
      → s.phase k ≡ waiting
      → hear_round r ≡ waiting
      → poll_round service c_string s.configs r info.callbacks ≡ (s.configs, info.callbacks, [])
      → (t : System service c_string resolver) × RoundDone k info r s t
  unfolding move_thread
  idle_round k info r s known waits nothing same = (
    move_thread service c_string resolver k (hear_round r) s,
    rw same (
      move_thread-MovesOnly service c_string resolver k (hear_round r) s.rounds s
          (hears k info r known waits),
      set_phase_here k (hear_round r) s.phase ∙ nothing,
      refl,
      callbacks_at-known k info s.client known,
      sym (append-nil (calls_made s.rounds)),
    ),
  )

  message_round :
      (k : EgdSubKey) (info : EgdSubInfo) (r : Round) (m : DataProductionMessage) (n : ℕ)
      (s : System service c_string resolver)
      → find k s.client.subscriber_map ≡ some info
      → s.phase k ≡ waiting
      → hear_round r ≡ received m n
      → poll_round service c_string s.configs r info.callbacks
        ≡ dispatch service c_string s.configs m n info.callbacks
      → (t : System service c_string resolver) × RoundDone k info r s t
  unfolding move_thread
  message_round k info r m n s known waits heard same =
      let s1 = move_thread service c_string resolver k (received m n) s in
      let w = first_walk m n info.callbacks in
      let s2 = move_thread service c_string resolver k (walking w) s1 in
      let at2 : WalksAt service c_string resolver k info w [] info.callbacks s2 = record {
        known = known;
        is = set_phase_here k (walking w) s1.phase;
        now = refl;
        place = refl;
      } in
      let (t, moves, waits', configs, callbacks, (w', rounds, made)) =
        walk_finishes service c_string resolver k info.callbacks [] info w s2 at2 in
      let first = move_thread-MovesOnly service c_string resolver k (received m n) s.rounds s (
        subst (λ p. Step service c_string resolver s (move_thread service c_string resolver k p s))
          heard (hears k info r known waits)) in
      let second =
        move_thread-MovesOnly service c_string resolver k (walking w) s1.rounds s1
          (locks k info m n known (set_phase_here k (received m n) s.phase)) in
      (
        t,
        rw same (
          MovesOnly-trans service c_string resolver first
              (MovesOnly-trans service c_string resolver second moves),
          waits',
          configs,
          callbacks,
          ap calls_made rounds ∙ ap (◌++◌ (calls_made s.rounds)) made,
        ),
      )

  -- A thread at the head of its loop whose endpoint is known can run one whole round of its own,
  -- whatever the round brings, while the others rest: it comes back to the head of its loop with
  -- the configs, the callbacks and the calls that `poll_round` gives, and every other endpoint and
  -- its thread are as they were.
  pub thread_round :
      (k : EgdSubKey) (info : EgdSubInfo) (r : Round) (s : System service c_string resolver)
      → find k s.client.subscriber_map ≡ some info
      → s.phase k ≡ waiting
      → (t : System service c_string resolver) × RoundDone k info r s t
  unfolding poll_round hear_round receive
  thread_round k info no_event s known waits = idle_round k info no_event s known waits refl refl
  thread_round k info receive_error s known waits =
      idle_round k info receive_error s known waits refl refl
  thread_round k info (arrival stack datagram) s known waits =
      elim (Bool-cases (ltb 0 (received_length datagram))) [
        | inl some_bytes ↦
            message_round k info (arrival stack datagram) (received_message stack datagram)
              (data_length_of (received_length datagram)) s known waits (rw some_bytes refl)
              (rw some_bytes refl)
        | inr empty ↦
            idle_round k info (arrival stack datagram) s known waits (rw empty refl) (rw empty refl)
      ]

-- ===== src/Client/Threads/Complete.antt =====
-- `PollSocket` against `Subscribe`: the walks that have ended.
use auroralink.Prelude.{ℕ, ◌≡◌, inl, inr, refl, Text, All}
use auroralink.Prelude.Eq.{nat_eq, text_eq, pair_eq}
use auroralink.Client.Types.{EgdSubCallbackInfo, Resolver, Replies}
use auroralink.Client.Poll.{ConfigService}
use auroralink.Client.Threads.{
  System, enter_subscribe, append_callback, publish_page, walk_on, move_thread, Step, enters,
  appends, publishes, hears, locks, visits, unlocks, Reach, here, next, new_system,
}
use auroralink.Client.Threads.Walks.{IsComplete, IsWalk-ended}
use auroralink.Client.Threads.Invariant.{callbacks_at-known, WalksHold, enter_cases, walks_stand}

module _ (service : ConfigService) (c_string : Text → Text) (resolver : Resolver) where
  open service use {Configs}

  enter-rounds :
      (replies : Replies) (h : Text) (p : ℕ) (cb : EgdSubCallbackInfo)
      (s : System service c_string resolver)
      → (enter_subscribe service c_string resolver replies h p cb s).rounds ≡ s.rounds
  enter-rounds replies h p cb s = elim (enter_cases service c_string resolver replies h p cb s) [
    | inl same ↦ rw same refl
    | inr (inl (_, waits)) ↦ rw waits refl
    | inr (inr (_, _, _, started)) ↦ rw started refl
  ]

  Step-rounds :
      {s t : System service c_string resolver}
      → Step service c_string resolver s t
      → WalksHold s.client s.phase
      → All IsComplete s.rounds
      → All IsComplete t.rounds
  unfolding append_callback publish_page move_thread walk_on
  Step-rounds {s} (enters replies h p cb idle) held done = rw (enter-rounds replies h p cb s) done
  Step-rounds (appends k cb waits still) held done = done
  Step-rounds (publishes replies h p page bytes idle) held done = done
  Step-rounds (hears k info r known waits) held done = done
  Step-rounds (locks k info m n known has) held done = done
  Step-rounds (visits k info w known is inside) held done = done
  Step-rounds {s} (unlocks k info w known is over) held done = (
    IsWalk-ended service c_string resolver w info.callbacks
        (rw (callbacks_at-known k info s.client known) at (held k w is)) over,
    done,
  )

  -- In every state that a new client and its threads reach, by any order of their steps, each walk
  -- that has ended called exactly the callbacks that care about its message, of those that were
  -- subscribed when it took the lock, each once and in the order of subscription, with the
  -- message's header, payload and length, and with the status `ok` only if the page handed over
  -- has the header's signature.
  pub rounds_are_whole :
      (cs : Configs) (s : System service c_string resolver)
      → Reach service c_string resolver (new_system service c_string resolver cs) s
      → All IsComplete s.rounds
  rounds_are_whole cs s here = tt
  rounds_are_whole cs s (next {t} r st) =
      Step-rounds st (walks_stand service c_string resolver cs t r) (rounds_are_whole cs t r)

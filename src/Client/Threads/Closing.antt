-- ===== src/Client/Threads/Closing.antt =====
-- libEGD-master/src/egd/client/egd_client.cpp, `~EgdClient`, while the polling threads run; and
-- what becomes of the user data of a `JsonClient` (client/json_client.hpp), whose members go before
-- the destructor of its base class begins.
mod Tests
pub mod Order
pub mod Draining
pub mod Progress
use auroralink.Prelude.{
  ℕ, ◌≡◌, ◌≢◌, ◌⊎◌, inl, inr, refl, ap, sym, subst, ◌∙◌, Text, Bool, true, false, some, List, [],
  ◌∷◌, ◌++◌, map, length, ◌<◌, All, All-weaken, true_not_false, arith, Bool-cases, if◌then◌else◌,
}
use auroralink.Prelude.Eq.{nat_eq, text_eq, pair_eq}
use auroralink.Prelude.Assoc.{find, beq_self}
use auroralink.Spec.{DataProductionMessage}
use auroralink.Client.Types.{
  EgdSubInfo, EgdSubCallbackInfo, EgdSubKey, EgdPubKey, Resolver, Replies,
}
use auroralink.Prelude.Order.{in_order, keys}
use auroralink.Client.Subscribe.{sub_key_less, pub_key_less}
use auroralink.Client.Poll.{ConfigService}
use auroralink.Client.Threads.{
  Walk, Phase, waiting, received, walking, free, set_phase, System, enter_subscribe,
  append_callback, publish_page, walk_on, move_thread, Step, enters, appends, publishes, hears,
  locks, visits, unlocks,
}
use auroralink.Client.Threads.Invariant.{enter_cases}

module _ (service : ConfigService) (c_string : Text → Text) (resolver : Resolver) where
  -- A client on its way out. `alive` ends where the destructor of the class begins, which frees
  -- the members of a `JsonClient`; `left` are the subscribers that `~EgdClient` has not joined, and
  -- `closed` those whose sockets it has closed, the last one first, and so for the publishers.
  pub record Ending : Type 0 where
    pub system : System service c_string resolver
    pub alive : Bool
    pub run_flag : Bool
    pub exited : EgdSubKey → Bool
    pub left : List EgdSubKey
    pub closed : List EgdSubKey
    pub left_publishers : List EgdPubKey
    pub closed_publishers : List EgdPubKey

  abbrev pub living : System service c_string resolver → Ending
  living s = record {
    system = s;
    alive = true;
    run_flag = true;
    exited = λ k. false;
    left = [];
    closed = [];
    left_publishers = [];
    closed_publishers = [];
  }

  -- The user's calls end with the client. A thread tests the flag before it polls its socket; the
  -- test and the datagram that it then receives are one step.
  abbrev pub Allowed :
      {s t : System service c_string resolver}
      → Bool
      → Bool
      → Step service c_string resolver s t
      → Type 0
  Allowed alive run_flag (enters replies h p cb idle) = alive ≡ true
  Allowed alive run_flag (appends k cb waits still) = alive ≡ true
  Allowed alive run_flag (publishes replies h p page bytes idle) = alive ≡ true
  Allowed alive run_flag (hears k info r known waits) = run_flag ≡ true
  Allowed alive run_flag (locks k info m n known has) = Unit
  Allowed alive run_flag (visits k info w known is inside) = Unit
  Allowed alive run_flag (unlocks k info w known is over) = Unit

  abbrev pub set_exited : EgdSubKey → (EgdSubKey → Bool) → EgdSubKey → Bool
  set_exited k exited j = if pair_eq.beq k j then true else exited j

  pub data EndStep (e : Ending) : Ending → Type 0 where
    goes :
        {t : System service c_string resolver} (st : Step service c_string resolver e.system t)
        → Allowed e.alive e.run_flag st
        → EndStep e (record e { system = t })
    frees : e.alive ≡ true → e.system.user ≡ free → EndStep e (record e { alive = false })
    stops :
        e.alive ≡ false
        → e.run_flag ≡ true
        → EndStep e (record e {
          run_flag = false;
          left = keys sub_key_less (in_order sub_key_less e.system.client.subscriber_map);
          left_publishers = keys pub_key_less (in_order pub_key_less e.system.client.publisher_map);
        })
    exits :
        (k : EgdSubKey)
        → e.run_flag ≡ false
        → e.system.phase k ≡ waiting
        → EndStep e (record e { exited = set_exited k e.exited })
    joins :
        (k : EgdSubKey) (rest : List EgdSubKey)
        → e.run_flag ≡ false
        → e.left ≡ k ∷ rest
        → e.exited k ≡ true
        → EndStep e (record e { left = rest; closed = k ∷ e.closed })
    shuts :
        (k : EgdPubKey) (rest : List EgdPubKey)
        → e.run_flag ≡ false
        → e.left ≡ []
        → e.left_publishers ≡ k ∷ rest
        → EndStep e
            (record e { left_publishers = rest; closed_publishers = k ∷ e.closed_publishers })

  pub data EndReach (e : Ending) : Ending → Type 0 where
    here : EndReach e e
    next : {f g : Ending} → EndReach e f → EndStep f g → EndReach e g

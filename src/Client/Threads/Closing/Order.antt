-- ===== src/Client/Threads/Closing/Order.antt =====
-- `~EgdClient` closes a socket when its thread has left the loop, and not before.
use auroralink.Prelude.{
  ℕ, ◌≡◌, ◌≢◌, inl, inr, refl, ap, sym, subst, ◌∙◌, Text, Bool, true, false, some, length, ◌<◌, All,
  All-weaken, true_not_false, Bool-cases,
}
use auroralink.Prelude.Eq.{nat_eq, text_eq, pair_eq}
use auroralink.Prelude.Assoc.{find}
use auroralink.Spec.{DataProductionMessage}
use auroralink.Client.Types.{EgdSubInfo, EgdSubCallbackInfo, EgdSubKey, Resolver, Replies}
use auroralink.Client.Poll.{ConfigService}
use auroralink.Client.Threads.{
  Walk, Phase, waiting, received, walking, free, set_phase, System, enter_subscribe,
  append_callback, publish_page, walk_on, move_thread, Step, enters, appends, publishes, hears,
  locks, visits, unlocks,
}
use auroralink.Client.Threads.Invariant.{enter_cases}
use auroralink.Client.Threads.Closing.{
  Ending, living, Allowed, set_exited, EndStep, goes, frees, stops, exits, joins, shuts, EndReach,
  here, next,
}

walking_not_waiting : {w : Walk} → walking w ≢ waiting
walking_not_waiting e = cc

received_not_waiting : {m : DataProductionMessage} {n : ℕ} → received m n ≢ waiting
received_not_waiting e = cc

module _ (service : ConfigService) (c_string : Text → Text) (resolver : Resolver) where
  -- A thread that has left its loop is at its head, and the flag is down.
  record HasLeft (e : Ending service c_string resolver) (k : EgdSubKey) : Type 0 where
    flag_down : e.run_flag ≡ false
    at_head : e.system.phase k ≡ waiting

  set_phase-waiting :
      (k j : EgdSubKey) (p : Phase) (phase : EgdSubKey → Phase)
      → phase j ≡ waiting
      → phase k ≢ waiting
      → set_phase k p phase j ≡ waiting
  unfolding set_phase
  set_phase-waiting k j p phase at_head busy = elim (Bool-cases (pair_eq.beq k j)) [
    | inl same ↦ absurd (busy (ap phase ((pair_eq.beq_iff k j).0 same) ∙ at_head))
    | inr other ↦ rw other at_head
  ]

  enters-waiting :
      (replies : Replies) (h : Text) (p : ℕ) (cb : EgdSubCallbackInfo)
      (s : System service c_string resolver) (j : EgdSubKey)
      → s.phase j ≡ waiting
      → (enter_subscribe service c_string resolver replies h p cb s).phase j ≡ waiting
  unfolding set_phase
  enters-waiting replies h p cb s j at_head =
      elim (enter_cases service c_string resolver replies h p cb s) [
        | inl same ↦ rw same at_head
        | inr (inl (_, waits)) ↦ rw waits at_head
        | inr (inr (_, _, _, started)) ↦ rw started (elim (Bool-cases (pair_eq.beq (h, p) j)) [
          | inl mine ↦ rw mine refl
          | inr other ↦ rw other at_head
        ])
      ]

  goes-waiting :
      {s t : System service c_string resolver} (alive : Bool)
      (st : Step service c_string resolver s t) (j : EgdSubKey)
      → Allowed service c_string resolver alive false st
      → s.phase j ≡ waiting
      → t.phase j ≡ waiting
  unfolding append_callback publish_page move_thread walk_on set_phase
  goes-waiting {s} alive (enters replies h p cb idle) j ok at_head =
      enters-waiting replies h p cb s j at_head
  goes-waiting alive (appends k cb waits still) j ok at_head = at_head
  goes-waiting alive (publishes replies h p page bytes idle) j ok at_head = at_head
  goes-waiting alive (hears k info r known waits) j ok at_head = absurd (true_not_false (sym ok))
  goes-waiting {s} alive (locks k info m n known has) j ok at_head =
      set_phase-waiting k j _ s.phase at_head (λ e. received_not_waiting (sym has ∙ e))
  goes-waiting {s} alive (visits k info w known is inside) j ok at_head =
      set_phase-waiting k j _ s.phase at_head (λ e. walking_not_waiting (sym is ∙ e))
  goes-waiting {s} alive (unlocks k info w known is over) j ok at_head =
      set_phase-waiting k j _ s.phase at_head (λ e. walking_not_waiting (sym is ∙ e))

  record Inv (e : Ending service c_string resolver) : Type 0 where
    exited_left : (k : EgdSubKey) → e.exited k ≡ true → HasLeft e k
    closed_exited : All (λ k. e.exited k ≡ true) e.closed

  exits-HasLeft :
      (e : Ending service c_string resolver) (k : EgdSubKey)
      → HasLeft e k
      → Inv e
      → (j : EgdSubKey) → set_exited service c_string resolver k e.exited j ≡ true
      → HasLeft e j
  exits-HasLeft e k left inv j h = elim (Bool-cases (pair_eq.beq k j)) [
    | inl same ↦ subst (HasLeft e) ((pair_eq.beq_iff k j).0 same) left
    | inr other ↦ inv.exited_left j (rw other at h)
  ]

  still_exited :
      (k : EgdSubKey) (exited : EgdSubKey → Bool) (j : EgdSubKey)
      → exited j ≡ true
      → set_exited service c_string resolver k exited j ≡ true
  still_exited k exited j h = elim (Bool-cases (pair_eq.beq k j)) [
    | inl same ↦ rw same refl
    | inr other ↦ rw other h
  ]

  EndStep-Inv :
      {e f : Ending service c_string resolver}
      → EndStep service c_string resolver e f
      → Inv e
      → Inv f
  EndStep-Inv {e} (goes {t} st ok) inv = record {
    exited_left = λ k h.
        let left = inv.exited_left k h in
        record {
          flag_down = left.flag_down;
          at_head =
              goes-waiting e.alive st k
                (subst (λ b. Allowed service c_string resolver e.alive b st) left.flag_down ok)
                left.at_head;
        };
    closed_exited = inv.closed_exited;
  }
  EndStep-Inv (frees living idle) inv = record {
    exited_left = λ k h. record {
      flag_down = (inv.exited_left k h).flag_down;
      at_head = (inv.exited_left k h).at_head;
    };
    closed_exited = inv.closed_exited;
  }
  EndStep-Inv (stops gone up) inv = record {
    exited_left = λ k h. absurd (true_not_false (sym up ∙ (inv.exited_left k h).flag_down));
    closed_exited = inv.closed_exited;
  }
  EndStep-Inv {e} (exits k down at_head) inv = record {
    exited_left = λ j h.
        let left = exits-HasLeft e k (record { flag_down = down; at_head = at_head }) inv j h in
        record { flag_down = left.flag_down; at_head = left.at_head };
    closed_exited =
        All-weaken (λ j. e.exited j ≡ true)
          (λ j. set_exited service c_string resolver k e.exited j ≡ true) e.closed
          (still_exited k e.exited) inv.closed_exited;
  }
  EndStep-Inv (joins k rest down is exited) inv = record {
    exited_left = λ j h. record {
      flag_down = (inv.exited_left j h).flag_down;
      at_head = (inv.exited_left j h).at_head;
    };
    closed_exited = (exited, inv.closed_exited);
  }
  EndStep-Inv (shuts k rest down none_left is) inv = record {
    exited_left = λ j h.
        let left = inv.exited_left j h in
        record { flag_down = left.flag_down; at_head = left.at_head };
    closed_exited = inv.closed_exited;
  }

  EndReach-Inv :
      {s : System service c_string resolver} {e : Ending service c_string resolver}
      → EndReach service c_string resolver (living service c_string resolver s) e
      → Inv e
  EndReach-Inv here = record {
    exited_left = λ k h. absurd (true_not_false (sym h));
    closed_exited = tt;
  }
  EndReach-Inv (next r st) = EndStep-Inv st (EndReach-Inv r)

  -- However a client's end runs against its threads, from any state: the thread of each endpoint
  -- whose socket is closed is at the head of its loop, and the flag is down, so that it reads its
  -- socket no more and calls no callback.
  pub closed_at_head :
      (s : System service c_string resolver) (e : Ending service c_string resolver)
      → EndReach service c_string resolver (living service c_string resolver s) e
      → All (λ k. (e.run_flag ≡ false) × (e.system.phase k ≡ waiting)) e.closed
  closed_at_head s e r =
      let inv = EndReach-Inv r in
      All-weaken (λ k. e.exited k ≡ true) (λ k. (e.run_flag ≡ false) × (e.system.phase k ≡ waiting))
        e.closed (λ k h. ((inv.exited_left k h).flag_down, (inv.exited_left k h).at_head))
        inv.closed_exited

  -- The members of a `JsonClient` may be gone while a thread still walks over its callbacks, whose
  -- user data they hold: there is a run on which the next callback is called then.
  pub visit_after_free :
      (s : System service c_string resolver) (k : EgdSubKey) (info : EgdSubInfo) (w : Walk)
      → s.user ≡ free
      → find k s.client.subscriber_map ≡ some info
      → s.phase k ≡ walking w
      → w.next_callback < length info.callbacks
      → (e : Ending service c_string resolver) × EndReach service c_string resolver
          (record (living service c_string resolver s) { alive = false })
          e
        × (e.alive ≡ false)
        × (e.system ≡ walk_on service c_string resolver k info w s)
  visit_after_free s k info w idle known is inside = (
    record (living service c_string resolver s) {
      alive = false;
      system = walk_on service c_string resolver k info w s;
    },
    next here (goes (visits k info w known is inside) tt),
    refl,
    refl,
  )

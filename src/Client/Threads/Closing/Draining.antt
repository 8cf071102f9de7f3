-- ===== src/Client/Threads/Closing/Draining.antt =====
-- The polling threads while `~EgdClient` waits for them: each comes to the head of its loop.
use auroralink.Prelude.{
  ℕ, zero, suc, ◌+◌, ◌≡◌, inl, inr, refl, ap, sym, ◌∙◌, Text, some, List, [], ◌∷◌, ◌++◌, length,
  length-append, arith,
}
use auroralink.Prelude.Eq.{nat_eq, text_eq, pair_eq}
use auroralink.Prelude.Assoc.{find, find-assigned}
use auroralink.Spec.{DataProductionMessage}
use auroralink.Client.Types.{EgdSubInfo, EgdSubCallbackInfo, EgdSubKey, Resolver}
use auroralink.Client.Poll.{ConfigService}
use auroralink.Client.Threads.{
  Walk, Phase, waiting, received, walking, first_walk, System, visit_at, walk_on, move_thread,
  append_callback, publish_page, Step, enters, appends, publishes, hears, locks, visits, unlocks,
  Reach, next, new_system,
}
use auroralink.Client.Threads.Invariant.{
  callbacks_at-known, enter_cases, publish-subscribers, walks_stand,
}
use auroralink.Client.Threads.Alone.{set_phase_here}
use auroralink.Client.Threads.Progress.{IsKnown, IsKnown-assign}
use auroralink.Client.Threads.Closing.{Ending, Allowed, goes, EndReach}

module _ (service : ConfigService) (c_string : Text → Text) (resolver : Resolver) where
  open service use {Configs}

  length-visit_at :
      (cs : Configs) (m : DataProductionMessage) (n i : ℕ) (cbs : List EgdSubCallbackInfo)
      → length (visit_at service c_string resolver cs m n i cbs).1 ≡ length cbs
  unfolding visit_at
  length-visit_at cs m n i [] = refl
  length-visit_at cs m n zero (cb ∷ cbs) = refl
  length-visit_at cs m n (suc i) (cb ∷ cbs) = ap suc (length-visit_at cs m n i cbs)

  -- No step takes a subscriber away.
  pub Step-IsKnown :
      {s t : System service c_string resolver} (j : EgdSubKey)
      → Step service c_string resolver s t
      → IsKnown j s.client
      → IsKnown j t.client
  unfolding append_callback publish_page move_thread walk_on
  Step-IsKnown {s} j (enters replies h p cb idle) held =
      elim (enter_cases service c_string resolver replies h p cb s) [
        | inl same ↦ rw same held
        | inr (inl (_, waits)) ↦ rw waits held
        | inr (inr (info, _, _, started)) ↦ rw started (IsKnown-assign (h, p) j info s.client held)
      ]
  Step-IsKnown {s} j (appends k cb waits still) held = IsKnown-assign k j _ s.client held
  Step-IsKnown {s} j (publishes replies h p page bytes idle) held =
      rw (publish-subscribers service c_string resolver replies h p page bytes s.client) held
  Step-IsKnown j (hears k info r known waits) held = held
  Step-IsKnown j (locks k info m n known has) held = held
  Step-IsKnown {s} j (visits k info w known is inside) held = IsKnown-assign k j _ s.client held
  Step-IsKnown j (unlocks k info w known is over) held = held

  abbrev pub End : Type 0
  End = Ending service c_string resolver

  -- Steps of the threads alone.
  pub record Drains (e f : End) : Type 0 where
    pub moves : EndReach service c_string resolver e f
    pub flag_stays : f.run_flag ≡ e.run_flag
    pub left_stays : f.left ≡ e.left
    pub closed_stays : f.closed ≡ e.closed
    pub publishers_stay : f.left_publishers ≡ e.left_publishers
    pub closed_publishers_stay : f.closed_publishers ≡ e.closed_publishers
    pub known_stays : (j : EgdSubKey) → IsKnown j e.system.client → IsKnown j f.system.client
    pub reach_on :
        (s : System service c_string resolver)
        → Reach service c_string resolver s e.system
        → Reach service c_string resolver s f.system

  pub EndReach-trans :
      {e f g : End}
      → EndReach service c_string resolver e f
      → EndReach service c_string resolver f g
      → EndReach service c_string resolver e g
  EndReach-trans r EndReach.here = r
  EndReach-trans r (EndReach.next r' st) = EndReach.next (EndReach-trans r r') st

  goes-Drains :
      (e : End) {t : System service c_string resolver}
      (st : Step service c_string resolver e.system t)
      → Allowed service c_string resolver e.alive e.run_flag st
      → Drains e (record e { system = t })
  goes-Drains e st ok = record {
    moves = EndReach.next EndReach.here (goes st ok);
    flag_stays = refl;
    left_stays = refl;
    closed_stays = refl;
    publishers_stay = refl;
    closed_publishers_stay = refl;
    known_stays = λ j held. Step-IsKnown j st held;
    reach_on = λ s r. next r st;
  }

  Drains-refl : (e : End) → Drains e e
  Drains-refl e = record {
    moves = EndReach.here;
    flag_stays = refl;
    left_stays = refl;
    closed_stays = refl;
    publishers_stay = refl;
    closed_publishers_stay = refl;
    known_stays = λ j held. held;
    reach_on = λ s r. r;
  }

  Drains-trans : {e f g : End} → Drains e f → Drains f g → Drains e g
  Drains-trans m n = record {
    moves = EndReach-trans m.moves n.moves;
    flag_stays = n.flag_stays ∙ m.flag_stays;
    left_stays = n.left_stays ∙ m.left_stays;
    closed_stays = n.closed_stays ∙ m.closed_stays;
    publishers_stay = n.publishers_stay ∙ m.publishers_stay;
    closed_publishers_stay = n.closed_publishers_stay ∙ m.closed_publishers_stay;
    known_stays = λ j held. n.known_stays j (m.known_stays j held);
    reach_on = λ s r. n.reach_on s (m.reach_on s r);
  }

  -- A walk that has `n` callbacks before it.
  walk_runs_out :
      (n : ℕ) (e : End) (k : EgdSubKey) (info : EgdSubInfo) (w : Walk)
      → find k e.system.client.subscriber_map ≡ some info
      → e.system.phase k ≡ walking w
      → w.next_callback + n ≡ length info.callbacks
      → (f : End) × Drains e f × (f.system.phase k ≡ waiting)
  unfolding walk_on move_thread
  walk_runs_out zero e k info w known is place = (
    record e {
      system =
          move_thread service c_string resolver k waiting
            (record e.system { rounds = w ∷ e.system.rounds });
    },
    goes-Drains e (unlocks k info w known is (omega (arith, place))) tt,
    set_phase_here k waiting e.system.phase,
  )
  walk_runs_out (suc n) e k info w known is place =
      let va =
        visit_at service c_string resolver e.system.configs w.message w.data_len w.next_callback
          info.callbacks in
      let w1 = record w { next_callback = suc w.next_callback; made = w.made ++ va.2 } in
      let first = goes-Drains e (visits k info w known is (omega (arith, place))) tt in
      let (f, rest, waits) =
        walk_runs_out n (record e { system = walk_on service c_string resolver k info w e.system })
          k (record info { callbacks = va.1 }) w1
          (find-assigned k (record info { callbacks = va.1 }) e.system.client.subscriber_map)
          (set_phase_here k (walking w1) e.system.phase)
          (omega (
            arith,
            place,
            length-visit_at e.system.configs w.message w.data_len w.next_callback info.callbacks,
          )) in
      (f, Drains-trans first rest, waits)

  -- A thread comes to the head of its loop without another message.
  pub thread_comes_back :
      (cs : Configs) (e : End) (k : EgdSubKey)
      → Reach service c_string resolver (new_system service c_string resolver cs) e.system
      → IsKnown k e.system.client
      → (p : Phase) → e.system.phase k ≡ p
      → (f : End) × Drains e f × (f.system.phase k ≡ waiting)
  unfolding move_thread
  thread_comes_back cs e k r (info, known) waiting is = (e, Drains-refl e, is)
  thread_comes_back cs e k r (info, known) (received m n) is =
      let w = first_walk m n info.callbacks in
      let (f, rest, waits) =
        walk_runs_out (length info.callbacks)
          (record e { system = move_thread service c_string resolver k (walking w) e.system }) k
          info w known (set_phase_here k (walking w) e.system.phase) (omega arith) in
      (f, Drains-trans (goes-Drains e (locks k info m n known is) tt) rest, waits)
  thread_comes_back cs e k r (info, known) (walking w) is =
      let (seen, done, rest, found, now, place, _, _, _) =
        walks_stand service c_string resolver cs e.system r k w is in
      walk_runs_out (length rest) e k info w known is (
        omega (
          arith,
          place,
          length-append done rest,
          ap length (sym (callbacks_at-known k info e.system.client known) ∙ now),
        ))

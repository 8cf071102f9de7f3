-- ===== src/Client/Threads/Closing/Progress.antt =====
-- `~EgdClient` comes to its end, whatever its threads do when it begins.
use auroralink.Prelude.{
  ◌≡◌, inl, inr, refl, subst, ◌∙◌, Text, false, some, List, [], ◌∷◌, map, All, All-weaken,
  Bool-cases,
}
use mathlib.Core.List.{reverse_aux}
use auroralink.Prelude.Eq.{nat_eq, text_eq, pair_eq}
use auroralink.Prelude.Order.{in_order-All}
use auroralink.Client.Subscribe.{sub_key_less}
use auroralink.Prelude.Assoc.{Map, find, beq_self}
use auroralink.Client.Types.{EgdSubInfo, EgdSubKey, EgdPubKey, Resolver}
use auroralink.Client.Poll.{ConfigService}
use auroralink.Client.Threads.{Reach, here, next, new_system}
use auroralink.Client.Threads.Progress.{IsKnown}
use auroralink.Client.Threads.Closing.{
  Ending, living, set_exited, EndStep, goes, frees, stops, exits, joins, shuts, EndReach,
}
use auroralink.Client.Threads.Closing.Draining.{
  Step-IsKnown, End, EndReach-trans, thread_comes_back,
}

-- Every key of a map has an entry.
keys_known :
    (m : Map EgdSubKey EgdSubInfo)
    → All
        (λ k. (info : EgdSubInfo) × (find k m ≡ some info))
        (map (λ (entry : EgdSubKey × EgdSubInfo). entry.0) m)
unfolding find
keys_known [] = tt
keys_known ((k, info) ∷ m) = (
  (info, rw (beq_self {K = EgdSubKey} k) refl),
  All-weaken (λ j. (i : EgdSubInfo) × (find j m ≡ some i))
      (λ j. (i : EgdSubInfo) × (find j ((k, info) ∷ m) ≡ some i))
      (map (λ (entry : EgdSubKey × EgdSubInfo). entry.0) m)
      (λ j (i, known). elim (Bool-cases (pair_eq.beq k j)) [
        | inl same ↦ (info, rw same refl)
        | inr other ↦ (i, rw other known)
      ])
      (keys_known m),
)

module _ (service : ConfigService) (c_string : Text → Text) (resolver : Resolver) where
  open service use {Configs}

  -- What the loop of the destructor leaves.
  abbrev Ends : End service c_string resolver → Type 0
  Ends e =
      (f : End service c_string resolver) × EndReach service c_string resolver e f
      × (f.left ≡ [])
      × (f.left_publishers ≡ [])
      × (f.closed ≡ reverse_aux e.left e.closed)
      × (f.closed_publishers ≡ reverse_aux e.left_publishers e.closed_publishers)

  publishers_close :
      (publishers : List EgdPubKey) (e : End service c_string resolver)
      → e.left_publishers ≡ publishers
      → e.left ≡ []
      → e.run_flag ≡ false
      → Ends e
  publishers_close [] e is joined down = (e, EndReach.here, joined, is, rw joined refl, rw is refl)
  publishers_close (k ∷ publishers) e is joined down =
      let g = record e {
        left_publishers = publishers;
        closed_publishers = k ∷ e.closed_publishers;
      } in
      let (f, reached, none_left, none_open, closed, closed_publishers) =
        publishers_close publishers g refl joined down in
      (
        f,
        EndReach-trans service c_string resolver
            (EndReach.next EndReach.here (shuts k publishers down joined is)) reached,
        none_left,
        none_open,
        closed,
        closed_publishers ∙ rw is refl,
      )

  threads_join :
      (cs : Configs) (left : List EgdSubKey) (e : End service c_string resolver)
      → e.left ≡ left
      → e.run_flag ≡ false
      → Reach service c_string resolver (new_system service c_string resolver cs) e.system
      → All (λ k. IsKnown k e.system.client) left
      → Ends e
  threads_join cs [] e is down r known = publishers_close e.left_publishers e refl is down
  threads_join cs (k ∷ left) e is down r (known, others) =
      let (f, drained, waits) =
        thread_comes_back service c_string resolver cs e k r known (e.system.phase k) refl in
      let down_f = drained.flag_stays ∙ down in
      let g = record f { exited = set_exited service c_string resolver k f.exited } in
      let h = record g { left = left; closed = k ∷ g.closed } in
      let to_h : EndReach service c_string resolver e h =
        EndReach.next (EndReach.next drained.moves (exits k down_f waits))
          (joins k left down_f (drained.left_stays ∙ is) (rw (beq_self k) refl)) in
      let (last, reached, none_left, none_open, closed, closed_publishers) =
        threads_join cs left h refl down_f
          (drained.reach_on (new_system service c_string resolver cs) r)
          (All-weaken (λ j. IsKnown j e.system.client) (λ j. IsKnown j f.system.client) left
            drained.known_stays others) in
      (
        last,
        EndReach-trans service c_string resolver to_h reached,
        none_left,
        none_open,
        closed ∙ rw (drained.closed_stays, is) refl,
        closed_publishers ∙ rw (drained.publishers_stay, drained.closed_publishers_stay) refl,
      )

  -- The destructor only waits for threads that there are.
  record LeftKnown (cs : Configs) (e : End service c_string resolver) : Type 0 where
    reached : Reach service c_string resolver (new_system service c_string resolver cs) e.system
    left_known : All (λ k. IsKnown k e.system.client) e.left

  EndStep-LeftKnown :
      (cs : Configs) {e f : End service c_string resolver}
      → EndStep service c_string resolver e f
      → LeftKnown cs e
      → LeftKnown cs f
  EndStep-LeftKnown cs {e} (goes {t} st ok) held = record {
    reached = next held.reached st;
    left_known =
        All-weaken (λ j. IsKnown j e.system.client) (λ j. IsKnown j t.client) e.left
          (λ j known. Step-IsKnown service c_string resolver j st known) held.left_known;
  }
  EndStep-LeftKnown cs (frees living idle) held = record {
    reached = held.reached;
    left_known = held.left_known;
  }
  EndStep-LeftKnown cs {e} (stops gone up) held = record {
    reached = held.reached;
    left_known =
        in_order-All sub_key_less (λ j. IsKnown j e.system.client) e.system.client.subscriber_map
          (keys_known e.system.client.subscriber_map);
  }
  EndStep-LeftKnown cs (exits k down at_head) held = record {
    reached = held.reached;
    left_known = held.left_known;
  }
  EndStep-LeftKnown cs {e} (joins k rest down is exited) held = record {
    reached = held.reached;
    left_known = (subst (All (λ j. IsKnown j e.system.client)) is held.left_known).1;
  }
  EndStep-LeftKnown cs (shuts k rest down none_left is) held = record {
    reached = held.reached;
    left_known = held.left_known;
  }

  EndReach-LeftKnown :
      (cs : Configs) {e : End service c_string resolver}
      → EndReach service c_string resolver
          (living service c_string resolver (new_system service c_string resolver cs))
          e
      → LeftKnown cs e
  EndReach-LeftKnown cs EndReach.here = record { reached = here; left_known = tt }
  EndReach-LeftKnown cs (EndReach.next r st) = EndStep-LeftKnown cs st (EndReach-LeftKnown cs r)

  -- In every state that a new client, its threads and its destructor reach once the flag is down,
  -- in whatever callback a thread is, the destructor can still end: there is a run on which it
  -- joins every thread that is left and closes their sockets, then those of the publishers, each in
  -- the order in which they are left.
  pub destructor_ends :
      (cs : Configs) (e : Ending service c_string resolver)
      → EndReach service c_string resolver
          (living service c_string resolver (new_system service c_string resolver cs))
          e
      → e.run_flag ≡ false
      → (f : Ending service c_string resolver) × EndReach service c_string resolver e f
        × (f.left ≡ [])
        × (f.left_publishers ≡ [])
        × (f.closed ≡ reverse_aux e.left e.closed)
        × (f.closed_publishers ≡ reverse_aux e.left_publishers e.closed_publishers)
  destructor_ends cs e r down =
      let held = EndReach-LeftKnown cs r in
      threads_join cs e.left e refl down held.reached held.left_known

-- ===== src/Client/Threads/Closing/Tests.antt =====
-- Tests of the end of a client: its one subscriber is joined and its socket closed; and a thread
-- that walks when the flag goes down.
use auroralink.Prelude.{◌≡◌, refl, sym, ◌∙◌, true, false, codes, [], ◌∷◌, All}
use mathlib.Core.List.{reverse_aux}
use auroralink.Prelude.Eq.{nat_eq, text_eq, pair_eq}
use auroralink.Prelude.Order.{in_order, place, keys}
use auroralink.Client.Subscribe.{sub_key_less, pub_key_less}
use auroralink.Prelude.Assoc.{beq_self}
use auroralink.Client.Poll.{arrival}
use auroralink.Client.Threads.{
  waiting, free, enter_subscribe, append_callback, enters, appends, hears, locks,
}
use auroralink.Client.Threads.Tests.{
  service, c_string, endpoint, subscribed, subscribed-waiting, fresh_system, info, datagram,
  message, data_len, locked, entered-waiting, entered-adding, idle_thread, subscribed-known,
  heard-received, heard-known, locked-free,
}
use auroralink.Client.Threads.Closing.{
  Ending, living, set_exited, EndReach, goes, frees, stops, exits, joins, here, next,
}
use auroralink.Client.Threads.Closing.Order.{closed_at_head}
use auroralink.Client.Threads.Closing.Progress.{destructor_ends}
use auroralink.Samples.{sample_resolver, sample_replies, sample_callback, sample_objects}

abbrev Last : Type 0
Last = Ending service c_string sample_resolver

abbrev alive_one : Last
alive_one = living service c_string sample_resolver subscribed

abbrev freed : Last
freed = record alive_one { alive = false }

abbrev stopped : Last
stopped = record freed { run_flag = false; left = endpoint ∷ [] }

abbrev exited_one : Last
exited_one = record stopped {
  exited = set_exited service c_string sample_resolver endpoint stopped.exited;
}

abbrev joined : Last
joined = record exited_one { left = []; closed = endpoint ∷ [] }

subscribed-free : subscribed.user ≡ free
unfolding append_callback
subscribed-free = refl

exited_here : exited_one.exited endpoint ≡ true
exited_here = rw (beq_self endpoint) refl

freed-EndReach : EndReach service c_string sample_resolver alive_one freed
freed-EndReach = next here (frees refl subscribed-free)

stopped-EndReach : EndReach service c_string sample_resolver alive_one stopped
unfolding enter_subscribe append_callback in_order place
stopped-EndReach = next freed-EndReach (stops refl refl)

joined-EndReach : EndReach service c_string sample_resolver alive_one joined
joined-EndReach =
    next (next stopped-EndReach (exits endpoint refl subscribed-waiting))
      (joins endpoint [] refl refl exited_here)

closed_at_head_example :
    All (λ k. (joined.run_flag ≡ false) × (joined.system.phase k ≡ waiting)) joined.closed
closed_at_head_example =
    closed_at_head service c_string sample_resolver subscribed joined joined-EndReach

abbrev fresh : Last
fresh = living service c_string sample_resolver fresh_system

abbrev walking_one : Last
walking_one = record fresh { system = locked }

abbrev walking_freed : Last
walking_freed = record walking_one { alive = false }

abbrev walking_stopped : Last
walking_stopped = record walking_freed {
  run_flag = false;
  left = keys sub_key_less (in_order sub_key_less locked.client.subscriber_map);
  left_publishers = keys pub_key_less (in_order pub_key_less locked.client.publisher_map);
}

walking_stopped-EndReach : EndReach service c_string sample_resolver fresh walking_stopped
walking_stopped-EndReach =
    next
      (next
        (next
          (next
            (next (next here (goes (enters sample_replies (codes "h") 9 sample_callback refl) refl))
              (goes
                (appends endpoint sample_callback entered-adding
                  (λ w e. idle_thread (sym entered-waiting ∙ e)))
                refl))
            (goes (hears endpoint info (arrival [] datagram) subscribed-known subscribed-waiting)
              refl))
          (goes (locks endpoint info message data_len heard-known heard-received) tt))
        (frees refl locked-free))
      (stops refl refl)

destructor_ends_example :
    (f : Last) × EndReach service c_string sample_resolver walking_stopped f
    × (f.left ≡ [])
    × (f.left_publishers ≡ [])
    × (f.closed ≡ reverse_aux walking_stopped.left walking_stopped.closed)
    × (f.closed_publishers
        ≡ reverse_aux walking_stopped.left_publishers walking_stopped.closed_publishers)
destructor_ends_example =
    destructor_ends service c_string sample_resolver sample_objects walking_stopped
      walking_stopped-EndReach refl

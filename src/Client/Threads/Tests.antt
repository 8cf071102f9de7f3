-- ===== src/Client/Threads/Tests.antt =====
-- Tests of a client with one thread: a subscription, a datagram, and a second subscription that
-- comes while the thread walks.
use auroralink.Prelude.{
  ℕ, ◌<◌, ◌≡◌, ◌≢◌, refl, sym, ◌∙◌, Text, codes, some, List, [], ◌∷◌, ◌++◌, All, arith, replicate,
  length,
}
use auroralink.Prelude.Eq.{nat_eq, text_eq, pair_eq}
use auroralink.Prelude.Assoc.{find, find-assigned}
use auroralink.Spec.{DataProductionMessage}
use auroralink.Client.Types.{EgdSubInfo, EgdSubCallbackInfo, EgdSubKey}
use auroralink.Client.Connect.{subscribe_connect}
use auroralink.Client.Subscribe.{new_sub_info, add_callback}
use auroralink.Client.Poll.{
  ConfigService, Invocation, arrival, received_message, received_length, data_length_of,
}
use auroralink.Client.Poll.Dispatch.{target}
use auroralink.Client.Configs.{config_objects}
use auroralink.Client.Threads.{
  Walk, waiting, received, walking, free, adding, first_walk, hear_round, set_phase, System,
  enter_subscribe, append_callback, visit_at, walk_on, move_thread, enters, appends, hears, locks,
  visits, unlocks, Reach, here, next, new_system,
}
use auroralink.Client.Threads.Walks.{IsComplete}
use auroralink.Client.Threads.Complete.{rounds_are_whole}
use auroralink.Client.Threads.Subscriptions.{board, view, calls_of, BoardReach, system_refines}
use auroralink.Client.Threads.Alone.{set_phase_here}
use auroralink.Client.Threads.Progress.{subscribe_completes}
use auroralink.Samples.{
  sample_xml, sample_urls, sample_transfer, sample_objects, sample_resolver, sample_replies,
  sample_callback,
}

abbrev pub service : ConfigService
service = config_objects sample_xml sample_urls (λ n. sample_transfer)

abbrev pub c_string : Text → Text
c_string s = s

abbrev pub Sys : Type 0
Sys = System service c_string sample_resolver

abbrev pub fresh_system : Sys
fresh_system = new_system service c_string sample_resolver sample_objects

abbrev Reached : Sys → Type 0
Reached = Reach service c_string sample_resolver fresh_system

abbrev pub endpoint : EgdSubKey
endpoint = (codes "h", 9)

-- The subscriber with one callback.
abbrev pub info : EgdSubInfo
info = add_callback sample_callback (record new_sub_info {
  connection =
      (subscribe_connect sample_resolver sample_replies (codes "h") 9 new_sub_info.connection).0;
})

abbrev pub entered : Sys
entered =
    enter_subscribe service c_string sample_resolver sample_replies (codes "h") 9 sample_callback
      fresh_system

abbrev pub subscribed : Sys
subscribed = append_callback service c_string sample_resolver endpoint sample_callback entered

pub entered-waiting : entered.phase endpoint ≡ waiting
unfolding enter_subscribe set_phase
entered-waiting = refl

pub entered-adding : entered.user ≡ adding endpoint sample_callback
unfolding enter_subscribe
entered-adding = refl

pub idle_thread : {w : Walk} → waiting ≢ walking w
idle_thread e = cc

subscribed-Reached : Reached subscribed
subscribed-Reached =
    next (next here (enters sample_replies (codes "h") 9 sample_callback refl)) (
      appends endpoint sample_callback entered-adding
        (λ w e. idle_thread (sym entered-waiting ∙ e)))

pub subscribed-known : find endpoint subscribed.client.subscriber_map ≡ some info
unfolding enter_subscribe append_callback
subscribed-known = refl

pub subscribed-waiting : subscribed.phase endpoint ≡ waiting
unfolding enter_subscribe append_callback set_phase
subscribed-waiting = refl

-- Byte 2 of the header is its request number.
abbrev pub datagram : List ℕ
datagram = 13 ∷ 1 ∷ replicate 40 0

abbrev pub message : DataProductionMessage
message = received_message [] datagram

abbrev pub data_len : ℕ
data_len = data_length_of (received_length datagram)

abbrev pub heard : Sys
heard =
    move_thread service c_string sample_resolver endpoint (hear_round (arrival [] datagram))
      subscribed

heard_message : hear_round (arrival [] datagram) ≡ received message data_len
unfolding hear_round
heard_message = refl

pub heard-received : heard.phase endpoint ≡ received message data_len
unfolding move_thread
heard-received = set_phase_here endpoint _ subscribed.phase ∙ heard_message

abbrev pub walk : Walk
walk = first_walk message data_len info.callbacks

abbrev pub locked : Sys
locked = move_thread service c_string sample_resolver endpoint (walking walk) heard

pub heard-known : find endpoint heard.client.subscriber_map ≡ some info
unfolding move_thread
heard-known = subscribed-known

locked-Reached : Reached locked
locked-Reached =
    next
      (next subscribed-Reached
        (hears endpoint info (arrival [] datagram) subscribed-known subscribed-waiting))
      (locks endpoint info message data_len heard-known heard-received)

locked-walking : locked.phase endpoint ≡ walking walk
unfolding move_thread
locked-walking = set_phase_here endpoint (walking walk) heard.phase

-- The second subscription to the endpoint.
abbrev waiting_user : Sys
waiting_user =
    enter_subscribe service c_string sample_resolver sample_replies (codes "h") 9 sample_callback
      locked

pub locked-free : locked.user ≡ free
unfolding move_thread append_callback
locked-free = refl

waiting-Reached : Reached waiting_user
waiting-Reached =
    next locked-Reached (enters sample_replies (codes "h") 9 sample_callback locked-free)

waiting-adding : waiting_user.user ≡ adding endpoint sample_callback
unfolding move_thread append_callback enter_subscribe
waiting-adding = refl

subscribe_completes_example :
    (t : Sys) × Reach service c_string sample_resolver waiting_user t
    × (t.user ≡ free)
    × (board t.client endpoint ≡ board waiting_user.client endpoint ++ target sample_callback ∷ [])
subscribe_completes_example =
    subscribe_completes service c_string sample_resolver sample_objects waiting_user endpoint
      sample_callback waiting-Reached waiting-adding

system_refines_example :
    BoardReach
      (view service c_string sample_resolver fresh_system)
      (calls_of service c_string sample_resolver waiting-Reached)
      (view service c_string sample_resolver waiting_user)
system_refines_example = system_refines service c_string sample_resolver waiting-Reached

-- The walk goes on and ends.
abbrev walked : Sys
walked = walk_on service c_string sample_resolver endpoint info walk locked

abbrev visited : service.Configs × List EgdSubCallbackInfo × List Invocation
visited = visit_at service c_string sample_resolver locked.configs message data_len 0 info.callbacks

abbrev last_walk : Walk
last_walk = record walk { next_callback = 1; made = visited.2 }

abbrev last_info : EgdSubInfo
last_info = record info { callbacks = visited.1 }

locked-known : find endpoint locked.client.subscriber_map ≡ some info
unfolding move_thread
locked-known = heard-known

walked-known : find endpoint walked.client.subscriber_map ≡ some last_info
unfolding walk_on
walked-known = find-assigned endpoint last_info locked.client.subscriber_map

walked-walking : walked.phase endpoint ≡ walking last_walk
unfolding walk_on
walked-walking = set_phase_here endpoint (walking last_walk) locked.phase

one_visited : 1 ≡ length last_info.callbacks
unfolding add_callback visit_at
one_visited = refl

abbrev rounds : List Walk
rounds = last_walk ∷ walked.rounds

abbrev unlocked : Sys
unlocked =
    move_thread service c_string sample_resolver endpoint waiting
      (record walked { rounds = rounds })

one_callback : 0 < length info.callbacks
unfolding add_callback
one_callback = omega arith

unlocked-Reached : Reached unlocked
unlocked-Reached =
    next (next locked-Reached (visits endpoint info walk locked-known locked-walking one_callback))
      (unlocks endpoint last_info last_walk walked-known walked-walking one_visited)

rounds_are_whole_example : All IsComplete unlocked.rounds
rounds_are_whole_example =
    rounds_are_whole service c_string sample_resolver sample_objects unlocked unlocked-Reached

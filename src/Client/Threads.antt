-- ===== src/Client/Threads.antt =====
-- libEGD-master/src/egd/client/egd_client.cpp: `Subscribe` and `Publish` in the user's thread
-- beside the threads of `PollSocket`, one for each endpoint, with the lock of an endpoint's
-- callbacks. Only one thread of the user calls the client.
mod Tests
pub mod Walks
pub mod Invariant
pub mod Complete
pub mod Subscriptions
pub mod Alone
pub mod Rounds
pub mod Progress
pub mod Halves
pub mod Closing
use auroralink.Prelude.{
  ℕ, zero, suc, ◌<◌, ◌≡◌, ◌≢◌, Text, none, some, List, [], ◌∷◌, ◌++◌, length, ltb, if◌then◌else◌,
}
use auroralink.Prelude.Eq.{Eq, nat_eq, text_eq, pair_eq}
use auroralink.Prelude.Assoc.{find, assign, or_default}
use auroralink.Status.{is_ok}
use auroralink.Spec.{DataProductionMessage}
use auroralink.Config.Types.{EgdPageInfo}
use auroralink.Client.Types.{
  EgdSubInfo, EgdSubCallbackInfo, EgdSubKey, EgdClient, Resolver, Replies,
}
use auroralink.Client.Connect.{subscribe_connect}
use auroralink.Client.Publish.{publish}
use auroralink.Client.Subscribe.{new_sub_info, add_callback}
use auroralink.Client.Poll.{
  ConfigService, Invocation, Round, no_event, receive_error, arrival, received_message,
  received_length, data_length_of, visit,
}

-- A walk over the callbacks, under the read lock: the local message and the length that is handed
-- over, and the place of the next callback. `at_lock` is the list that the walk found, and `made`
-- are the calls so far.
pub record Walk : Type 0 where
  pub message : DataProductionMessage
  pub data_len : ℕ
  pub next_callback : ℕ
  pub at_lock : List EgdSubCallbackInfo
  pub made : List Invocation

-- Where a thread of `PollSocket` is: at the head of its loop, before the lock with a message, or
-- in its walk.
pub data Phase : Type 0 where
  waiting : Phase
  received : DataProductionMessage → ℕ → Phase
  walking : Walk → Phase

-- Where the user's thread is: in no call, or in a `Subscribe` that waits for the write lock.
pub data UserPhase : Type 0 where
  free : UserPhase
  adding : EgdSubKey → EgdSubCallbackInfo → UserPhase

-- What `poll` and `recvfrom` bring.
unfoldable pub hear_round : Round → Phase
unfolding received_message data_length_of
hear_round no_event = waiting
hear_round receive_error = waiting
hear_round (arrival stack datagram) =
    if ltb 0 (received_length datagram)
    then received (received_message stack datagram) (data_length_of (received_length datagram))
    else waiting

abbrev pub first_walk : DataProductionMessage → ℕ → List EgdSubCallbackInfo → Walk
first_walk m n cbs = record {
  message = m;
  data_len = n;
  next_callback = 0;
  at_lock = cbs;
  made = [];
}

-- The phases with that of one endpoint's thread changed.
unfoldable pub set_phase : EgdSubKey → Phase → (EgdSubKey → Phase) → EgdSubKey → Phase
set_phase k p phases j = if pair_eq.beq k j then p else phases j

abbrev pub with_callbacks : EgdSubKey → EgdSubInfo → List EgdSubCallbackInfo → EgdClient → EgdClient
with_callbacks k info cbs c = record c {
  subscriber_map = assign k (record info { callbacks = cbs }) c.subscriber_map;
}

module _ (service : ConfigService) (c_string : Text → Text) (resolver : Resolver) where
  open service use {Configs}

  -- `rounds` are the walks that have ended, the last one first.
  pub record System : Type 0 where
    pub configs : Configs
    pub client : EgdClient
    pub phase : EgdSubKey → Phase
    pub user : UserPhase
    pub rounds : List Walk

  -- `Subscribe` up to the write lock; a thread that it starts is at the head of its loop.
  unfoldable pub enter_subscribe : Replies → Text → ℕ → EgdSubCallbackInfo → System → System
  unfolding subscribe_connect find assign set_phase
  enter_subscribe replies h p cb s =
      let key : EgdSubKey = (h, p) in
      let (connected, status, _) = subscribe_connect resolver replies h p new_sub_info.connection in
      let fresh = record new_sub_info { connection = connected } in
      elim (find key s.client.subscriber_map) [
        | none ↦
            if is_ok status
            then record s {
              client = record s.client {
                subscriber_map = assign key fresh s.client.subscriber_map;
              };
              phase = set_phase key waiting s.phase;
              user = adding key cb;
            }
            else s
        | some info ↦ record s { user = adding key cb }
      ]

  -- Its rest, under the write lock. `operator[]` would make an entry that is not there.
  unfoldable pub append_callback : EgdSubKey → EgdSubCallbackInfo → System → System
  unfolding add_callback find assign
  append_callback k cb s =
      let info = or_default new_sub_info (find k s.client.subscriber_map) in
      record s {
        client = record s.client {
          subscriber_map = assign k (add_callback cb info) s.client.subscriber_map;
        };
        user = free;
      }

  unfoldable pub publish_page : Replies → Text → ℕ → EgdPageInfo → List ℕ → System → System
  unfolding publish
  publish_page replies h p page bytes s = record s {
    client = (publish resolver replies s.client h p page bytes).0;
  }

  -- The visit of the callback at a place; the list keeps the page that was renewed.
  unfoldable pub visit_at :
      Configs
      → DataProductionMessage
      → ℕ
      → ℕ
      → List EgdSubCallbackInfo
      → Configs × List EgdSubCallbackInfo × List Invocation
  unfolding visit
  visit_at cs m n i [] = (cs, [], [])
  visit_at cs m n zero (cb ∷ cbs) =
      let (cs', cb', calls) = visit service c_string cs m n cb in (cs', cb' ∷ cbs, calls)
  visit_at cs m n (suc i) (cb ∷ cbs) =
      let (cs', cbs', calls) = visit_at cs m n i cbs in (cs', cb ∷ cbs', calls)

  unfoldable pub walk_on : EgdSubKey → EgdSubInfo → Walk → System → System
  unfolding visit_at set_phase assign
  walk_on k info w s =
      let (cs, cbs, calls) =
        visit_at s.configs w.message w.data_len w.next_callback info.callbacks in
      record s {
        configs = cs;
        client = with_callbacks k info cbs s.client;
        phase =
            set_phase k
              (walking (record w { next_callback = suc w.next_callback; made = w.made ++ calls }))
              s.phase;
      }

  unfoldable pub move_thread : EgdSubKey → Phase → System → System
  unfolding set_phase
  move_thread k p s = record s { phase = set_phase k p s.phase }

  -- The steps of the user's thread and of the polling threads, in any order. The write lock is
  -- only given while the endpoint's thread does not walk.
  pub data Step (s : System) : System → Type 0 where
    enters :
        (replies : Replies) (h : Text) (p : ℕ) (cb : EgdSubCallbackInfo)
        → s.user ≡ free
        → Step s (enter_subscribe replies h p cb s)
    appends :
        (k : EgdSubKey) (cb : EgdSubCallbackInfo)
        → s.user ≡ adding k cb
        → ((w : Walk) → s.phase k ≢ walking w)
        → Step s (append_callback k cb s)
    publishes :
        (replies : Replies) (h : Text) (p : ℕ) (page : EgdPageInfo) (bytes : List ℕ)
        → s.user ≡ free
        → Step s (publish_page replies h p page bytes s)
    hears :
        (k : EgdSubKey) (info : EgdSubInfo) (r : Round)
        → find k s.client.subscriber_map ≡ some info
        → s.phase k ≡ waiting
        → Step s (move_thread k (hear_round r) s)
    locks :
        (k : EgdSubKey) (info : EgdSubInfo) (m : DataProductionMessage) (n : ℕ)
        → find k s.client.subscriber_map ≡ some info
        → s.phase k ≡ received m n
        → Step s (move_thread k (walking (first_walk m n info.callbacks)) s)
    visits :
        (k : EgdSubKey) (info : EgdSubInfo) (w : Walk)
        → find k s.client.subscriber_map ≡ some info
        → s.phase k ≡ walking w
        → w.next_callback < length info.callbacks
        → Step s (walk_on k info w s)
    unlocks :
        (k : EgdSubKey) (info : EgdSubInfo) (w : Walk)
        → find k s.client.subscriber_map ≡ some info
        → s.phase k ≡ walking w
        → w.next_callback ≡ length info.callbacks
        → Step s (move_thread k waiting (record s { rounds = w ∷ s.rounds }))

  pub data Reach (s : System) : System → Type 0 where
    here : Reach s s
    next : {t u : System} → Reach s t → Step t u → Reach s u

  -- A client that has just been made.
  abbrev pub new_system : Configs → System
  new_system cs = record {
    configs = cs;
    client = record { publisher_map = []; subscriber_map = [] };
    phase = λ k. waiting;
    user = free;
    rounds = [];
  }

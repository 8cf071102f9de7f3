-- ===== src/Client/Threads/Subscriptions.antt =====
-- What `Subscribe` promises while the threads run: the callbacks of the endpoints as an abstract
-- board, which changes only at the end of a subscription that waits.
use auroralink.Prelude.{
  ℕ, ◌≡◌, ◌≢◌, Bool, true, false, Option, none, some, inl, inr, refl, ap, sym, ◌∙◌, Text, List, [],
  ◌∷◌, ◌++◌, append-nil, append_assoc, map, map-append, Bool-cases, Option-cases, if◌then◌else◌,
}
use auroralink.Prelude.Eq.{nat_eq, text_eq, pair_eq}
use auroralink.Prelude.Assoc.{find, assign, or_default, beq_self}
use auroralink.Client.Types.{
  EgdSubInfo, EgdSubCallbackInfo, EgdSubKey, EgdClient, Resolver, Replies,
}
use auroralink.Client.Publish.{publish}
use auroralink.Client.Subscribe.{new_sub_info, add_callback, subscribe}
use auroralink.Client.Subscribe.Lifetime.{callbacks_at, callbacks_at-assign}
use auroralink.Client.Poll.{ConfigService}
use auroralink.Client.Poll.Dispatch.{target}
use auroralink.Client.Threads.{
  UserPhase, free, adding, System, enter_subscribe, append_callback, publish_page, walk_on,
  move_thread, Step, enters, appends, publishes, hears, locks, visits, unlocks, Reach, here, next,
}
use auroralink.Status.{EgdStatus, ok, is_ok}
use auroralink.Client.Threads.Halves.{subscribe_halves}
use auroralink.Client.Threads.Walks.{visit_at-targets}
use auroralink.Client.Threads.Invariant.{
  callbacks_at-known, callbacks_at-unknown, callbacks_at-same, enter_cases, publish-subscribers,
}

-- The callbacks of each endpoint, with their user data.
abbrev pub Board : Type 0
Board = EgdSubKey → List (ℕ × ℕ)

-- What an outside view sees of a step: a `Subscribe` that begins, with its endpoint and callback and
-- whether it is accepted; that it gets the write lock; or nothing.
pub data Call : Type 0 where
  begins : Bool → EgdSubKey → EgdSubCallbackInfo → Call
  finishes : Call
  silent : Call

-- The subscription that waits for the lock.
abbrev pub Pending : Type 0
Pending = Option (EgdSubKey × EgdSubCallbackInfo)

abbrev pub Same : Board → Board → Type 0
Same b b' = (k : EgdSubKey) → b' k ≡ b k

abbrev pub Joined : EgdSubKey → EgdSubCallbackInfo → Board → Board → Type 0
Joined k cb b b' = (j : EgdSubKey) → b' j ≡ (if pair_eq.beq k j then b j ++ target cb ∷ [] else b j)

-- A subscription that is accepted waits. The end of the one that waits, and nothing else, changes
-- the board: its callback joins behind those of its endpoint.
abbrev pub BoardStep : Call → Board × Pending → Board × Pending → Type 0
BoardStep (begins true k cb) (b, p) (b', p') = (p ≡ none) × Same b b' × (p' ≡ some (k, cb))
BoardStep (begins false k cb) (b, p) (b', p') = (p ≡ none) × Same b b' × (p' ≡ none)
BoardStep finishes (b, p) (b', p') =
    (k : EgdSubKey) × (cb : EgdSubCallbackInfo) × (p ≡ some (k, cb))
    × (p' ≡ none)
    × Joined k cb b b'
BoardStep silent (b, p) (b', p') = Same b b' × (p' ≡ p)

-- A run, with the calls of its steps, the last one first.
pub data BoardReach (v : Board × Pending) : List Call → Board × Pending → Type 0 where
  begin : BoardReach v [] v
  later :
      {calls : List Call} {w x : Board × Pending} (call : Call)
      → BoardReach v calls w
      → BoardStep call w x
      → BoardReach v (call ∷ calls) x

abbrev pub board : EgdClient → Board
board c k = map target (callbacks_at k c)

BoardStep-prefix :
    (call : Call) (v w : Board × Pending)
    → BoardStep call v w
    → (k : EgdSubKey) → (more : List (ℕ × ℕ)) × (w.0 k ≡ v.0 k ++ more)
BoardStep-prefix (begins true j cb) v w (_, same, _) k = ([], same k ∙ sym (append-nil (v.0 k)))
BoardStep-prefix (begins false j cb) v w (_, same, _) k = ([], same k ∙ sym (append-nil (v.0 k)))
BoardStep-prefix silent v w (same, _) k = ([], same k ∙ sym (append-nil (v.0 k)))
BoardStep-prefix finishes v w (j, cb, _, _, e) k = elim (Bool-cases (pair_eq.beq j k)) [
  | inl is ↦ (target cb ∷ [], rw is at (e k))
  | inr other ↦ ([], (rw other at (e k)) ∙ sym (append-nil (v.0 k)))
]

BoardReach-prefix :
    {v w : Board × Pending} {calls : List Call}
    → BoardReach v calls w
    → (k : EgdSubKey) → (more : List (ℕ × ℕ)) × (w.0 k ≡ v.0 k ++ more)
BoardReach-prefix {v} begin k = ([], sym (append-nil (v.0 k)))
BoardReach-prefix {v} (later {calls} {w} {x} call r st) k =
    let (more, e) = BoardReach-prefix r k in
    let (last, e') = BoardStep-prefix call w x st k in
    (more ++ last, e' ∙ rw e (append_assoc (v.0 k) more last))

refused_status : (status : EgdStatus) → status ≢ ok → is_ok status ≡ false
refused_status ok bad = absurd (bad refl)
refused_status _ bad = refl

board-assign :
    (k : EgdSubKey) (info : EgdSubInfo) (c : EgdClient) (ts : List (ℕ × ℕ))
    → map target info.callbacks ≡ ts
    → (j : EgdSubKey)
    → board (record c { subscriber_map = assign k info c.subscriber_map }) j
      ≡ (if pair_eq.beq k j then ts else board c j)
board-assign k info c ts e j =
    ap (map target) (callbacks_at-assign k j info c)
    ∙ (elim (Bool-cases (pair_eq.beq k j)) [ inl is ↦ rw is e | inr not_this ↦ rw not_this refl ])

-- An endpoint may be given the callbacks that it has.
board-same :
    (k : EgdSubKey) (info : EgdSubInfo) (c : EgdClient)
    → map target info.callbacks ≡ board c k
    → (j : EgdSubKey)
    → board (record c { subscriber_map = assign k info c.subscriber_map }) j ≡ board c j
board-same k info c e j =
    board-assign k info c (board c k) e j ∙ (elim (Bool-cases (pair_eq.beq k j)) [
      | inl is ↦ rw is (ap (board c) ((pair_eq.beq_iff k j).0 is))
      | inr not_this ↦ rw not_this refl
    ])

board-join :
    (k : EgdSubKey) (t : ℕ × ℕ) (c : EgdClient) (j : EgdSubKey)
    → (if pair_eq.beq k j then board c k ++ t ∷ [] else board c j)
      ≡ (if pair_eq.beq k j then board c j ++ t ∷ [] else board c j)
board-join k t c j = elim (Bool-cases (pair_eq.beq k j)) [
  | inl is ↦ rw is (ap (λ i. board c i ++ t ∷ []) ((pair_eq.beq_iff k j).0 is))
  | inr not_this ↦ rw not_this refl
]

board-add :
    (k : EgdSubKey) (cb : EgdSubCallbackInfo) (c : EgdClient)
    → map target (add_callback cb (or_default new_sub_info (find k c.subscriber_map))).callbacks
      ≡ board c k ++ target cb ∷ []
unfolding add_callback callbacks_at
board-add k cb c = elim (Option-cases (find k c.subscriber_map)) [
  | inl unknown ↦ rw (unknown, callbacks_at) refl
  | inr (info, known) ↦ rw (known, callbacks_at) (map-append target info.callbacks (cb ∷ []))
]

board-added :
    (k : EgdSubKey) (cb : EgdSubCallbackInfo) (c : EgdClient) (j : EgdSubKey)
    → let info = or_default new_sub_info (find k c.subscriber_map) in
      board (record c { subscriber_map = assign k (add_callback cb info) c.subscriber_map }) j
      ≡ (if pair_eq.beq k j then board c j ++ target cb ∷ [] else board c j)
board-added k cb c j =
    board-assign k (add_callback cb (or_default new_sub_info (find k c.subscriber_map))) c
      (board c k ++ target cb ∷ []) (board-add k cb c) j
    ∙ board-join k (target cb) c j

module _ (service : ConfigService) (c_string : Text → Text) (resolver : Resolver) where
  open service use {Configs}

  -- The calls of a run. A `Subscribe` is accepted where the whole function would return OK.
  abbrev pub call_of :
      {s t : System service c_string resolver} → Step service c_string resolver s t → Call
  call_of {s} (enters replies h p cb idle) =
      begins (is_ok (subscribe resolver replies s.client h p cb).1) (h, p) cb
  call_of (appends k cb waits still) = finishes
  call_of _ = silent

  abbrev pub calls_of :
      {s t : System service c_string resolver} → Reach service c_string resolver s t → List Call
  calls_of here = []
  calls_of (next r st) = call_of st ∷ calls_of r

  abbrev pub pending : UserPhase → Pending
  pending free = none
  pending (adding k cb) = some (k, cb)

  abbrev pub view : System service c_string resolver → Board × Pending
  view s = (board s.client, pending s.user)

  enters-Same :
      (replies : Replies) (h : Text) (p : ℕ) (cb : EgdSubCallbackInfo)
      (s : System service c_string resolver)
      → Same
          (board s.client)
          (board (enter_subscribe service c_string resolver replies h p cb s).client)
  enters-Same replies h p cb s = elim (enter_cases service c_string resolver replies h p cb s) [
    | inl same ↦ rw same (λ k. refl)
    | inr (inl (_, waits)) ↦ rw waits (λ k. refl)
    | inr (inr (info, unknown, empty, started)) ↦ rw started (
        board-same (h, p) info s.client
          (rw empty (sym (ap (map target) (callbacks_at-unknown (h, p) s.client unknown)))))
  ]

  enters-BoardStep :
      (replies : Replies) (h : Text) (p : ℕ) (cb : EgdSubCallbackInfo)
      (s : System service c_string resolver)
      → s.user ≡ free
      → BoardStep
          (begins (is_ok (subscribe resolver replies s.client h p cb).1) (h, p) cb)
          (view s)
          (view (enter_subscribe service c_string resolver replies h p cb s))
  enters-BoardStep replies h p cb s idle =
      let same = enters-Same replies h p cb s in
      elim (subscribe_halves service c_string resolver replies h p cb s) [
        | inl (good, waits, _) ↦ rw good (ap pending idle, same, ap pending waits)
        | inr (bad, still, _) ↦
            rw (refused_status (subscribe resolver replies s.client h p cb).1 bad)
              (ap pending idle, same, rw still (ap pending idle))
      ]

  pub board-append_callback :
      (k : EgdSubKey) (cb : EgdSubCallbackInfo) (s : System service c_string resolver)
      → board (append_callback service c_string resolver k cb s).client k
        ≡ board s.client k ++ target cb ∷ []
  unfolding append_callback
  board-append_callback k cb s = board-added k cb s.client k ∙ rw (beq_self {K = EgdSubKey} k) refl

  Step-BoardStep :
      {s t : System service c_string resolver} (st : Step service c_string resolver s t)
      → BoardStep (call_of st) (view s) (view t)
  unfolding append_callback publish_page move_thread walk_on
  Step-BoardStep {s} (enters replies h p cb idle) = enters-BoardStep replies h p cb s idle
  Step-BoardStep {s} (appends k cb waits still) =
      (k, cb, ap pending waits, refl, board-added k cb s.client)
  Step-BoardStep {s} (publishes replies h p page bytes idle) = (
    λ k. ap (map target) (
        callbacks_at-same s.client (publish resolver replies s.client h p page bytes).0
          (publish-subscribers service c_string resolver replies h p page bytes s.client) k),
    refl,
  )
  Step-BoardStep (hears k info r known waits) = (λ k. refl, refl)
  Step-BoardStep (locks k info m n known has) = (λ k. refl, refl)
  Step-BoardStep {s} (visits k info w known is inside) = (
    board-same k _ s.client (
        visit_at-targets service c_string resolver s.configs w.message w.data_len w.next_callback
          info.callbacks
        ∙ sym (ap (map target) (callbacks_at-known k info s.client known))),
    refl,
  )
  Step-BoardStep (unlocks k info w known is over) = (λ k. refl, refl)

  -- Every run of a client and its threads, from any state on, is a run of the board with the same
  -- calls: a `Subscribe` that `subscribe` would accept waits with its endpoint and callback; when it
  -- gets the lock that callback, and no other, joins behind those of that endpoint, and of no
  -- other; a `Subscribe` that is refused, a `Publish` and the steps of the threads change neither
  -- the callbacks of an endpoint nor what waits.
  pub system_refines :
      {s t : System service c_string resolver} (r : Reach service c_string resolver s t)
      → BoardReach (view s) (calls_of r) (view t)
  system_refines here = begin
  system_refines (next r st) = later (call_of st) (system_refines r) (Step-BoardStep st)

  -- Over every run, an endpoint keeps the callbacks it had, with their user data, in their order;
  -- new ones stand behind them.
  pub callbacks_stay :
      {s t : System service c_string resolver}
      → Reach service c_string resolver s t
      → (k : EgdSubKey) → (more : List (ℕ × ℕ)) × (board t.client k ≡ board s.client k ++ more)
  callbacks_stay r k = BoardReach-prefix (system_refines r) k

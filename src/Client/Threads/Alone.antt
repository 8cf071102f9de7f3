-- ===== src/Client/Threads/Alone.antt =====
-- One thread of `PollSocket` that runs while the others rest: the rounds of `poll_round`, and the
-- end of every walk.
use auroralink.Prelude.{
  suc, ◌<◌, ◌≡◌, ◌⊎◌, inl, inr, refl, ap, sym, ◌∙◌, Text, some, List, [], ◌∷◌, ◌++◌, append-nil,
  append_assoc, length, length-append, arith, Bool-cases,
}
use auroralink.Prelude.Eq.{nat_eq, text_eq, pair_eq}
use auroralink.Prelude.Assoc.{find, find-assign, find-assigned, beq_self}
use auroralink.Client.Types.{EgdSubInfo, EgdSubCallbackInfo, EgdSubKey, Resolver}
use auroralink.Client.Subscribe.Lifetime.{callbacks_at}
use auroralink.Client.Poll.{ConfigService, Invocation, visit, dispatch}
use auroralink.Client.Threads.{
  Walk, Phase, waiting, walking, set_phase, System, visit_at, walk_on, move_thread, Step, visits,
  unlocks, Reach, here, next,
}
use auroralink.Client.Threads.Invariant.{callbacks_at-known}
use auroralink.Client.Threads.Walks.{visit_at-append}

pub set_phase_here :
    (k : EgdSubKey) (p : Phase) (phase : EgdSubKey → Phase) → set_phase k p phase k ≡ p
unfolding set_phase
set_phase_here k p phase = rw (beq_self {K = EgdSubKey} k) refl

module _ (service : ConfigService) (c_string : Text → Text) (resolver : Resolver) where
  open service use {Configs}

  pub Reach-trans :
      {s t u : System service c_string resolver}
      → Reach service c_string resolver s t
      → Reach service c_string resolver t u
      → Reach service c_string resolver s u
  Reach-trans r here = r
  Reach-trans r (next r' st) = next (Reach-trans r r') st

  -- A state in which an endpoint's thread walks, at the end of the first of two lists of callbacks.
  pub record WalksAt (k : EgdSubKey) (info : EgdSubInfo) (w : Walk)
      (done rest : List EgdSubCallbackInfo) (s : System service c_string resolver) : Type 0 where
    pub known : find k s.client.subscriber_map ≡ some info
    pub is : s.phase k ≡ walking w
    pub now : info.callbacks ≡ done ++ rest
    pub place : length done ≡ w.next_callback

  -- One state is reached from the other, and differs in what an endpoint's thread may change.
  pub record MovesOnly (k : EgdSubKey) (s t : System service c_string resolver) : Type 0 where
    pub reached : Reach service c_string resolver s t
    pub user_stays : t.user ≡ s.user
    pub others_keep :
        (j : EgdSubKey)
        → (k ≡ j)
          ⊎ ((find j t.client.subscriber_map ≡ find j s.client.subscriber_map)
              × (t.phase j ≡ s.phase j))

  -- What the rest of a walk leaves.
  record WalkEnds (k : EgdSubKey) (w : Walk) (done rest : List EgdSubCallbackInfo)
      (s t : System service c_string resolver) : Type 0 where
    moves : MovesOnly k s t
    end_info : EgdSubInfo
    end_walk : Walk
    known_at_end : find k t.client.subscriber_map ≡ some end_info
    is_at_end : t.phase k ≡ walking end_walk
    end_place : end_walk.next_callback ≡ length end_info.callbacks
    end_callbacks :
        end_info.callbacks
        ≡ done ++ (dispatch service c_string s.configs w.message w.data_len rest).1
    end_made :
        end_walk.made ≡ w.made ++ (dispatch service c_string s.configs w.message w.data_len rest).2
    end_configs : t.configs ≡ (dispatch service c_string s.configs w.message w.data_len rest).0
    rounds_stay : t.rounds ≡ s.rounds

  MovesOnly-refl : (k : EgdSubKey) (s : System service c_string resolver) → MovesOnly k s s
  MovesOnly-refl k s = record {
    reached = here;
    user_stays = refl;
    others_keep = λ j. inr (refl, refl);
  }

  pub MovesOnly-trans :
      {k : EgdSubKey} {s t u : System service c_string resolver}
      → MovesOnly k s t
      → MovesOnly k t u
      → MovesOnly k s u
  MovesOnly-trans m n = record {
    reached = Reach-trans m.reached n.reached;
    user_stays = n.user_stays ∙ m.user_stays;
    others_keep = λ j. elim (m.others_keep j) [
      | inl same ↦ inl same
      | inr (kept, stays) ↦ elim (n.others_keep j) [
        | inl same ↦ inl same
        | inr (kept', stays') ↦ inr (kept' ∙ kept, stays' ∙ stays)
      ]
    ];
  }

  pub move_thread-MovesOnly :
      (k : EgdSubKey) (p : Phase) (ws : List Walk) (s : System service c_string resolver)
      → Step service c_string resolver s
          (move_thread service c_string resolver k p (record s { rounds = ws }))
      → MovesOnly k s (move_thread service c_string resolver k p (record s { rounds = ws }))
  unfolding move_thread set_phase
  move_thread-MovesOnly k p ws s st = record {
    reached = next here st;
    user_stays = refl;
    others_keep = λ j. elim (Bool-cases (pair_eq.beq k j)) [
      | inl same ↦ inl ((pair_eq.beq_iff k j).0 same)
      | inr other ↦ inr (refl, rw other refl)
    ];
  }

  walk_on-MovesOnly :
      (k : EgdSubKey) (info : EgdSubInfo) (w : Walk) (s : System service c_string resolver)
      → Step service c_string resolver s (walk_on service c_string resolver k info w s)
      → MovesOnly k s (walk_on service c_string resolver k info w s)
  unfolding walk_on set_phase
  walk_on-MovesOnly k info w s st = record {
    reached = next here st;
    user_stays = refl;
    others_keep = λ j. elim (Bool-cases (pair_eq.beq k j)) [
      | inl same ↦ inl ((pair_eq.beq_iff k j).0 same)
      | inr other ↦ inr (
        find-assign k j
              (record info {
                callbacks =
                    (visit_at service c_string resolver s.configs w.message w.data_len
                      w.next_callback info.callbacks).1;
              })
              s.client.subscriber_map
            ∙ rw other refl,
        rw other refl,
      )
    ];
  }

  walk_alone :
      (k : EgdSubKey) (rest : List EgdSubCallbackInfo) (done : List EgdSubCallbackInfo)
      (info : EgdSubInfo) (w : Walk) (s : System service c_string resolver)
      → WalksAt k info w done rest s
      → (t : System service c_string resolver) × WalkEnds k w done rest s t
  unfolding dispatch walk_on
  walk_alone k [] done info w s a = (
    s,
    record {
      moves = MovesOnly-refl k s;
      end_info = info;
      end_walk = w;
      known_at_end = a.known;
      is_at_end = a.is;
      end_place = omega (arith, ap length a.now, length-append done [], a.place);
      end_callbacks = a.now;
      end_made = sym (append-nil w.made);
      end_configs = refl;
      rounds_stay = refl;
    },
  )
  walk_alone k (cb ∷ rest) done info w s a =
      let v = visit service c_string s.configs w.message w.data_len cb in
      let va =
        visit_at service c_string resolver s.configs w.message w.data_len w.next_callback
          info.callbacks in
      let same : va ≡ (v.0, done ++ v.1 ∷ rest, v.2) =
        rw (a.now, ← a.place)
          (visit_at-append service c_string resolver s.configs w done cb rest) in
      let info1 = record info { callbacks = va.1 } in
      let w1 = record w { next_callback = suc w.next_callback; made = w.made ++ va.2 } in
      let s1 = walk_on service c_string resolver k info w s in
      let at1 : WalksAt k info1 w1 (done ++ v.1 ∷ []) rest s1 = record {
        known = find-assigned k info1 s.client.subscriber_map;
        is = set_phase_here k (walking w1) s.phase;
        now = rw same (sym (append_assoc done (v.1 ∷ []) rest));
        place = omega (arith, length-append done (v.1 ∷ []), a.place);
      } in
      let (t, e) = walk_alone k rest (done ++ v.1 ∷ []) info1 w1 s1 at1 in
      let inside : w.next_callback < length info.callbacks =
        omega (arith, ap length a.now, length-append done (cb ∷ rest), a.place) in
      (
        t,
        record {
          moves =
              MovesOnly-trans (walk_on-MovesOnly k info w s (visits k info w a.known a.is inside))
                e.moves;
          end_info = e.end_info;
          end_walk = e.end_walk;
          known_at_end = e.known_at_end;
          is_at_end = e.is_at_end;
          end_place = e.end_place;
          end_callbacks =
              e.end_callbacks
              ∙ ap
                  (λ (x : Configs × List EgdSubCallbackInfo × List Invocation).
                    (done ++ v.1 ∷ [])
                    ++ (dispatch service c_string x.0 w.message w.data_len rest).1)
                  same
              ∙ append_assoc done (v.1 ∷ []) _;
          end_made =
              e.end_made
              ∙ ap
                  (λ (x : Configs × List EgdSubCallbackInfo × List Invocation).
                    (w.made ++ x.2) ++ (dispatch service c_string x.0 w.message w.data_len rest).2)
                  same
              ∙ append_assoc w.made v.2 _;
          end_configs =
              e.end_configs
              ∙ ap
                  (λ (x : Configs × List EgdSubCallbackInfo × List Invocation).
                    (dispatch service c_string x.0 w.message w.data_len rest).0)
                  same;
          rounds_stay = e.rounds_stay;
        },
      )

  -- A walk ends: its thread gives the lock back.
  pub walk_finishes :
      (k : EgdSubKey) (rest : List EgdSubCallbackInfo) (done : List EgdSubCallbackInfo)
      (info : EgdSubInfo) (w : Walk) (s : System service c_string resolver)
      → WalksAt k info w done rest s
      → let (cs, cbs, calls) = dispatch service c_string s.configs w.message w.data_len rest in
        (t : System service c_string resolver) × MovesOnly k s t
        × (t.phase k ≡ waiting)
        × (t.configs ≡ cs)
        × (callbacks_at k t.client ≡ done ++ cbs)
        × ((w' : Walk) × (t.rounds ≡ w' ∷ s.rounds) × (w'.made ≡ w.made ++ calls))
  unfolding move_thread
  walk_finishes k rest done info w s a =
      let (t, e) = walk_alone k rest done info w s a in
      let over = unlocks k e.end_info e.end_walk e.known_at_end e.is_at_end e.end_place in
      (
        move_thread service c_string resolver k waiting
            (record t { rounds = e.end_walk ∷ t.rounds }),
        MovesOnly-trans e.moves (move_thread-MovesOnly k waiting (e.end_walk ∷ t.rounds) t over),
        set_phase_here k waiting t.phase,
        e.end_configs,
        callbacks_at-known k e.end_info t.client e.known_at_end ∙ e.end_callbacks,
        (e.end_walk, ap (◌∷◌ e.end_walk) e.rounds_stay, e.end_made),
      )

-- ===== src/Client/Threads/Walks.antt =====
-- A walk over an endpoint's callbacks, one visit at a time.
use auroralink.Prelude.{
  ℕ, zero, suc, ◌<◌, ◌≡◌, refl, ap, sym, ◌∙◌, Text, List, [], ◌∷◌, ◌++◌, append-nil, append_assoc,
  map, map-append, length, length-append, All, All-append, arith,
}
use auroralink.Spec.{DataProductionMessage}
use auroralink.Client.Types.{EgdSubCallbackInfo, Resolver}
use auroralink.Client.Poll.{ConfigService, visit}
use auroralink.Client.Poll.Dispatch.{
  target, called, interested, interested-append, Carries, visit-calls,
}
use auroralink.Client.Threads.{Walk, first_walk, visit_at}

-- A walk that has ended has called exactly the callbacks that care about its message, of those
-- that it found, each once and in their order, with the message.
abbrev pub IsComplete : Walk → Type 0
IsComplete w =
    (map called w.made ≡ interested w.message.hdr w.at_lock)
    × All (Carries w.message w.data_len) w.made

-- Where a walk stands in the endpoint's callbacks: those it has seen may have renewed pages, the
-- rest are as it found them, and the calls are those of the seen ones.
abbrev pub IsWalk : Walk → List EgdSubCallbackInfo → Type 0
IsWalk w cbs =
    (seen : List EgdSubCallbackInfo) × (done : List EgdSubCallbackInfo) × (rest : List
      EgdSubCallbackInfo)
    × (w.at_lock ≡ seen ++ rest)
    × (cbs ≡ done ++ rest)
    × (length done ≡ w.next_callback)
    × (map target done ≡ map target seen)
    × (map called w.made ≡ interested w.message.hdr seen)
    × All (Carries w.message w.data_len) w.made

module _ (service : ConfigService) (c_string : Text → Text) (resolver : Resolver) where
  open service use {Configs}

  pub visit_at-append :
      (cs : Configs) (w : Walk) (done : List EgdSubCallbackInfo) (cb : EgdSubCallbackInfo)
      (rest : List EgdSubCallbackInfo)
      → let (cs', cb', calls) = visit service c_string cs w.message w.data_len cb in
        visit_at service c_string resolver cs w.message w.data_len (length done) (done ++ cb ∷ rest)
        ≡ (cs', done ++ cb' ∷ rest, calls)
  unfolding visit_at
  visit_at-append cs w [] cb rest = refl
  visit_at-append cs w (x ∷ done) cb rest = rw (visit_at-append cs w done cb rest) refl

  pub first_walk-IsWalk :
      (m : DataProductionMessage) (n : ℕ) (cbs : List EgdSubCallbackInfo)
      → IsWalk (first_walk m n cbs) cbs
  first_walk-IsWalk m n cbs = ([], [], cbs, refl, refl, refl, refl, refl, tt)

  -- A visit keeps every callback with its user data.
  pub visit_at-targets :
      (cs : Configs) (m : DataProductionMessage) (n i : ℕ) (cbs : List EgdSubCallbackInfo)
      → map target (visit_at service c_string resolver cs m n i cbs).1 ≡ map target cbs
  unfolding visit_at
  visit_at-targets cs m n i [] = refl
  visit_at-targets cs m n zero (cb ∷ cbs) =
      ap (λ (t : ℕ × ℕ). t ∷ map target cbs) (visit-calls service c_string cs m n cb).2
  visit_at-targets cs m n (suc i) (cb ∷ cbs) = ap (◌∷◌ (target cb)) (visit_at-targets cs m n i cbs)

  pub visit_at-IsWalk :
      (cs : Configs) (w : Walk) (cbs : List EgdSubCallbackInfo)
      → IsWalk w cbs
      → w.next_callback < length cbs
      → let (cs', cbs', calls) =
          visit_at service c_string resolver cs w.message w.data_len w.next_callback cbs in
        IsWalk (record w { next_callback = suc w.next_callback; made = w.made ++ calls }) cbs'
  visit_at-IsWalk cs w cbs (seen, done, [], found, now, place, kept, made, carried) inside =
      absurd (omega (arith, rw now at inside, length-append done []))
  visit_at-IsWalk cs w cbs (seen, done, cb ∷ rest, found, now, place, kept, made, carried) inside =
      let v = visit service c_string cs w.message w.data_len cb in
      let (reached, carries, target_kept) =
        visit-calls service c_string cs w.message w.data_len cb in
      rw (now, ← place)
        (rw (visit_at-append cs w done cb rest) (
          seen ++ cb ∷ [],
          done ++ v.1 ∷ [],
          rest,
          found ∙ sym (append_assoc seen (cb ∷ []) rest),
          sym (append_assoc done (v.1 ∷ []) rest),
          omega (arith, length-append done (v.1 ∷ [])),
          map-append target done (v.1 ∷ [])
              ∙ rw (kept, target_kept) (sym (map-append target seen (cb ∷ []))),
          map-append called w.made v.2
              ∙ rw (made, reached) (sym (interested-append w.message.hdr seen (cb ∷ []))),
          All-append (Carries w.message w.data_len) w.made v.2 carried carries,
        ))

  pub IsWalk-ended :
      (w : Walk) (cbs : List EgdSubCallbackInfo)
      → IsWalk w cbs
      → w.next_callback ≡ length cbs
      → IsComplete w
  IsWalk-ended w cbs (seen, done, [], found, now, place, kept, made, carried) ended =
      (made ∙ ap (interested w.message.hdr) (sym (found ∙ append-nil seen)), carried)
  IsWalk-ended w cbs (seen, done, cb ∷ rest, found, now, place, kept, made, carried) ended =
      absurd (omega (arith, rw now at ended, length-append done (cb ∷ rest)))

-- ===== src/Client/Subscribe/Lifetime.antt =====
-- Callbacks and sockets over the life of a client.
use auroralink.Prelude.{
  ltb, ℕ, ◌≡◌, refl, ◌≢◌, ◌⊎◌, inl, inr, ap, ◌∙◌, sym, Text, none, some, List, [], ◌∷◌, ◌++◌, map,
  arith, Option-cases, Bool-cases, false, if◌then◌else◌,
}
use auroralink.Prelude.Int.{ℤ}
use auroralink.Prelude.Eq.{nat_eq, text_eq, pair_eq}
use mathlib.Core.List.{Perm}
use auroralink.Prelude.Order.{text_less, pair_less, in_order, in_order-perm, keys}
use auroralink.Prelude.Order.Ascending.{
  IsOneWay, ltb-IsOneWay, text_less-IsOneWay, pair_less-IsOneWay, IsAscending, in_order-IsAscending,
}
use auroralink.Prelude.Assoc.{Map, find, assign, find-assign, beq_self}
use auroralink.Status.{ok, is_ok}
use auroralink.Client.Types.{
  EgdPubInfo, EgdSubInfo, EgdSubCallbackInfo, EgdPubKey, EgdSubKey, EgdClient, Resolver, Replies,
  SystemCall, close_socket,
}
use auroralink.Client.Connect.{subscribe_connect}
use auroralink.Client.Subscribe.{
  new_sub_info, add_callback, subscribe, close_subscribers, close_publishers, destroy_client,
  sub_key_less, pub_key_less, join_and_close, close_each,
}

-- The callbacks of an endpoint, none if it has no subscriber.
unfoldable pub callbacks_at : EgdSubKey → EgdClient → List EgdSubCallbackInfo
callbacks_at key c = elim (find key c.subscriber_map) [ none ↦ [] | some info ↦ info.callbacks ]

pub callbacks_at-assign :
    (key j : EgdSubKey) (info : EgdSubInfo) (c : EgdClient)
    → callbacks_at j (record c { subscriber_map = assign key info c.subscriber_map })
      ≡ (if pair_eq.beq key j then info.callbacks else callbacks_at j c)
unfolding callbacks_at
callbacks_at-assign key j info c =
    rw (find-assign key j info c.subscriber_map, callbacks_at)
      (elim (Bool-cases (pair_eq.beq key j)) [
        | inl is ↦ rw is refl
        | inr not_this ↦ rw not_this refl
      ])

module _ (r : Resolver) (s : Replies) (c : EgdClient) (h : Text) (p : ℕ)
    (cb : EgdSubCallbackInfo) where
  abbrev with_callback : EgdSubInfo → EgdClient
  with_callback info = record c {
    subscriber_map = assign (h, p) (add_callback cb info) c.subscriber_map;
  }

  -- A subscription fails and changes nothing, or joins those of its endpoint.
  subscribe_cases :
      (((subscribe r s c h p cb).1 ≢ ok) × ((subscribe r s c h p cb).0 ≡ c))
      ⊎ ((info : EgdSubInfo) × ((subscribe r s c h p cb).1 ≡ ok)
          × ((subscribe r s c h p cb).0 ≡ with_callback info)
          × (info.callbacks ≡ callbacks_at (h, p) c))
  unfolding subscribe callbacks_at
  subscribe_cases =
      let k = subscribe_connect r s h p new_sub_info.connection in
      elim (Option-cases (find (h, p) c.subscriber_map)) [
        | inr (info, known) ↦
            rw (known, subscribe) (rw (known, callbacks_at) (inr (info, refl, refl, refl)))
        | inl unknown ↦
            rw (unknown, subscribe)
              (rw (unknown, callbacks_at)
                (elim (Bool-cases (is_ok k.1)) [
                  | inl good ↦
                      rw good (inr (record new_sub_info { connection = k.0 }, refl, refl, refl))
                  | inr bad ↦ rw bad (inl ((λ e. ground arith), refl))
                ]))
      ]

  -- Either the status is `ok` and the callback stands behind those of the endpoint, or the status is
  -- not `ok` and the client is as it was.
  pub subscribe_adds :
      (((subscribe r s c h p cb).1 ≡ ok)
        × (callbacks_at (h, p) (subscribe r s c h p cb).0 ≡ callbacks_at (h, p) c ++ cb ∷ []))
      ⊎ (((subscribe r s c h p cb).1 ≢ ok) × ((subscribe r s c h p cb).0 ≡ c))
  unfolding add_callback
  subscribe_adds = elim subscribe_cases [
    | inl (bad, same) ↦ inr (bad, same)
    | inr (info, good, e, callbacks) ↦ inl (
      good,
      rw e (
          callbacks_at-assign (h, p) (h, p) (add_callback cb info) c
          ∙ rw (beq_self {K = EgdSubKey} (h, p)) (rw callbacks)),
    )
  ]

  -- Other endpoints keep their callbacks, whatever becomes of the subscription.
  pub subscribe_elsewhere :
      (key : EgdSubKey)
      → key ≢ (h, p)
      → callbacks_at key (subscribe r s c h p cb).0 ≡ callbacks_at key c
  unfolding callbacks_at
  subscribe_elsewhere key other = elim subscribe_cases [
    | inl (_, same) ↦ rw same
    | inr (info, _, e, _) ↦
        rw e (callbacks_at-assign (h, p) key (add_callback cb info) c ∙ rw apart)
  ]
    where
      apart : pair_eq.beq (h, p) key ≡ false
      apart = elim (Bool-cases (pair_eq.beq (h, p) key)) [
        | inl same ↦ absurd (other (sym ((pair_eq.beq_iff (h, p) key).0 same)))
        | inr differ ↦ differ
      ]

-- The sockets that a list of calls closes, in order.
abbrev pub closed_sockets : List SystemCall → List ℤ
closed_sockets [] = []
closed_sockets (close_socket fd ∷ calls) = fd ∷ closed_sockets calls
closed_sockets (call ∷ calls) = closed_sockets calls

-- The sockets that a client holds.
abbrev pub sockets_of : Map EgdSubKey EgdSubInfo → List ℤ
sockets_of = map (λ (e : EgdSubKey × EgdSubInfo). e.1.socket)

abbrev pub sockets_of_publishers : Map EgdPubKey EgdPubInfo → List ℤ
sockets_of_publishers = map (λ (e : EgdPubKey × EgdPubInfo). e.1.socket)

closed_sockets-append :
    (xs ys : List SystemCall) → closed_sockets (xs ++ ys) ≡ closed_sockets xs ++ closed_sockets ys
closed_sockets-append [] ys = refl
closed_sockets-append (close_socket fd ∷ xs) ys = ap (◌∷◌ fd) (closed_sockets-append xs ys)
closed_sockets-append (call ∷ xs) ys = closed_sockets-append xs ys

closed_subscribers :
    (m : Map EgdSubKey EgdSubInfo)
    → closed_sockets (join_and_close m) ≡ map (λ (e : EgdSubKey × EgdSubInfo). e.1.socket) m
unfolding join_and_close
closed_subscribers [] = refl
closed_subscribers ((key, info) ∷ m) = ap (◌∷◌ info.socket) (closed_subscribers m)

closed_publishers :
    (m : Map EgdPubKey EgdPubInfo)
    → closed_sockets (close_each m) ≡ map (λ (e : EgdPubKey × EgdPubInfo). e.1.socket) m
unfolding close_each
closed_publishers [] = refl
closed_publishers ((key, info) ∷ m) = ap (◌∷◌ info.socket) (closed_publishers m)

-- The order of a map's keys never puts two before each other.
sub_key_less-IsOneWay : IsOneWay sub_key_less
sub_key_less-IsOneWay = pair_less-IsOneWay text_less ltb text_less-IsOneWay ltb-IsOneWay

pub_key_less-IsOneWay : IsOneWay pub_key_less
pub_key_less-IsOneWay =
    pair_less-IsOneWay text_less (pair_less ltb (pair_less ltb ltb)) text_less-IsOneWay (
      pair_less-IsOneWay ltb (pair_less ltb ltb) ltb-IsOneWay
        (pair_less-IsOneWay ltb ltb ltb-IsOneWay ltb-IsOneWay))

-- The destructor closes the sockets of the subscribers, by ascending keys, and then those of the
-- publishers, by ascending keys: each entry that the client holds gives one socket, and no other
-- socket is closed.
pub destroy_closes :
    (c : EgdClient)
    → (subscribers : Map EgdSubKey EgdSubInfo) × (publishers : Map EgdPubKey EgdPubInfo)
      × (closed_sockets (destroy_client c)
          ≡ sockets_of subscribers ++ sockets_of_publishers publishers)
      × Perm subscribers c.subscriber_map
      × IsAscending sub_key_less (keys sub_key_less subscribers)
      × Perm publishers c.publisher_map
      × IsAscending pub_key_less (keys pub_key_less publishers)
unfolding destroy_client close_subscribers close_publishers
destroy_closes c = (
  in_order sub_key_less c.subscriber_map,
  in_order pub_key_less c.publisher_map,
  closed_sockets-append (close_subscribers c.subscriber_map) (close_publishers c.publisher_map)
      ∙ rw (
        closed_subscribers (in_order sub_key_less c.subscriber_map),
        closed_publishers (in_order pub_key_less c.publisher_map),
      ),
  in_order-perm sub_key_less c.subscriber_map,
  in_order-IsAscending sub_key_less sub_key_less-IsOneWay c.subscriber_map,
  in_order-perm pub_key_less c.publisher_map,
  in_order-IsAscending pub_key_less pub_key_less-IsOneWay c.publisher_map,
)

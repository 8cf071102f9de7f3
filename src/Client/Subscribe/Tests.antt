-- ===== src/Client/Subscribe/Tests.antt =====
-- Tests of subscribing and closing.
use mathlib.Core.List.{Perm}
use auroralink.Prelude.{◌≡◌, ◌≢◌, ◌⊎◌, codes, [], ◌∷◌, ◌++◌}
use auroralink.Prelude.Eq.{nat_eq, text_eq, pair_eq}
use auroralink.Status.{ok}
use auroralink.Prelude.Assoc.{Map}
use auroralink.Prelude.Order.{keys}
use auroralink.Prelude.Order.Ascending.{IsAscending}
use auroralink.Client.Types.{EgdClient, EgdSubKey, EgdSubInfo, EgdPubKey, EgdPubInfo}
use auroralink.Client.Subscribe.{subscribe, destroy_client, sub_key_less, pub_key_less}
use auroralink.Client.Subscribe.Lifetime.{
  callbacks_at, subscribe_adds, closed_sockets, sockets_of, sockets_of_publishers, destroy_closes,
}
use auroralink.Samples.{sample_resolver, sample_replies, empty_client, sample_callback}

abbrev one_subscriber : EgdClient
one_subscriber =
    (subscribe sample_resolver sample_replies empty_client (codes "h") 9 sample_callback).0

subscribe_adds_example :
    (((subscribe sample_resolver sample_replies empty_client (codes "h") 9 sample_callback).1 ≡ ok)
      × (callbacks_at
            (codes "h", 9)
            (subscribe sample_resolver sample_replies empty_client (codes "h") 9 sample_callback).0
          ≡ callbacks_at (codes "h", 9) empty_client ++ sample_callback ∷ []))
    ⊎ (((subscribe sample_resolver sample_replies empty_client (codes "h") 9 sample_callback).1
          ≢ ok)
        × ((subscribe sample_resolver sample_replies empty_client (codes "h") 9 sample_callback).0
            ≡ empty_client))
subscribe_adds_example =
    subscribe_adds sample_resolver sample_replies empty_client (codes "h") 9 sample_callback

-- The endpoint that is added last has the first key.
abbrev two_subscribers : EgdClient
two_subscribers =
    (subscribe sample_resolver sample_replies one_subscriber (codes "a") 9 sample_callback).0

destroy_closes_example :
    (subscribers : Map EgdSubKey EgdSubInfo) × (publishers : Map EgdPubKey EgdPubInfo)
    × (closed_sockets (destroy_client two_subscribers)
        ≡ sockets_of subscribers ++ sockets_of_publishers publishers)
    × Perm subscribers two_subscribers.subscriber_map
    × IsAscending sub_key_less (keys sub_key_less subscribers)
    × Perm publishers two_subscribers.publisher_map
    × IsAscending pub_key_less (keys pub_key_less publishers)
destroy_closes_example = destroy_closes two_subscribers

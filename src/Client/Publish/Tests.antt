-- ===== src/Client/Publish/Tests.antt =====
-- Tests of what a publish comes to when the system refuses a call.
use auroralink.Prelude.{◌≡◌, ◌≢◌, refl, codes, [], ◌∷◌, arith}
use auroralink.Prelude.Int.{pos, negsuc}
use auroralink.Prelude.Eq.{nat_eq, text_eq, pair_eq}
use auroralink.Status.{ok, err_publish, err_broadcast, err_invalid_socket}
use auroralink.Client.Types.{Replies, open_socket, set_broadcast}
use auroralink.Client.Publish.{publish}
use auroralink.Client.Publish.Requests.{sent_requests}
use auroralink.Client.Publish.Outcomes.{
  failed_send_unreported, publish_refused, refused_broadcast_leaks, invalid_socket_is_zero,
}
use auroralink.Samples.{sample_page, sample_resolver, sample_replies, empty_client}

abbrev failing_send : Replies
failing_send = record sample_replies { sendto_reply = negsuc 0 }

failed_send_unreported_example :
    (publish sample_resolver failing_send empty_client (codes "h") 18246 sample_page (7 ∷ [])).1
    ≢ err_publish
failed_send_unreported_example =
    failed_send_unreported sample_resolver failing_send empty_client (codes "h") 18246 sample_page
      (7 ∷ []) 0 (omega arith) refl

abbrev no_broadcast : Replies
no_broadcast = record sample_replies { setsockopt_reply = negsuc 0 }

broadcast_refused :
    (publish sample_resolver no_broadcast empty_client (codes "h") 18246 sample_page (7 ∷ [])).1
    ≡ err_broadcast
unfolding publish
broadcast_refused = refl

refused_broadcast_leaks_example :
    ((publish sample_resolver no_broadcast empty_client (codes "h") 18246 sample_page (7 ∷ [])).0
      ≡ empty_client)
    × ((publish sample_resolver no_broadcast empty_client (codes "h") 18246 sample_page (7 ∷ [])).2
        ≡ open_socket (pos 3) ∷ set_broadcast (pos 3) ∷ [])
refused_broadcast_leaks_example =
    refused_broadcast_leaks sample_resolver no_broadcast empty_client (codes "h") 18246 sample_page
      (7 ∷ []) broadcast_refused

refused_is_no_ok :
    (publish sample_resolver no_broadcast empty_client (codes "h") 18246 sample_page (7 ∷ [])).1
    ≢ ok
refused_is_no_ok e = cc broadcast_refused

refused_is_unsent :
    (publish sample_resolver no_broadcast empty_client (codes "h") 18246 sample_page (7 ∷ [])).1
    ≢ err_publish
refused_is_unsent e = cc broadcast_refused

publish_refused_example :
    ((publish sample_resolver no_broadcast empty_client (codes "h") 18246 sample_page (7 ∷ [])).0
      ≡ empty_client)
    × (sent_requests
          (publish sample_resolver no_broadcast empty_client
            (codes "h")
            18246
            sample_page
            (7 ∷ [])).2
        ≡ [])
publish_refused_example =
    publish_refused sample_resolver no_broadcast empty_client (codes "h") 18246 sample_page (7 ∷ [])
      refused_is_no_ok refused_is_unsent

abbrev descriptor_zero : Replies
descriptor_zero = record sample_replies { socket_reply = pos 0 }

zero_refused :
    (publish sample_resolver descriptor_zero empty_client (codes "h") 18246 sample_page (7 ∷ [])).1
    ≡ err_invalid_socket
unfolding publish
zero_refused = refl

invalid_socket_is_zero_example : descriptor_zero.socket_reply ≡ pos 0
invalid_socket_is_zero_example =
    invalid_socket_is_zero sample_resolver descriptor_zero empty_client (codes "h") 18246
      sample_page (7 ∷ []) zero_refused

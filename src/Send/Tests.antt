-- ===== src/Send/Tests.antt =====
-- Tests of the sending program.
use auroralink.Prelude.{
  ℕ, ◌+◌, ◌*◌, ◌^◌, ◌<◌, ◌≡◌, refl, Text, codes, some, List, [], ◌∷◌, ◌++◌, length, replicate,
  arith, if◌then◌else◌,
}
use auroralink.Prelude.Int.{pos}
use auroralink.Spec.{read_header}
use auroralink.Config.Url.{decimal}
use auroralink.Client.Connect.{is_socket_error}
use auroralink.Client.Publish.Requests.{counting}
use auroralink.Send.Types.{SenderCall, sent, closed, DataProductionMessage, egd_max_data_size}
use auroralink.Send.Setup.{parse_address_string, setup_send_socket, address_at, invalid_socket}
use auroralink.Send.Clock.{sleep_until}
use auroralink.Send.Loop.Progress.{IsGood}
use auroralink.Send.Loop.Whole.{sender_example-sends}
use auroralink.Send.Clock.Schedule.{nanoseconds, IsNormal}
use auroralink.Send.Message.{init_header, send_data_message}
use auroralink.Send.Message.Interop.{
  as_libegd, stamp, IsSenderHeader, read_header-send_data_message,
}
use auroralink.Send.Loop.{
  SendState, send_loop, data_size, wake, finished, shutdown_call, sender_example,
}
use auroralink.Send.Loop.Sequence.{CountFacts, send_loop-count}
use auroralink.Send.Loop.Requests.{sent_ids, send_loop-ids}
use auroralink.Send.Loop.Drift.{is_overrun, wake_schedule}
use auroralink.Send.Main.{main, parse_positive_int}
use auroralink.Send.Main.Numbers.{parse_positive_int-decimal}
use auroralink.Send.Main.Closing.{main_closes}
use auroralink.Send.Main.Sockets.{opened_sockets, closed_sockets}
use auroralink.Samples.{
  sample_doubles, sample_resolver, sample_addr, sample_round, sample_sender_replies, at_second,
}

abbrev pub begun : SendState ℕ
begun = record {
  message = record { hdr = init_header 42 1 0; payload = replicate egd_max_data_size 0 };
  message_count = 0;
  total_sent = 0;
  stats = record {
    min_jitter_ms = 0;
    max_jitter_ms = 0;
    total_jitter_ms = 0;
    min_send_time_ms = 0;
    max_send_time_ms = 0;
    total_send_time_ms = 0;
    samples = 0;
  };
  next_wake_time = at_second 2;
}

begun-small : begun.message.hdr.req_id < 2 ^ 16
unfolding init_header
begun-small = omega arith

send_loop-ids_example :
    sent_ids
      (send_loop sample_doubles
        (pos 3)
        sample_addr
        1000
        2
        (sample_round ∷ sample_round ∷ [])
        begun).2
    ≡ counting begun.message.hdr.req_id (
        length
          (send_loop sample_doubles
            (pos 3)
            sample_addr
            1000
            2
            (sample_round ∷ sample_round ∷ [])
            begun).2)
send_loop-ids_example =
    send_loop-ids sample_doubles (pos 3) sample_addr 1000 2 (sample_round ∷ sample_round ∷ []) begun
      begun-small

send_loop-count_example :
    CountFacts sample_doubles
      (pos 3)
      sample_addr
      1000
      2
      (send_loop sample_doubles
        (pos 3)
        sample_addr
        1000
        2
        (sample_round ∷ sample_round ∷ [])
        begun).0.total_sent
      (send_loop sample_doubles
        (pos 3)
        sample_addr
        1000
        2
        (sample_round ∷ sample_round ∷ [])
        begun).1
send_loop-count_example =
    send_loop-count sample_doubles (pos 3) sample_addr 1000 2 (sample_round ∷ sample_round ∷ [])
      begun (omega arith) (omega arith)

wake_schedule_example :
    IsNormal (wake sample_doubles (pos 3) sample_addr 1000 2 begun sample_round).next_wake_time
    × (nanoseconds
          (wake sample_doubles (pos 3) sample_addr 1000 2 begun sample_round).next_wake_time
        ≡ nanoseconds (
            if is_overrun sample_doubles (pos 3) sample_addr 1000 2 begun sample_round
            then at_second 2
            else at_second 2)
          + 1000 * 1000000)
wake_schedule_example =
    wake_schedule sample_doubles (pos 3) sample_addr 1000 2 begun sample_round (omega arith)
      (omega arith)

begun-IsSenderHeader : IsSenderHeader begun.message.hdr
unfolding init_header
begun-IsSenderHeader = (
  record {
    pdu_type_fits = omega arith;
    version_fits = omega arith;
    req_id_fits = omega arith;
    producer_id_fits = omega arith;
    exchange_id_fits = omega arith;
    tv_sec_fits = omega arith;
    tv_nsec_fits = omega arith;
    status_fits = omega arith;
    reserved_a_fits = omega arith;
    signature_fits = omega arith;
    reserved_b_fits = omega arith;
    config_time_secs_fits = omega arith;
  },
  refl,
)

read_header-send_data_message_example :
    (bytes : List ℕ) × ((send_data_message
        (pos 3)
        sample_addr
        begun.message
        data_size
        (at_second 50)
        (pos 82)).2
      ≡ sent (pos 3) bytes sample_addr)
    × (read_header bytes ≡ as_libegd (stamp (at_second 50) begun.message.hdr))
read_header-send_data_message_example =
    read_header-send_data_message (pos 3) sample_addr begun.message (at_second 50) (pos 82)
      begun-IsSenderHeader

parse_positive_int-decimal_example : parse_positive_int (decimal 60000) ≡ some 60000
parse_positive_int-decimal_example = parse_positive_int-decimal 60000 (omega arith)

plus_ten : parse_positive_int (codes " +10") ≡ some 10
unfolding parse_positive_int
plus_ten = refl

abbrev host_only : List Text
host_only = codes "192.168.1.100" ∷ codes "1000" ∷ codes "2" ∷ []

abbrev host_calls : List SenderCall
host_calls = (main sample_doubles sample_resolver sample_sender_replies host_only).1

host_ends :
    main sample_doubles sample_resolver sample_sender_replies host_only ≡ (some 0, host_calls)
unfolding main is_socket_error
host_ends = refl

main_closes_example : closed_sockets host_calls ≡ opened_sockets host_calls
main_closes_example =
    main_closes sample_doubles sample_resolver sample_sender_replies host_only 0 host_calls
      host_ends

found : parse_address_string sample_resolver (codes "127.0.0.1") ≡ some (address_at 0x0100_007f)
unfolding parse_address_string
found = refl

set_up : (setup_send_socket sample_sender_replies).1 ≡ 0
unfolding setup_send_socket is_socket_error
set_up = refl

sample_round-IsGood : IsGood sample_round
unfolding is_socket_error sleep_until
sample_round-IsGood = (refl, refl, refl)

sender_example-sends_example :
    (calls : List SenderCall) × (last : DataProductionMessage) × (sender_example sample_doubles
        sample_resolver sample_sender_replies
        (pos 0)
        (codes "127.0.0.1")
        1000
        2
      ≡ finished invalid_socket 0 (
          (setup_send_socket sample_sender_replies).2
          ++ calls
          ++ shutdown_call sample_doubles sample_resolver sample_sender_replies
              (pos 3)
              (address_at 0x0100_007f)
              last
            ∷ closed (pos 3)
            ∷ []))
    × (length calls ≡ 2)
    × (sent_ids calls ≡ counting 0 2)
unfolding setup_send_socket is_socket_error
sender_example-sends_example =
    sender_example-sends sample_doubles sample_resolver sample_sender_replies (pos 0)
      (codes "127.0.0.1") 1000 2 (address_at 0x0100_007f) (omega arith) (omega arith) set_up found
      (omega arith) (omega arith) (sample_round-IsGood, (sample_round-IsGood, tt)) (omega arith)

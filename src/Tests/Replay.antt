-- ===== src/Tests/Replay.antt =====
-- The replayer at a concrete capture.
use quant_feed_handler.Arbitrator.Order.{count_up}
use quant_feed_handler.Base.{
  suc, List, [], ◌∷◌, ◌++◌, some, ◌≡◌, refl, map, length, replicate, All, arith,
}
use quant_feed_handler.Base.Int.{signed32, pattern32}
use quant_feed_handler.Feed.Stream.{AllValid}
use quant_feed_handler.Protocol.{
  WireMessage, add, cancel, exec, seq_no, of_add, of_cancel, of_exec, expected_size,
}
use quant_feed_handler.Replay.{
  packet_header, scan, frame_message, read_packets, read_capture, synthetic_messages,
  messages_to_replay, datagram,
}
use quant_feed_handler.Replay.Capture.{
  Frame, packet, packets, capture, taken_from, read_capture-capture, read_packets-fuel,
}
use quant_feed_handler.Replay.Datagrams.{Arrives}
use quant_feed_handler.Replay.Sent.{messages_to_replay-Arrives}
use quant_feed_handler.Replay.Synthetic.{synthetic_messages-AllValid}
use quant_feed_handler.Tests.Data.{a_bid, a_cancel}
use quant_feed_handler.Validator.{validate_and_parse, check_fields}

program : Unit {0}
unfolding signed32 pattern32 add cancel exec seq_no of_add of_cancel of_exec expected_size
    packet_header scan frame_message read_packets read_capture datagram packet packets capture
    taken_from validate_and_parse check_fields
program = tt

-- An order behind six bytes, a packet that is too short, and a cancellation at the end of a packet,
-- as it is sent: its 29 bytes start after the last offset that is tried.
unfoldable frames : List Frame
frames =
    record { ts_sec = 1; ts_usec = 2; bytes = replicate 6 0 ++ of_add a_bid }
    ∷ record { ts_sec = 1; ts_usec = 3; bytes = 1 ∷ 2 ∷ [] }
    ∷ record { ts_sec = 1; ts_usec = 4; bytes = replicate 42 0 ++ datagram (of_cancel a_cancel) }
    ∷ []

frames_test : read_capture (capture (replicate 20 0) frames) ≡ of_add a_bid ∷ []
unfolding program frames
frames_test = refl

read_capture-capture_example : read_capture (capture (replicate 20 0) frames) ≡ taken_from frames
read_capture-capture_example =
    read_capture-capture (replicate 20 0) frames refl
      (unfold program frames in (omega arith, (omega arith, (omega arith, tt))))

messages_to_replay-Arrives_example :
    All Arrives (messages_to_replay (some (capture (replicate 20 0) frames)))
messages_to_replay-Arrives_example =
    messages_to_replay-Arrives (some (capture (replicate 20 0) frames))

synthetic_messages-AllValid_example :
    AllValid (synthetic_messages 9) × (map seq_no (synthetic_messages 9) ≡ count_up 1 9)
synthetic_messages-AllValid_example = synthetic_messages-AllValid 9 (omega arith)

read_packets-fuel_example :
    (ms : List WireMessage) × (read_packets 500 (packets frames) ≡ some ms)
    × (read_packets (suc (length (packets frames))) (packets frames) ≡ some ms)
read_packets-fuel_example =
    read_packets-fuel 500 (packets frames) (unfold program frames in omega arith)

-- ===== src/Tests/Server.antt =====
-- The generator and the tape of the stream server at concrete draws.
use quant_feed_handler.Arbitrator.Order.{count_up}
use quant_feed_handler.Base.{
  ℕ, ◌+◌, ◌%◌, List, [], ◌∷◌, ◌≡◌, refl, map, length, get_or, replicate, arith,
}
use quant_feed_handler.Protocol.{msg_type, seq_no, of_add, of_cancel, of_exec}
use quant_feed_handler.Feed.{drop_order, stream}
use quant_feed_handler.Feed.Stream.{AllValid}
use quant_feed_handler.Server.{
  Draws, Burst, generate, generate_all, generated_add, generated_cancel, generated_exec,
}
use quant_feed_handler.Server.Generate.{InRange, generate_all-AllValid}
use quant_feed_handler.Base.Int.{ℤ, pos}
use quant_feed_handler.Server.Histogram.{no_samples, observe_all, observe_all-count}
use quant_feed_handler.Server.Tape.{Tape, no_packet, packet_of, record_all, record_all-recent}
use quant_feed_handler.Tests.Data.{adds}

abbrev draws_of : ℕ → Draws
draws_of action = record {
  now_ns = 1000;
  action = action;
  side = 0;
  bid_spread = 9997;
  ask_spread = 10002;
  qty = 40;
  index = 0;
}

draws-InRange : (action : ℕ) → InRange (draws_of action)
draws-InRange action = record {
  time_fits = omega arith;
  low_bid = omega arith;
  high_bid = omega arith;
  low_ask = omega arith;
  high_ask = omega arith;
  low_qty = omega arith;
  high_qty = omega arith;
}

-- An add, a fill, a full cancellation, and an add because no order is left.
abbrev rounds : List Draws
rounds = draws_of 3 ∷ draws_of 95 ∷ draws_of 70 ∷ draws_of 70 ∷ []

abbrev start : Burst
start = record { user_seq_no = 5; active_orders = [] }

types_test : map (λ m. msg_type m) (generate_all rounds start) ≡ b'A' ∷ b'E' ∷ b'X' ∷ b'A' ∷ []
unfolding generate generate_all stream generated_add generated_cancel generated_exec drop_order
    of_add of_cancel of_exec
types_test = refl

generate_all-AllValid_example :
    AllValid (generate_all rounds start)
    × (map seq_no (generate_all rounds start) ≡ count_up 5 (length rounds))
generate_all-AllValid_example =
    generate_all-AllValid rounds start
      (draws-InRange 3, (draws-InRange 95, (draws-InRange 70, (draws-InRange 70, tt))))
      (omega arith, tt) (omega arith)

abbrev empty_tape : Tape
empty_tape = record { recent = replicate 30 no_packet; head = 0 }

record_all-recent_example :
    get_or (record_all empty_tape adds).recent ((0 + 1) % 30) no_packet
    ≡ packet_of (get_or adds 1 [])
record_all-recent_example =
    record_all-recent adds empty_tape 1 refl (unfold adds in omega arith)
      (unfold adds in omega arith) (unfold adds in omega arith)

abbrev samples : List ℤ
samples = pos 90 ∷ pos 3000 ∷ pos 100 ∷ pos 200000 ∷ []

observe_all-count_example :
    let b = observe_all no_samples samples in
    (b.bucket_100ns ≡ 2)
    × (b.bucket_250ns ≡ 2)
    × (b.bucket_500ns ≡ 2)
    × (b.bucket_1us ≡ 2)
    × (b.bucket_2_5us ≡ 2)
    × (b.bucket_5us ≡ 3)
    × (b.bucket_10us ≡ 3)
    × (b.bucket_25us ≡ 3)
    × (b.bucket_50us ≡ 3)
    × (b.bucket_100us ≡ 3)
    × (b.bucket_inf ≡ 4)
observe_all-count_example = observe_all-count samples (omega arith)

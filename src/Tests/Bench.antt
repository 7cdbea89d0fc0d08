-- ===== src/Tests/Bench.antt =====
-- The modes of the benchmark program that read lines or make up a feed, at concrete inputs.
use quant_feed_handler.Base.{
  true, false, none, ℕ, ◌+◌, ◌-◌, List, [], ◌∷◌, ◌++◌, some, ◌≡◌, refl, map, length, All, arith,
}
use quant_feed_handler.Base.Int.{pos}
use quant_feed_handler.Base.Texts.{codes}
use quant_feed_handler.Bench.{generate_mock_feed, mock_round, mock_add, mock_cancel, mock_exec}
use quant_feed_handler.Bench.Arguments.{
  Numbers, user_file, live_udp, benchmarks, take_argument, take_arguments, mode_of, main_mode,
}
use quant_feed_handler.Bench.Arguments.Bounds.{InBounds, main_mode-InBounds}
use quant_feed_handler.Bench.Console.{Console, run_console, run_console-reset}
use quant_feed_handler.Bench.Direct.{run_direct_benchmark, run_direct_benchmark-Models}
use quant_feed_handler.Bench.Pipeline.Benchmark.{bench_book}
use quant_feed_handler.Bench.UserFile.{user_messages, run_user_file, run_user_file-gaps}
use quant_feed_handler.Book.{process_all}
use quant_feed_handler.Book.Refine.{Models}
use quant_feed_handler.Book.Run.{steps, no_orders}
use quant_feed_handler.Exchange.{
  publish, published_add, published_cancel, published_exec, publish_all,
}
use quant_feed_handler.Bench.Live.{run_live_udp, run_bound, run_live_udp-publish_all}
use quant_feed_handler.Udp.{Sockets, Arrival, datagram_of, would_block, fails, bind, bind_socket}
use quant_feed_handler.Feed.{drop_order, stream}
use quant_feed_handler.Feed.Mock.{MockDraws, IsMock}
use quant_feed_handler.Feed.Stream.{AllValid}
use quant_feed_handler.Protocol.{WireMessage, msg_type, of_add, of_cancel, of_exec}
use quant_feed_handler.Tests.Data.{library, library-Fits, line}
use quant_feed_handler.Validator.Line.{
  Text, tokenize, price_ticks, parse_add, parse_cancel, executed, parse_execute, parse_typed,
  parse_tokens, parse_user_line,
}
use quant_feed_handler.Base.Int.{wrap32, signed32, pattern32}

program : Unit {0}
unfolding mock_round mock_add mock_cancel mock_exec generate_mock_feed stream drop_order of_add
    of_cancel of_exec publish published_add published_cancel published_exec publish_all
    take_argument take_arguments mode_of main_mode pattern32 tokenize price_ticks parse_add
    parse_cancel executed parse_execute parse_typed parse_tokens parse_user_line wrap32 signed32
program = tt

abbrev draws_of : ℕ → MockDraws
draws_of action = record {
  now_ns = 1000;
  action = action;
  side = 1;
  bid_price = 9960;
  ask_price = 10003;
  qty = 40;
  index = 0;
}

draws_of-IsMock : (action : ℕ) → IsMock (draws_of action)
draws_of-IsMock action = record {
  time_fits = omega arith;
  low_bid = omega arith;
  high_bid = omega arith;
  low_ask = omega arith;
  high_ask = omega arith;
  low_qty = omega arith;
  high_qty = omega arith;
}

-- A fill that finds no order and becomes an add, a fill, a full cancellation, and a cancellation
-- that finds no order.
abbrev rounds : List MockDraws
rounds = draws_of 95 ∷ draws_of 92 ∷ draws_of 66 ∷ draws_of 70 ∷ []

rounds-IsMock : All IsMock rounds
rounds-IsMock =
    (draws_of-IsMock 95, (draws_of-IsMock 92, (draws_of-IsMock 66, (draws_of-IsMock 70, tt))))

mock_types_test : map (λ m. msg_type m) (generate_mock_feed rounds) ≡ b'A' ∷ b'E' ∷ b'X' ∷ b'A' ∷ []
unfolding program
mock_types_test = refl

published_types_test : map (λ m. msg_type m) (publish_all rounds) ≡ b'A' ∷ b'E' ∷ b'X' ∷ b'A' ∷ []
unfolding program
published_types_test = refl

-- Each datagram comes after a call that finds none and before one that fails.
abbrev arriving : List WireMessage → List Arrival
arriving [] = []
arriving (d ∷ ds) = would_block ∷ datagram_of d ∷ fails ∷ arriving ds

abbrev sockets : Sockets
sockets = record { socket = some 3; binds = λ fd. true }

refused_test :
    run_live_udp (record { socket = some 3; binds = λ fd. false }) (arriving (publish_all rounds))
    ≡ none
unfolding program run_live_udp run_bound bind bind_socket
refused_test = refl

run_live_udp-publish_all_example :
    (run_live_udp sockets (arriving (publish_all rounds))
      ≡ some (process_all bench_book (publish_all rounds)))
    × AllValid (publish_all rounds)
    × ((process_all bench_book (publish_all rounds)).sequence_gaps_detected ≡ 0)
run_live_udp-publish_all_example =
    run_live_udp-publish_all sockets 3 (arriving (publish_all rounds)) rounds refl refl
      rounds-IsMock (omega arith) (unfold program in refl)

run_direct_benchmark-Models_example :
    Models 5 (run_direct_benchmark rounds) (steps 5 no_orders (generate_mock_feed rounds))
    × ((run_direct_benchmark rounds).sequence_gaps_detected ≡ 0)
run_direct_benchmark-Models_example = run_direct_benchmark-Models rounds rounds-IsMock (omega arith)

-- Every number is read as three million.
abbrev numbers : Numbers
numbers = record { atoi = λ s. pos 3000000; strtoull = λ s. 3000000 }

abbrev bench_arguments : List Text
bench_arguments = codes "--bench" ∷ codes "3000000" ∷ []

bench_test : main_mode numbers bench_arguments ≡ benchmarks 2000000
unfolding program
bench_test = refl

live_test : main_mode numbers (codes "--live" ∷ codes "3000000" ∷ []) ≡ live_udp 50880
unfolding program
live_test = refl

file_test :
    main_mode numbers (codes "--bench" ∷ codes "-f" ∷ codes "a.csv" ∷ [])
    ≡ user_file (codes "a.csv")
unfolding program
file_test = refl

main_mode-InBounds_example : InBounds (main_mode numbers bench_arguments)
main_mode-InBounds_example = main_mode-InBounds numbers bench_arguments

-- A header and a comment in front of an order.
abbrev comments : List Text
comments = codes "# Type,OrderId,Side,Price,Quantity" ∷ codes "// orders" ∷ []

run_user_file-gaps_example :
    let lines = comments ++ line ∷ [] in
    let ms = user_messages library lines 1 in
    let book = process_all bench_book ms in
    (run_user_file library lines ≡ some book)
    × (book.sequence_gaps_detected + length ms ≡ length lines)
run_user_file-gaps_example =
    run_user_file-gaps library library-Fits comments line (unfold program in refl) (omega arith)

abbrev later : Console
later = record { book = bench_book; seq_no = 8 }

run_console-reset_example :
    (run_console library (codes "RESET" ∷ line ∷ []) later).1.book.sequence_gaps_detected ≡ 8 - 1
run_console-reset_example =
    run_console-reset library line later library-Fits refl refl refl refl (unfold program in refl)
      (omega arith) (omega arith)

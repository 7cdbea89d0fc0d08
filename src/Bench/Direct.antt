-- ===== src/Bench/Direct.antt =====
-- `runDirectBenchmark` of src/main.cpp, less the clock: the book that the made-up feed gives.
use quant_feed_handler.Base.{◌^◌, ◌≤◌, List, ◌≡◌, sym, ap, ◌∙◌, length, length-map, All, arith}
use quant_feed_handler.Arbitrator.Order.{length-count_up}
use quant_feed_handler.Bench.{generate_mock_feed}
use quant_feed_handler.Bench.Mock.{generate_mock_feed-AllValid}
use quant_feed_handler.Bench.Pipeline.Benchmark.{bench_book}
use quant_feed_handler.Book.{LimitOrderBook, reset, process_all}
use quant_feed_handler.Book.Gapless.{process_all-gapless}
use quant_feed_handler.Book.Refine.{Models}
use quant_feed_handler.Book.Run.{steps, no_orders, run_refines}
use quant_feed_handler.Feed.Mock.{MockDraws, IsMock}
use quant_feed_handler.Protocol.{seq_no}

unfoldable pub run_direct_benchmark : List MockDraws → LimitOrderBook
run_direct_benchmark ds = process_all bench_book (generate_mock_feed ds)

-- The benchmark of at most as many messages as the array of the feed holds, 2,000,000, finds no
-- gap in the sequence numbers, and its book shows what the abstract steps give. The draws are
-- within the ranges of their distributions.
pub run_direct_benchmark-Models :
    (ds : List MockDraws)
    → All IsMock ds
    → length ds ≤ 2000000
    → Models 5 (run_direct_benchmark ds) (steps 5 no_orders (generate_mock_feed ds))
      × ((run_direct_benchmark ds).sequence_gaps_detected ≡ 0)
unfolding run_direct_benchmark bench_book reset
run_direct_benchmark-Models ds all few =
    let feed = generate_mock_feed ds in
    let numbers = (generate_mock_feed-AllValid ds all (omega arith)).1 in
    let size : length feed ≡ length ds =
      sym (length-map feed seq_no) ∙ ap (λ l. length l) numbers ∙ length-count_up 1 (length ds) in
    (
      run_refines 5 21 feed (omega arith) (omega arith) (omega (arith, size)),
      (process_all-gapless feed (reset 5 (2 ^ 21)) (rw size numbers) (omega (arith, size))).0,
    )

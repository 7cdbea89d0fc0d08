-- ===== src/Bench/Pipeline/Benchmark.antt =====
-- `runSPSCBenchmark` with the ring buffer and the book that it declares.
use quant_feed_handler.Base.{
  ◌+◌, ◌*◌, ◌^◌, List, [], ◌∷◌, ◌≡◌, refl, sym, ◌∙◌, length, length-replicate, arith,
}
use quant_feed_handler.Bench.Channel.{ring_channel, queue_channel, ring-queue}
use quant_feed_handler.Bench.Pipeline.{starting, waiting, left, Pipeline, Turn, run, alternate}
use quant_feed_handler.Bench.Pipeline.Finish.{run-finishes}
use quant_feed_handler.Bench.Pipeline.Order.{IsOnCourse, process_list, run-IsOnCourse, left-final}
use quant_feed_handler.Bench.Pipeline.Simulate.{Mirrors, run-Mirrors}
use quant_feed_handler.Book.{LimitOrderBook, reset, process_message, process_all}
use quant_feed_handler.Protocol.{WireMessage}
use quant_feed_handler.Ring.{SpscRingBuffer, create}
use quant_feed_handler.Ring.Calls.{create-Represents}
use quant_feed_handler.Validator.Line.{zeroed}

abbrev pub Threads : Type 0
Threads = Pipeline WireMessage (SpscRingBuffer WireMessage) LimitOrderBook

-- The empty book of the benchmarks.
unfoldable pub bench_book : LimitOrderBook
bench_book = reset 5 (2 ^ 21)

unfoldable pub spsc_start : List WireMessage → Threads
spsc_start feed = record {
  channel = create (2 ^ 16) zeroed;
  todo = feed;
  main = starting;
  worker = waiting;
  book = bench_book;
}

unfoldable pub run_spsc_benchmark : List Turn → Threads → Threads
run_spsc_benchmark = run (ring_channel zeroed) process_message

abbrev over_queue : List WireMessage → Pipeline WireMessage (List WireMessage) LimitOrderBook
over_queue feed = record {
  channel = [];
  todo = feed;
  main = starting;
  worker = waiting;
  book = bench_book;
}

spsc_start-Mirrors :
    (feed : List WireMessage)
    → Mirrors (ring-queue zeroed (2 ^ 16)) process_message (spsc_start feed) (over_queue feed)
unfolding spsc_start ring-queue create
spsc_start-Mirrors feed = record {
  channels = (create-Represents zeroed 16 (omega arith), length-replicate (2 ^ 16) zeroed);
  todo = refl;
  main = refl;
  worker = refl;
  book = refl;
}

process_list-process_all :
    (book : LimitOrderBook) (ms : List WireMessage)
    → process_list process_message book ms ≡ process_all book ms
unfolding process_all
process_list-process_all book [] = refl
process_list-process_all book (m ∷ ms) = process_list-process_all (process_message book m) ms

-- The same schedule over a queue.
mirrored :
    (feed : List WireMessage) (ts : List Turn)
    → Mirrors
        (ring-queue zeroed (2 ^ 16))
        process_message
        (run_spsc_benchmark ts (spsc_start feed))
        (run (queue_channel (2 ^ 16)) process_message ts (over_queue feed))
unfolding run_spsc_benchmark
mirrored feed ts =
    run-Mirrors (ring-queue zeroed (2 ^ 16)) process_message ts (spsc_start feed) (over_queue feed)
      (spsc_start-Mirrors feed)

-- Whatever the schedule of the two threads: once the worker has left its loop, the book is the one
-- that processing the whole feed in its order gives.
pub run_spsc_benchmark-book :
    (feed : List WireMessage) (ts : List Turn)
    → (run_spsc_benchmark ts (spsc_start feed)).worker ≡ left
    → (run_spsc_benchmark ts (spsc_start feed)).book ≡ process_all bench_book feed
run_spsc_benchmark-book feed ts gone =
    let m = mirrored feed ts in
    let final = process_list process_message bench_book feed in
    let t = run (queue_channel (2 ^ 16)) process_message ts (over_queue feed) in
    let v : IsOnCourse process_message final t =
      run-IsOnCourse process_message final (2 ^ 16) ts (over_queue feed)
        (record { heads_for = refl; main_done = tt; worker_done = tt }) in
    m.book
    ∙ left-final process_message final t (sym m.worker ∙ gone) v
    ∙ process_list-process_all bench_book feed

-- Neither thread is ever stuck: whatever the schedule was so far, when the threads take turns from
-- then on, the worker leaves its loop within 8 n + 13 rounds, where n is the length of the feed.
pub run_spsc_benchmark-left :
    (feed : List WireMessage) (ts : List Turn)
    → (run_spsc_benchmark
        (alternate (8 * length feed + 13))
        (run_spsc_benchmark ts (spsc_start feed))).worker
      ≡ left
unfolding run_spsc_benchmark
run_spsc_benchmark-left feed ts =
    let sim = ring-queue zeroed (2 ^ 16) in
    let n = 8 * length feed + 13 in
    let t = run (queue_channel (2 ^ 16)) process_message ts (over_queue feed) in
    let m =
      run-Mirrors sim process_message (alternate n) (run_spsc_benchmark ts (spsc_start feed)) t
        (mirrored feed ts) in
    m.worker
    ∙ run-finishes process_message (2 ^ 16) ts (over_queue feed) n (omega arith) (omega arith)

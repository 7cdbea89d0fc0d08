-- ===== src/Tests/Threads.antt =====
-- The two threads of the benchmark at a concrete feed.
use quant_feed_handler.Base.{
  ℕ, ◌+◌, ◌*◌, ◌^◌, ◌≤◌, List, [], ◌∷◌, ◌++◌, ◌≡◌, refl, length, leb, ◌==◌, arith,
}
use quant_feed_handler.Bench.Channel.{queue_channel}
use quant_feed_handler.Bench.Pipeline.{
  starting, waiting, left, Pipeline, Turn, main_turn, worker_turn, push_step, main_step_at,
  main_step, pop_step, worker_step_at, worker_step, turn, run, alternate,
}
use quant_feed_handler.Bench.Pipeline.Benchmark.{
  bench_book, spsc_start, run_spsc_benchmark, run_spsc_benchmark-book, run_spsc_benchmark-left,
}
use quant_feed_handler.Book.{process_all}
use quant_feed_handler.Ring.{create}
use quant_feed_handler.Ring.Fifo.{push_bounded}
use quant_feed_handler.Ring.Steps.{
  Access, produces, consumes, seems_full, seems_empty, load_tail, load_head, produce_at, consume_at,
  access, accesses,
}
use quant_feed_handler.Ring.Steps.Order.{sides_start, accesses-InOrder}
use quant_feed_handler.Tests.Data.{adds}

-- The main thread runs ahead, and the worker starts late.
abbrev ahead : List Turn
ahead = main_turn ∷ main_turn ∷ worker_turn ∷ main_turn ∷ main_turn ∷ []

run_spsc_benchmark-left_example :
    (run_spsc_benchmark
      (alternate (8 * length adds + 13))
      (run_spsc_benchmark ahead (spsc_start adds))).worker
    ≡ left
run_spsc_benchmark-left_example = run_spsc_benchmark-left adds ahead

abbrev in_turns : List Turn
in_turns = alternate (8 * length adds + 13)

in_turns-left : (run_spsc_benchmark in_turns (spsc_start adds)).worker ≡ left
unfolding run_spsc_benchmark run
in_turns-left = run_spsc_benchmark-left adds []

run_spsc_benchmark-book_example :
    (run_spsc_benchmark in_turns (spsc_start adds)).book ≡ process_all bench_book adds
run_spsc_benchmark-book_example = run_spsc_benchmark-book adds in_turns in_turns-left

-- A queue of two numbers, a book that lists what came.
abbrev small : Pipeline ℕ (List ℕ) (List ℕ)
small = record { channel = []; todo = 4 ∷ 5 ∷ 6 ∷ []; main = starting; worker = waiting; book = [] }

small_test : (run (queue_channel 2) (λ b a. a ∷ b) (alternate 20) small).book ≡ 6 ∷ 5 ∷ 4 ∷ []
unfolding push_step main_step_at main_step pop_step worker_step_at worker_step turn run push_bounded
small_test = refl

-- Two pushes and the start of a third, with a pop between their accesses.
abbrev mixed : List (Access ℕ)
mixed =
    produces 4
    ∷ consumes
    ∷ produces 4
    ∷ consumes
    ∷ produces 4
    ∷ consumes
    ∷ consumes
    ∷ produces 5
    ∷ consumes
    ∷ produces 5
    ∷ consumes
    ∷ produces 5
    ∷ consumes
    ∷ produces 6
    ∷ []

mixed_test :
    let s = accesses 0 mixed (sides_start 0 (2 ^ 1)) in
    (s.pushed ≡ 4 ∷ 5 ∷ []) × (s.popped ≡ 4 ∷ [])
unfolding access accesses produce_at consume_at sides_start create
mixed_test = (refl, refl)

accesses-InOrder_example :
    let s = accesses 0 mixed (sides_start 0 (2 ^ 1)) in
    (queue : List ℕ) × (s.pushed ≡ s.popped ++ queue)
    × (length queue ≤ 2 ^ 1)
    × (seems_full (load_tail s.ring) ≡ leb (2 ^ 1) (length queue))
    × (seems_empty (load_head s.ring) ≡ (length queue == 0))
accesses-InOrder_example = accesses-InOrder 0 1 mixed (omega arith)

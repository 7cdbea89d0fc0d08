-- ===== src/Bench/Pipeline.antt =====
-- The two threads of `runSPSCBenchmark` in src/main.cpp: the main thread pushes the feed, the
-- worker pops it into a book. A step of a thread is one access to what they share: a flag or one
-- call on the buffer. A schedule says which thread takes each step.
pub mod Simulate
pub mod Order
pub mod Finish
pub mod Benchmark
use quant_feed_handler.Base.{
  ℕ, zero, suc, List, [], ◌∷◌, ◌++◌, Option, none, some, Bool, true, false, if◌then◌else◌,
}
use quant_feed_handler.Bench.Channel.{Channel}

-- Before the start flag is set, in the loop of pushes, and after `producerFinished` is set.
pub data Main : Type 0 where
  starting : Main
  pushing : Main
  finished : Main

-- Waiting for the start flag, before the load of `producerFinished`, before the call of `empty`,
-- before the call of `tryPop`, and out of the loop.
pub data Worker : Type 0 where
  waiting : Worker
  testing : Worker
  checking : Worker
  popping : Worker
  left : Worker

pub record Pipeline (A C B : Type 0) : Type 0 where
  pub channel : C
  pub todo : List A
  pub main : Main
  pub worker : Worker
  pub book : B

pub data Turn : Type 0 where
  main_turn : Turn
  worker_turn : Turn

-- The start flag is set once the main thread has left `starting`.
abbrev pub wait_step : Main → Worker
wait_step starting = waiting
wait_step pushing = testing
wait_step finished = testing

-- The loop goes on at once while the flag is not set.
abbrev pub test_step : Main → Worker
test_step starting = popping
test_step pushing = popping
test_step finished = checking

module _ {A B : Type 0} (c : Channel A) (process : B → A → B) where
  -- One call of `tryPush` in the inner loop: the message stays when the buffer is full.
  unfoldable pub push_step :
      Pipeline A c.Carrier B → A → List A → Bool × c.Carrier → Pipeline A c.Carrier B
  push_step s a rest (true, r) = record s { channel = r; todo = rest }
  push_step s a rest (false, r) = record s { channel = r }

  unfoldable pub main_step_at : Pipeline A c.Carrier B → Main → List A → Pipeline A c.Carrier B
  main_step_at s starting todo = record s { main = pushing }
  main_step_at s pushing [] = record s { main = finished }
  main_step_at s pushing (a ∷ rest) = push_step s a rest (c.push s.channel a)
  main_step_at s finished todo = s

  unfoldable pub main_step : Pipeline A c.Carrier B → Pipeline A c.Carrier B
  main_step s = main_step_at s s.main s.todo

  -- `if (ringBuffer.tryPop(msg)) book.processMessage(msg);`
  unfoldable pub pop_step : Pipeline A c.Carrier B → Option A × c.Carrier → Pipeline A c.Carrier B
  pop_step s (none, r) = record s { channel = r; worker = testing }
  pop_step s (some a, r) = record s { channel = r; worker = testing; book = process s.book a }

  unfoldable pub worker_step_at : Pipeline A c.Carrier B → Worker → Pipeline A c.Carrier B
  worker_step_at s waiting = record s { worker = wait_step s.main }
  worker_step_at s testing = record s { worker = test_step s.main }
  worker_step_at s checking = record s { worker = if c.is_drained s.channel then left else popping }
  worker_step_at s popping = pop_step s (c.pop s.channel)
  worker_step_at s left = s

  unfoldable pub worker_step : Pipeline A c.Carrier B → Pipeline A c.Carrier B
  worker_step s = worker_step_at s s.worker

  unfoldable pub turn : Turn → Pipeline A c.Carrier B → Pipeline A c.Carrier B
  turn main_turn s = main_step s
  turn worker_turn s = worker_step s

  unfoldable pub run : List Turn → Pipeline A c.Carrier B → Pipeline A c.Carrier B
  run [] s = s
  run (t ∷ ts) s = run ts (turn t s)

-- So many rounds in which each thread takes a step.
abbrev pub alternate : ℕ → List Turn
alternate zero = []
alternate (suc n) = main_turn ∷ worker_turn ∷ alternate n

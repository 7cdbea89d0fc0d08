-- ===== src/Bench/Pipeline/Order.antt =====
-- What reaches the book, over a queue between the threads.
use quant_feed_handler.Base.{
  ℕ, List, [], ◌∷◌, ◌++◌, false, ◌≡◌, ◌≢◌, refl, ap, ◌∙◌, inl, inr, length, ltb, ◌==◌, Bool-cases,
  if◌then◌else◌, arith,
}
use quant_feed_handler.Bench.Channel.{queue_channel}
use quant_feed_handler.Bench.Pipeline.{
  Main, starting, pushing, finished, Worker, waiting, testing, checking, popping, left, Pipeline,
  Turn, main_turn, worker_turn, push_step, main_step_at, main_step, wait_step, test_step, pop_step,
  worker_step_at, worker_step, turn, run,
}
use quant_feed_handler.Ring.Fifo.{push_bounded, pop_front}

-- Nothing is left to push once the main thread has finished, and the worker leaves only then, with
-- the queue empty.
abbrev pub MainDone {ℓ} : {A : Type ℓ} → Main → List A → Type ℓ
MainDone starting todo = Unit
MainDone pushing todo = Unit
MainDone finished todo = todo ≡ []

abbrev pub WorkerDone : {A : Type 0} → Worker → Main → List A → Type 0
WorkerDone waiting main q = Unit
WorkerDone testing main q = Unit
WorkerDone checking main q = main ≡ finished
WorkerDone popping main q = Unit
WorkerDone left main q = (main ≡ finished) × (q ≡ [])

WorkerDone-early :
    {A : Type 0} (worker : Worker) (main main' : Main) (q q' : List A)
    → main ≢ finished
    → WorkerDone worker main q
    → WorkerDone worker main' q'
WorkerDone-early waiting main main' q q' early h = tt
WorkerDone-early testing main main' q q' early h = tt
WorkerDone-early checking main main' q q' early h = absurd (early h)
WorkerDone-early popping main main' q q' early h = tt
WorkerDone-early left main main' q q' early h = absurd (early h.0)

test_step-WorkerDone : {A : Type 0} (main : Main) (q : List A) → WorkerDone (test_step main) main q
test_step-WorkerDone starting q = tt
test_step-WorkerDone pushing q = tt
test_step-WorkerDone finished q = refl

wait_step-WorkerDone : {A : Type 0} (main : Main) (q : List A) → WorkerDone (wait_step main) main q
wait_step-WorkerDone starting q = tt
wait_step-WorkerDone pushing q = tt
wait_step-WorkerDone finished q = tt

check-WorkerDone :
    {A : Type 0} (main : Main) (q : List A)
    → main ≡ finished
    → WorkerDone (if length q == 0 then left else popping) main q
check-WorkerDone main [] done = (done, refl)
check-WorkerDone main (a ∷ q) done =
    let some_left : (length (a ∷ q) == 0) ≡ false = ground arith in rw some_left tt

module _ {A B : Type 0} (process : B → A → B) where
  abbrev pub process_list : B → List A → B
  process_list b [] = b
  process_list b (a ∷ xs) = process_list (process b a) xs

  process_list-append :
      (b : B) (xs ys : List A) → process_list b (xs ++ ys) ≡ process_list (process_list b xs) ys
  process_list-append b [] ys = refl
  process_list-append b (x ∷ xs) ys = process_list-append (process b x) xs ys

  -- The book, when what is in the queue and what is still to be pushed have come through.
  abbrev outlook : Pipeline A (List A) B → B
  outlook s = process_list (process_list s.book s.channel) s.todo

  module _ (final : B) where
    pub record IsOnCourse (s : Pipeline A (List A) B) : Type 0 where
      pub heads_for : outlook s ≡ final
      pub main_done : MainDone s.main s.todo
      pub worker_done : WorkerDone s.worker s.main s.channel

    module _ (capacity : ℕ) where
      main_step_at-IsOnCourse :
          (s : Pipeline A (List A) B) (main : Main) (todo : List A)
          → s.main ≡ main
          → s.todo ≡ todo
          → IsOnCourse s
          → IsOnCourse (main_step_at (queue_channel capacity) process s main todo)
      unfolding main_step_at push_step push_bounded
      main_step_at-IsOnCourse s starting todo here rest v = record {
        heads_for = v.heads_for;
        main_done = tt;
        worker_done =
            WorkerDone-early s.worker s.main pushing s.channel s.channel (λ e. cc (e, here))
              v.worker_done;
      }
      main_step_at-IsOnCourse s pushing [] here rest v = record {
        heads_for = v.heads_for;
        main_done = rest;
        worker_done =
            WorkerDone-early s.worker s.main finished s.channel s.channel (λ e. cc (e, here))
              v.worker_done;
      }
      main_step_at-IsOnCourse s pushing (a ∷ xs) here rest v =
          let early : s.main ≢ finished = λ e. cc (e, here) in
          let way = v.heads_for in
          elim (Bool-cases (ltb (length s.channel) capacity)) [
            | inl room ↦ rw room (record {
              heads_for =
                  ap (λ b. process_list b xs) (process_list-append s.book s.channel (a ∷ []))
                  ∙ (rw rest at way);
              main_done = rw here tt;
              worker_done = WorkerDone-early s.worker s.main s.main s.channel _ early v.worker_done;
            })
            | inr full ↦ rw full (record {
              heads_for = v.heads_for;
              main_done = v.main_done;
              worker_done = v.worker_done;
            })
          ]
      main_step_at-IsOnCourse s finished todo here rest v = v

      pop_step-IsOnCourse :
          (s : Pipeline A (List A) B) (q : List A)
          → s.channel ≡ q
          → IsOnCourse s
          → IsOnCourse (pop_step (queue_channel capacity) process s (pop_front q))
      unfolding pop_step
      pop_step-IsOnCourse s [] here v = record {
        heads_for = (let way = v.heads_for in rw here at way);
        main_done = v.main_done;
        worker_done = tt;
      }
      pop_step-IsOnCourse s (a ∷ q) here v = record {
        heads_for = (let way = v.heads_for in rw here at way);
        main_done = v.main_done;
        worker_done = tt;
      }

      worker_step_at-IsOnCourse :
          (s : Pipeline A (List A) B) (worker : Worker)
          → s.worker ≡ worker
          → IsOnCourse s
          → IsOnCourse (worker_step_at (queue_channel capacity) process s worker)
      unfolding worker_step_at
      worker_step_at-IsOnCourse s waiting here v = record {
        heads_for = v.heads_for;
        main_done = v.main_done;
        worker_done = wait_step-WorkerDone s.main s.channel;
      }
      worker_step_at-IsOnCourse s testing here v = record {
        heads_for = v.heads_for;
        main_done = v.main_done;
        worker_done = test_step-WorkerDone s.main s.channel;
      }
      worker_step_at-IsOnCourse s checking here v =
          let h = v.worker_done in
          record {
            heads_for = v.heads_for;
            main_done = v.main_done;
            worker_done = check-WorkerDone s.main s.channel (rw here at h);
          }
      worker_step_at-IsOnCourse s popping here v = pop_step-IsOnCourse s s.channel refl v
      worker_step_at-IsOnCourse s left here v = v

      pub turn-IsOnCourse :
          (t : Turn) (s : Pipeline A (List A) B)
          → IsOnCourse s
          → IsOnCourse (turn (queue_channel capacity) process t s)
      unfolding turn main_step worker_step
      turn-IsOnCourse main_turn s v = main_step_at-IsOnCourse s s.main s.todo refl refl v
      turn-IsOnCourse worker_turn s v = worker_step_at-IsOnCourse s s.worker refl v

      pub run-IsOnCourse :
          (ts : List Turn) (s : Pipeline A (List A) B)
          → IsOnCourse s
          → IsOnCourse (run (queue_channel capacity) process ts s)
      unfolding run
      run-IsOnCourse [] s v = v
      run-IsOnCourse (t ∷ ts) s v =
          run-IsOnCourse ts (turn (queue_channel capacity) process t s) (turn-IsOnCourse t s v)

    -- Once the worker has left, everything is in the book.
    pub left-final : (s : Pipeline A (List A) B) → s.worker ≡ left → IsOnCourse s → s.book ≡ final
    left-final s gone v =
        let w = v.worker_done in
        let both : WorkerDone left s.main s.channel = rw gone at w in
        let m = v.main_done in
        let none_left : MainDone finished s.todo = rw both.0 at m in
        let way = v.heads_for in rw (both.1, none_left) at way

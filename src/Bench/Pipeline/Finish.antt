-- ===== src/Bench/Pipeline/Finish.antt =====
-- The threads get done: while they take turns, the work that is left goes down with every round.
use quant_feed_handler.Base.{
  ℕ, zero, suc, ◌+◌, ◌*◌, ◌≤◌, ◌<◌, List, [], ◌∷◌, ◌++◌, ◌≡◌, ◌≢◌, ◌⊎◌, refl, ◌∙◌, inl, inr, length,
  length-append, ltb, ◌==◌, Bool-cases, if◌then◌else◌, arith,
}
use quant_feed_handler.Bench.Channel.{queue_channel}
use quant_feed_handler.Bench.Pipeline.{
  Main, starting, pushing, finished, Worker, waiting, testing, checking, popping, left, Pipeline,
  Turn, main_turn, worker_turn, push_step, main_step_at, main_step, wait_step, test_step, pop_step,
  worker_step_at, worker_step, turn, run, alternate,
}
use quant_feed_handler.Ring.Fifo.{push_bounded, pop_front}

abbrev main_rank : Main → ℕ
main_rank starting = 8
main_rank pushing = 4
main_rank finished = 0

-- A pop of an empty queue has more to go than one that will give a message.
abbrev worker_rank : Worker → ℕ → ℕ
worker_rank waiting queued = 5
worker_rank testing queued = 3
worker_rank checking queued = 2
worker_rank popping queued = if queued == 0 then 4 else 1
worker_rank left queued = 0

module _ {A B : Type 0} where
  -- What the main thread and the queue still hold.
  abbrev load : Pipeline A (List A) B → ℕ
  load s = 8 * length s.todo + 4 * length s.channel + main_rank s.main

  abbrev pub work : Pipeline A (List A) B → ℕ
  work s = load s + worker_rank s.worker (length s.channel)

worker_rank-le : (w : Worker) (n : ℕ) → worker_rank w n ≤ 5
worker_rank-le waiting n = omega arith
worker_rank-le testing n = omega arith
worker_rank-le checking n = omega arith
worker_rank-le popping n = ground arith
worker_rank-le left n = omega arith

-- A longer queue is no more to go for the worker.
worker_rank_mono : (w : Worker) (n : ℕ) → worker_rank w (suc n) ≤ worker_rank w n
worker_rank_mono waiting n = omega arith
worker_rank_mono testing n = omega arith
worker_rank_mono checking n = omega arith
worker_rank_mono popping n = ground arith
worker_rank_mono left n = omega arith

test_step-rank : (m : Main) (n : ℕ) → worker_rank (test_step m) n ≤ 4
test_step-rank starting n = ground arith
test_step-rank pushing n = ground arith
test_step-rank finished n = omega arith

-- With a message waiting, or the main thread finished, the next test goes on to less.
test_step-less : (m : Main) (n : ℕ) → (0 < n) ⊎ (m ≡ finished) → worker_rank (test_step m) n < 3
test_step-less starting n (inl some_n) = ground arith
test_step-less pushing n (inl some_n) = ground arith
test_step-less starting n (inr done) = absurd (cc done)
test_step-less pushing n (inr done) = absurd (cc done)
test_step-less finished n h = omega arith

wait_step-rank : (m : Main) (n : ℕ) → worker_rank (wait_step m) n ≤ 5
wait_step-rank m n = worker_rank-le (wait_step m) n

wait_step-less : (m : Main) (n : ℕ) → m ≢ starting → worker_rank (wait_step m) n < 5
wait_step-less starting n started = absurd (started refl)
wait_step-less pushing n started = omega arith
wait_step-less finished n started = omega arith

check-rank : (n : ℕ) → worker_rank (if n == 0 then left else popping) n < 2
check-rank n = ground arith

module _ {A B : Type 0} (process : B → A → B) (capacity : ℕ) where
  pop_step-work :
      (s : Pipeline A (List A) B) (q : List A)
      → s.channel ≡ q
      → s.worker ≡ popping
      → work (pop_step (queue_channel capacity) process s (pop_front q)) < work s
  unfolding pop_step
  pop_step-work s [] here popped = rw (here, popped) (omega arith)
  pop_step-work s (a ∷ q) here popped = rw (here, popped) (ground arith)

  -- A step of the worker costs at most one.
  worker_step_at-work :
      (s : Pipeline A (List A) B) (w : Worker)
      → s.worker ≡ w
      → work (worker_step_at (queue_channel capacity) process s w) ≤ work s + 1
  unfolding worker_step_at
  worker_step_at-work s waiting here =
      let r = wait_step-rank s.main (length s.channel) in rw here (omega (arith, r))
  worker_step_at-work s testing here =
      let r = test_step-rank s.main (length s.channel) in rw here (omega (arith, r))
  worker_step_at-work s checking here =
      let r = check-rank (length s.channel) in rw here (omega (arith, r))
  worker_step_at-work s popping here =
      let r = pop_step-work s s.channel refl here in omega (arith, r)
  worker_step_at-work s left here = omega arith

  -- It gains one, or the worker leaves, unless it has to wait for the main thread.
  worker_step_at-less :
      (s : Pipeline A (List A) B) (w : Worker)
      → s.worker ≡ w
      → s.main ≢ starting
      → (0 < length s.channel) ⊎ (s.main ≡ finished)
      → ((worker_step_at (queue_channel capacity) process s w).worker ≡ left)
        ⊎ (work (worker_step_at (queue_channel capacity) process s w) < work s)
  unfolding worker_step_at
  worker_step_at-less s waiting here started h =
      let r = wait_step-less s.main (length s.channel) started in inr (rw here (omega (arith, r)))
  worker_step_at-less s testing here started h =
      let r = test_step-less s.main (length s.channel) h in inr (rw here (omega (arith, r)))
  worker_step_at-less s checking here started h =
      let r = check-rank (length s.channel) in inr (rw here (omega (arith, r)))
  worker_step_at-less s popping here started h = inr (pop_step-work s s.channel refl here)
  worker_step_at-less s left here started h = inl here

  -- What a step of the main thread leaves: it got on, or it is blocked by a full queue or done.
  record Moves (s t : Pipeline A (List A) B) : Type 0 where
    started : t.main ≢ starting
    no_more : work t ≤ work s
    no_load : load t ≤ load s
    ahead : (work t + 4 ≤ work s) ⊎ ((0 < length t.channel) ⊎ (t.main ≡ finished))

  main_step_at-Moves :
      (s : Pipeline A (List A) B) (m : Main) (todo : List A)
      → 0 < capacity
      → s.main ≡ m
      → s.todo ≡ todo
      → Moves s (main_step_at (queue_channel capacity) process s m todo)
  unfolding main_step_at push_step push_bounded
  main_step_at-Moves s starting todo room here rest = record {
    started = λ e. cc e;
    no_more = rw here (omega arith);
    no_load = rw here (omega arith);
    ahead = inl (rw here (omega arith));
  }
  main_step_at-Moves s pushing [] room here rest = record {
    started = λ e. cc e;
    no_more = rw here (omega arith);
    no_load = rw here (omega arith);
    ahead = inl (rw here (omega arith));
  }
  main_step_at-Moves s pushing (a ∷ xs) room here rest =
      let n = length s.channel in
      let grown : length (s.channel ++ a ∷ []) ≡ suc n =
        (let e = length-append s.channel (a ∷ []) in omega (arith, e)) in
      let mono = worker_rank_mono s.worker n in
      elim (Bool-cases (ltb n capacity)) [
        | inl space ↦ rw space (record {
          started = λ e. cc (e, here);
          no_more = rw (rest, grown) (omega (arith, mono));
          no_load = rw (rest, grown) (omega arith);
          ahead = inl (rw (rest, grown) (omega (arith, mono)));
        })
        | inr full ↦ rw full (record {
          started = λ e. cc (e, here);
          no_more = omega arith;
          no_load = omega arith;
          ahead = inr (inl (ground arith));
        })
      ]
  main_step_at-Moves s finished todo room here rest = record {
    started = λ e. cc (e, here);
    no_more = omega arith;
    no_load = omega arith;
    ahead = inr (inr here);
  }

  abbrev both : Pipeline A (List A) B → Pipeline A (List A) B
  both s =
      worker_step (queue_channel capacity) process (main_step (queue_channel capacity) process s)

  -- A round of both threads gains one, or the worker has left.
  both-work :
      (s : Pipeline A (List A) B)
      → 0 < capacity
      → ((both s).worker ≡ left) ⊎ (work (both s) < work s)
  unfolding main_step worker_step
  both-work s room =
      let t = main_step_at (queue_channel capacity) process s s.main s.todo in
      let m = main_step_at-Moves s s.main s.todo room refl refl in
      let no_more = m.no_more in
      elim m.ahead [
        | inl gain ↦
            let cost = worker_step_at-work t t.worker refl in inr (omega (arith, gain, cost))
        | inr ready ↦ elim (worker_step_at-less t t.worker refl m.started ready) [
          | inl gone ↦ inl gone
          | inr gain ↦ inr (omega (arith, no_more, gain))
        ]
      ]

  main_step_at-worker :
      (s : Pipeline A (List A) B) (m : Main) (todo : List A)
      → (main_step_at (queue_channel capacity) process s m todo).worker ≡ s.worker
  unfolding main_step_at push_step push_bounded
  main_step_at-worker s starting todo = refl
  main_step_at-worker s pushing [] = refl
  main_step_at-worker s pushing (a ∷ xs) = ground arith
  main_step_at-worker s finished todo = refl

  both-left : (s : Pipeline A (List A) B) → s.worker ≡ left → (both s).worker ≡ left
  unfolding main_step worker_step worker_step_at
  both-left s gone =
      let same = main_step_at-worker s s.main s.todo in
      let still : (main_step_at (queue_channel capacity) process s s.main s.todo).worker ≡ left =
        same ∙ gone in
      rw still refl

  alternate-left :
      (n : ℕ) (s : Pipeline A (List A) B)
      → s.worker ≡ left
      → (run (queue_channel capacity) process (alternate n) s).worker ≡ left
  unfolding run turn
  alternate-left zero s gone = gone
  alternate-left (suc n) s gone = alternate-left n (both s) (both-left s gone)

  idle-left : (s : Pipeline A (List A) B) → work s ≤ 0 → s.worker ≡ left
  idle-left s none_left = no_rank s.worker (length s.channel) (omega arith)
    where
      no_rank : (w : Worker) (n : ℕ) → worker_rank w n ≤ 0 → w ≡ left
      no_rank waiting n h = absurd (omega arith)
      no_rank testing n h = absurd (omega arith)
      no_rank checking n h = absurd (omega arith)
      no_rank popping n h = absurd (ground arith)
      no_rank left n h = refl

  alternate-finishes :
      (n : ℕ) (s : Pipeline A (List A) B)
      → 0 < capacity
      → work s ≤ n
      → (run (queue_channel capacity) process (alternate n) s).worker ≡ left
  unfolding run turn
  alternate-finishes zero s room enough = idle-left s enough
  alternate-finishes (suc n) s room enough = elim (both-work s room) [
    | inl gone ↦ alternate-left n (both s) gone
    | inr gain ↦ alternate-finishes n (both s) room (omega (arith, gain))
  ]

  pop_step-load :
      (s : Pipeline A (List A) B) (q : List A)
      → s.channel ≡ q
      → load (pop_step (queue_channel capacity) process s (pop_front q)) ≤ load s
  unfolding pop_step
  pop_step-load s [] here = rw here (omega arith)
  pop_step-load s (a ∷ q) here = rw here (omega arith)

  turn-load :
      (t : Turn) (s : Pipeline A (List A) B)
      → 0 < capacity
      → load (turn (queue_channel capacity) process t s) ≤ load s
  unfolding turn main_step worker_step worker_step_at
  turn-load main_turn s room = (main_step_at-Moves s s.main s.todo room refl refl).no_load
  turn-load worker_turn s room = at_worker s.worker
    where
      at_worker : (w : Worker) → load (worker_step_at (queue_channel capacity) process s w) ≤ load s
      at_worker waiting = omega arith
      at_worker testing = omega arith
      at_worker checking = omega arith
      at_worker popping = pop_step-load s s.channel refl
      at_worker left = omega arith

  run-load :
      (ts : List Turn) (s : Pipeline A (List A) B)
      → 0 < capacity
      → load (run (queue_channel capacity) process ts s) ≤ load s
  unfolding run
  run-load [] s room = omega arith
  run-load (t ∷ ts) s room =
      let here = turn-load t s room in
      let rest = run-load ts (turn (queue_channel capacity) process t s) room in
      omega (arith, here, rest)

  -- After any schedule, as many rounds as the load at its start and five more are enough.
  pub run-finishes :
      (ts : List Turn) (s : Pipeline A (List A) B) (n : ℕ)
      → 0 < capacity
      → load s + 5 ≤ n
      → (run
          (queue_channel capacity)
          process
          (alternate n)
          (run (queue_channel capacity) process ts s)).worker
        ≡ left
  run-finishes ts s n room enough =
      let t = run (queue_channel capacity) process ts s in
      let less = run-load ts s room in
      let rank = worker_rank-le t.worker (length t.channel) in
      alternate-finishes n t room (omega (arith, less, rank))

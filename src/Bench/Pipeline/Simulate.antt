-- ===== src/Bench/Pipeline/Simulate.antt =====
-- The same schedule over two channels, one of which simulates the other.
use mathlib.Core.Path.{subst}
use quant_feed_handler.Base.{List, [], ◌∷◌, Option, none, some, Bool, true, false, ◌≡◌, refl}
use quant_feed_handler.Bench.Channel.{Channel, Simulates}
use quant_feed_handler.Bench.Pipeline.{
  Main, starting, pushing, finished, Worker, waiting, testing, checking, popping, left, Pipeline,
  Turn, main_turn, worker_turn, push_step, main_step_at, main_step, pop_step, worker_step_at,
  worker_step, turn, run,
}

module _ {A B : Type 0} {c d : Channel A} (sim : Simulates c d) (process : B → A → B) where
  -- The two pipelines differ in their channels only, and those match.
  pub record Mirrors (s : Pipeline A c.Carrier B) (t : Pipeline A d.Carrier B) : Type 0 where
    pub channels : sim.Matches s.channel t.channel
    pub todo : s.todo ≡ t.todo
    pub main : s.main ≡ t.main
    pub worker : s.worker ≡ t.worker
    pub book : s.book ≡ t.book

  push_step-Mirrors :
      (s : Pipeline A c.Carrier B) (t : Pipeline A d.Carrier B) (a : A) (rest : List A)
      (p : Bool × c.Carrier) (q : Bool × d.Carrier)
      → Mirrors s t
      → p.0 ≡ q.0
      → sim.Matches p.1 q.1
      → Mirrors (push_step c process s a rest p) (push_step d process t a rest q)
  unfolding push_step
  push_step-Mirrors s t a rest (true, r) (true, q) m e k = record {
    channels = k;
    todo = refl;
    main = m.main;
    worker = m.worker;
    book = m.book;
  }
  push_step-Mirrors s t a rest (false, r) (false, q) m e k = record {
    channels = k;
    todo = m.todo;
    main = m.main;
    worker = m.worker;
    book = m.book;
  }
  push_step-Mirrors s t a rest (true, r) (false, q) m e k = absurd (cc e)
  push_step-Mirrors s t a rest (false, r) (true, q) m e k = absurd (cc e)

  pop_step-Mirrors :
      (s : Pipeline A c.Carrier B) (t : Pipeline A d.Carrier B) (p : Option A × c.Carrier)
      (q : Option A × d.Carrier)
      → Mirrors s t
      → p.0 ≡ q.0
      → sim.Matches p.1 q.1
      → Mirrors (pop_step c process s p) (pop_step d process t q)
  unfolding pop_step
  pop_step-Mirrors s t (none, r) (none, q) m e k = record {
    channels = k;
    todo = m.todo;
    main = m.main;
    worker = refl;
    book = m.book;
  }
  pop_step-Mirrors s t (some a, r) (some b, q) m e k = record {
    channels = k;
    todo = m.todo;
    main = m.main;
    worker = refl;
    book = (let same : a ≡ b = cc e in let book = m.book in cc (same, book));
  }
  pop_step-Mirrors s t (none, r) (some b, q) m e k = absurd (cc e)
  pop_step-Mirrors s t (some a, r) (none, q) m e k = absurd (cc e)

  main_step_at-Mirrors :
      (s : Pipeline A c.Carrier B) (t : Pipeline A d.Carrier B) (main : Main) (todo : List A)
      → Mirrors s t
      → Mirrors (main_step_at c process s main todo) (main_step_at d process t main todo)
  unfolding main_step_at
  main_step_at-Mirrors s t starting todo m = record {
    channels = m.channels;
    todo = m.todo;
    main = refl;
    worker = m.worker;
    book = m.book;
  }
  main_step_at-Mirrors s t pushing [] m = record {
    channels = m.channels;
    todo = m.todo;
    main = refl;
    worker = m.worker;
    book = m.book;
  }
  main_step_at-Mirrors s t pushing (a ∷ rest) m =
      let k = sim.pushes s.channel t.channel a m.channels in
      push_step-Mirrors s t a rest (c.push s.channel a) (d.push t.channel a) m k.0 k.1
  main_step_at-Mirrors s t finished todo m = m

  worker_step_at-Mirrors :
      (s : Pipeline A c.Carrier B) (t : Pipeline A d.Carrier B) (worker : Worker)
      → Mirrors s t
      → Mirrors (worker_step_at c process s worker) (worker_step_at d process t worker)
  unfolding worker_step_at
  worker_step_at-Mirrors s t waiting m = record {
    channels = m.channels;
    todo = m.todo;
    main = m.main;
    worker = rw m.main;
    book = m.book;
  }
  worker_step_at-Mirrors s t testing m = record {
    channels = m.channels;
    todo = m.todo;
    main = m.main;
    worker = rw m.main;
    book = m.book;
  }
  worker_step_at-Mirrors s t checking m = record {
    channels = m.channels;
    todo = m.todo;
    main = m.main;
    worker = rw (sim.drains s.channel t.channel m.channels);
    book = m.book;
  }
  worker_step_at-Mirrors s t popping m =
      let k = sim.pops s.channel t.channel m.channels in
      pop_step-Mirrors s t (c.pop s.channel) (d.pop t.channel) m k.0 k.1
  worker_step_at-Mirrors s t left m = m

  turn-Mirrors :
      (k : Turn) (s : Pipeline A c.Carrier B) (t : Pipeline A d.Carrier B)
      → Mirrors s t
      → Mirrors (turn c process k s) (turn d process k t)
  unfolding turn main_step worker_step
  turn-Mirrors main_turn s t m =
      let here = main_step_at-Mirrors s t s.main s.todo m in
      let moved =
        subst (λ x. Mirrors (main_step c process s) (main_step_at d process t x s.todo)) m.main
          here in
      subst (λ l. Mirrors (main_step c process s) (main_step_at d process t t.main l)) m.todo moved
  turn-Mirrors worker_turn s t m =
      subst (λ x. Mirrors (worker_step c process s) (worker_step_at d process t x)) m.worker
        (worker_step_at-Mirrors s t s.worker m)

  pub run-Mirrors :
      (ts : List Turn) (s : Pipeline A c.Carrier B) (t : Pipeline A d.Carrier B)
      → Mirrors s t
      → Mirrors (run c process ts s) (run d process ts t)
  unfolding run
  run-Mirrors [] s t m = m
  run-Mirrors (k ∷ ts) s t m =
      run-Mirrors ts (turn c process k s) (turn d process k t) (turn-Mirrors k s t m)

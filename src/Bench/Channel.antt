-- ===== src/Bench/Channel.antt =====
-- What the two threads of `runSPSCBenchmark` ask of the buffer between them: the ring buffer has
-- these calls, and so has a queue of bounded length.
use quant_feed_handler.Base.{ℕ, List, Option, Bool, ◌≡◌, length, ◌∙◌, ◌==◌}
use quant_feed_handler.Ring.{SpscRingBuffer, try_push, try_pop, empty}
use quant_feed_handler.Ring.Calls.{
  try_push-Represents, try_pop-Represents, empty-Represents, length-try_push, length-try_pop,
}
use quant_feed_handler.Ring.Fifo.{push_bounded, pop_front, Represents}

pub record Channel (A : Type 0) : Type 1 where
  pub Carrier : Type 0
  pub push : Carrier → A → Bool × Carrier
  pub pop : Carrier → Option A × Carrier
  pub is_drained : Carrier → Bool

-- The calls of one channel return what those of another do, as long as the relation holds, and the
-- calls keep it.
pub record Simulates {A : Type 0} (c d : Channel A) : Type 1 where
  pub Matches : c.Carrier → d.Carrier → Type 0
  pub pushes :
      (r : c.Carrier) (q : d.Carrier) (a : A)
      → Matches r q
      → ((c.push r a).0 ≡ (d.push q a).0) × Matches (c.push r a).1 (d.push q a).1
  pub pops :
      (r : c.Carrier) (q : d.Carrier)
      → Matches r q
      → ((c.pop r).0 ≡ (d.pop q).0) × Matches (c.pop r).1 (d.pop q).1
  pub drains : (r : c.Carrier) (q : d.Carrier) → Matches r q → c.is_drained r ≡ d.is_drained q

abbrev pub queue_channel : {A : Type 0} → ℕ → Channel A
queue_channel {A = A} capacity = record {
  Carrier = List A;
  push = push_bounded capacity;
  pop = pop_front;
  is_drained = λ q. length q == 0;
}

module _ {A : Type 0} (default : A) where
  abbrev pub ring_channel : Channel A
  ring_channel = record {
    Carrier = SpscRingBuffer A;
    push = try_push;
    pop = λ r. try_pop r default;
    is_drained = empty;
  }

  unfoldable pub ring-queue : (capacity : ℕ) → Simulates ring_channel (queue_channel capacity)
  ring-queue capacity = record {
    Matches = λ r q. Represents default r q × (length r.buffer ≡ capacity);
    pushes = λ r q a m.
        let e = try_push-Represents default r q a m.0 in
        rw (← m.1) (e.0, (e.1, length-try_push default r a));
    pops = λ r q m.
        let e = try_pop-Represents default r q m.0 in (e.0, (e.1, length-try_pop default r ∙ m.1));
    drains = λ r q m. empty-Represents default r q m.0;
  }

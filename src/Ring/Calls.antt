-- ===== src/Ring/Calls.antt =====
-- The calls of the two threads on a ring buffer, in any order.
use mathlib.Core.Path.{subst}
use quant_feed_handler.Base.{
  ℕ, ◌-◌, ◌%◌, ◌^◌, ◌≤◌, ◌<◌, List, [], ◌∷◌, Option, none, Bool, true, false, ◌≡◌, ◌≢◌, refl, ap,
  ap₂, ◌∙◌, inl, inr, length, length-set, length-replicate, ltb, leb, ◌==◌, Bool-cases, arith,
}
use quant_feed_handler.Ring.{
  SpscRingBuffer, sub64, create, enqueue, try_push, dequeue, try_pop, empty, size,
}
use quant_feed_handler.Ring.Fifo.{
  push_bounded, pop_front, Represents, sub64-near, eq_of_mod64, capacity-lt, refresh_tail,
  refresh_head, length-Represents, enqueue-Represents, dequeue-Represents,
}

-- A call of the producer or of the consumer, and its result.
pub data Call (A : Type 0) : Type 0 where
  pushes : A → Call A
  pops : Call A

pub data Outcome (A : Type 0) : Type 0 where
  pushed : Bool → Outcome A
  popped : Option A → Outcome A

pub lt_of_mod64 : (a b : ℕ) → a ≤ b → (a % 2 ^ 64 == b % 2 ^ 64) ≡ false → a < b
lt_of_mod64 a b h d =
    let apart : a % 2 ^ 64 ≢ b % 2 ^ 64 = ground arith in
    elim (Bool-cases (a == b)) [
      | inl same ↦ let e : a ≡ b = ground arith in absurd (apart (ap (λ n. n % 2 ^ 64) e))
      | inr other ↦ ground arith
    ]

pop_front-empty :
    {A : Type 0} (q : List A) → length q ≡ 0 → (none ≡ (pop_front q).0) × (q ≡ (pop_front q).1)
pop_front-empty [] h = (refl, refl)
pop_front-empty (a ∷ q) h = absurd (omega arith)

-- Equal counters mean that everything was popped.
all_popped :
    {A : Type 0} (default : A) (r : SpscRingBuffer A) (q : List A) (v : Represents default r q)
    → (r.tail == r.head) ≡ true
    → length q ≡ 0
all_popped default r q v e =
    let count = v.count in
    let near = v.tail_near in
    let behind = v.tail_old in
    let big = capacity-lt v.bits v.small in
    let same : v.popped % 2 ^ 64 ≡ v.pushed % 2 ^ 64 = rw (← v.tail, ← v.head) (ground arith) in
    let all = eq_of_mod64 v.popped v.pushed (omega arith) (omega (arith, near, behind, big)) same in
    omega (arith, count, all)

module _ {A : Type 0} (default : A) where
  unfoldable pub call : SpscRingBuffer A → Call A → Outcome A × SpscRingBuffer A
  call r (pushes a) = (pushed (try_push r a).0, (try_push r a).1)
  call r pops = (popped (try_pop r default).0, (try_pop r default).1)

  unfoldable pub calls : SpscRingBuffer A → List (Call A) → List (Outcome A)
  calls r [] = []
  calls r (c ∷ cs) = (call r c).0 ∷ calls (call r c).1 cs

  -- The same calls on a queue of at most `capacity` items.
  unfoldable pub queue_call : ℕ → List A → Call A → Outcome A × List A
  queue_call capacity q (pushes a) =
      (pushed (push_bounded capacity q a).0, (push_bounded capacity q a).1)
  queue_call capacity q pops = (popped (pop_front q).0, (pop_front q).1)

  unfoldable pub queue_calls : ℕ → List A → List (Call A) → List (Outcome A)
  queue_calls capacity q [] = []
  queue_calls capacity q (c ∷ cs) =
      (queue_call capacity q c).0 ∷ queue_calls capacity (queue_call capacity q c).1 cs

  pub try_push-Represents :
      (r : SpscRingBuffer A) (q : List A) (a : A)
      → Represents default r q
      → ((try_push r a).0 ≡ (push_bounded (length r.buffer) q a).0)
        × Represents default (try_push r a).1 (push_bounded (length r.buffer) q a).1
  unfolding try_push push_bounded refresh_tail
  try_push-Represents r q a v =
      let count = v.count in
      let k = v.capacity in
      let old = v.tail_old in
      let near = v.tail_near in
      let big = capacity-lt v.bits v.small in
      let cached : sub64 r.head r.cached_tail ≡ v.pushed - v.seen_popped =
        rw (v.head, v.cached_tail)
          (sub64-near v.pushed v.seen_popped (omega (arith, count, old))
            (omega (arith, near, big))) in
      let exact : sub64 r.head r.tail ≡ length q =
        (let near_by =
            sub64-near v.pushed v.popped (omega (arith, count)) (omega (arith, near, old, big)) in
          let all : v.pushed - v.popped ≡ length q = omega (arith, count) in
          rw (v.head, v.tail, near_by) all) in
      elim (Bool-cases (leb (length r.buffer) (sub64 r.head r.cached_tail))) [
        | inr free ↦
            let room : ltb (length q) (length r.buffer) ≡ true =
              ground (arith, cached, count, old) in
            rw (free, room) (refl, enqueue-Represents default r q a v (ground (arith, cached, k)))
        | inl stale ↦ rw stale (elim (Bool-cases (leb (length r.buffer) (sub64 r.head r.tail))) [
          | inl full ↦
              let no_room : ltb (length q) (length r.buffer) ≡ false = ground (arith, exact) in
              rw (full, no_room)
                (refl, refresh_tail default r q v (length-Represents default r q v))
          | inr free ↦
              let room : ltb (length q) (length r.buffer) ≡ true = ground (arith, exact) in
              rw (free, room)
                (
                  refl,
                  enqueue-Represents default _ q a
                      (refresh_tail default r q v (length-Represents default r q v))
                      (ground (arith, exact, count, k)),
                )
        ])
      ]

  pub try_pop-Represents :
      (r : SpscRingBuffer A) (q : List A)
      → Represents default r q
      → ((try_pop r default).0 ≡ (pop_front q).0)
        × Represents default (try_pop r default).1 (pop_front q).1
  unfolding try_pop refresh_head
  try_pop-Represents r q v =
      let count = v.count in
      let ahead = v.head_ahead in
      let old = v.head_old in
      elim (Bool-cases (r.tail == r.cached_head)) [
        | inr fresh ↦ rw fresh (
            dequeue-Represents default r q v
              (lt_of_mod64 v.popped v.seen_pushed ahead (rw (← v.tail, ← v.cached_head) fresh)))
        | inl stale ↦ rw stale (elim (Bool-cases (r.tail == r.head)) [
          | inl none_left ↦
              (let e = pop_front-empty q (all_popped default r q v none_left) in
                rw none_left (
                  e.0,
                  subst (λ l. Represents default (record r { cached_head = r.head }) l) e.1
                      (refresh_head default r q v),
                ))
          | inr more ↦ rw more (
              dequeue-Represents default _ q (refresh_head default r q v)
                (lt_of_mod64 v.popped v.pushed (omega arith) (rw (← v.tail, ← v.head) more)))
        ])
      ]

  length-enqueue : (r : SpscRingBuffer A) (a : A) → length (enqueue r a).buffer ≡ length r.buffer
  unfolding enqueue
  length-enqueue r a = length-set r.buffer _ a

  pub length-try_push :
      (r : SpscRingBuffer A) (a : A) → length (try_push r a).1.buffer ≡ length r.buffer
  unfolding try_push
  length-try_push r a = elim (Bool-cases (leb (length r.buffer) (sub64 r.head r.cached_tail))) [
    | inr free ↦ rw free (length-enqueue r a)
    | inl stale ↦ rw stale (elim (Bool-cases (leb (length r.buffer) (sub64 r.head r.tail))) [
      | inl full ↦ rw full
      | inr free ↦ rw free (length-enqueue (record r { cached_tail = r.tail }) a)
    ])
  ]

  pub length-try_pop :
      (r : SpscRingBuffer A) → length (try_pop r default).1.buffer ≡ length r.buffer
  unfolding try_pop dequeue
  length-try_pop r = ground arith

  -- From a buffer that represents a queue, any calls of the two threads, one after the other,
  -- return what they return on a queue of at most `capacity` items: a push fails only when the
  -- queue is full, a pop only when it is empty, and items come out in the order in which they went
  -- in. The cached counters are never seen, and the counters may wrap.
  pub calls-queue :
      (cs : List (Call A)) (r : SpscRingBuffer A) (q : List A)
      → Represents default r q
      → calls r cs ≡ queue_calls (length r.buffer) q cs
  unfolding calls queue_calls call queue_call
  calls-queue [] r q v = refl
  calls-queue (pushes a ∷ cs) r q v =
      let e = try_push-Represents r q a v in
      ap₂ (λ x (l : List (Outcome A)). x ∷ l) (ap pushed e.0)
        (calls-queue cs (try_push r a).1 (push_bounded (length r.buffer) q a).1 e.1
          ∙ ap (λ n. queue_calls n (push_bounded (length r.buffer) q a).1 cs) (length-try_push r a))
  calls-queue (pops ∷ cs) r q v =
      let e = try_pop-Represents r q v in
      ap₂ (λ x (l : List (Outcome A)). x ∷ l) (ap popped e.0)
        (calls-queue cs (try_pop r default).1 (pop_front q).1 e.1
          ∙ ap (λ n. queue_calls n (pop_front q).1 cs) (length-try_pop r))

  pub empty-Represents :
      (r : SpscRingBuffer A) (q : List A) → Represents default r q → empty r ≡ (length q == 0)
  unfolding empty
  empty-Represents r q v = elim (Bool-cases (r.tail == r.head)) [
    | inl same ↦ rw same (let e = all_popped default r q v same in ground (arith, e))
    | inr more ↦
        let count = v.count in
        let lt = lt_of_mod64 v.popped v.pushed (omega arith) (rw (← v.tail, ← v.head) more) in
        rw more (ground (arith, lt, count))
  ]

  -- On a buffer that represents a queue, and as long as the count of pushes has not wrapped,
  -- `empty` says whether the queue is empty and `size` is its length.
  pub size-Represents :
      (r : SpscRingBuffer A) (q : List A)
      → (v : Represents default r q) → v.pushed < 2 ^ 64
      → (empty r ≡ (length q == 0)) × (size r ≡ length q)
  unfolding size
  size-Represents r q v small =
      let count = v.count in
      let head : r.head ≡ v.pushed = (let h = v.head in omega (arith, h)) in
      let tail : r.tail ≡ v.popped = (let h = v.tail in omega (arith, h, count)) in
      (empty-Represents r q v, ground (arith, head, tail, count))

  unfoldable pub create-Represents :
      (k : ℕ) → k ≤ 63 → Represents default (create (2 ^ k) default) []
  unfolding create
  create-Represents k small = record {
    bits = k;
    capacity = length-replicate (2 ^ k) default;
    small = small;
    pushed = 0;
    popped = 0;
    seen_popped = 0;
    seen_pushed = 0;
    head = refl;
    tail = refl;
    cached_tail = refl;
    cached_head = refl;
    count = refl;
    tail_old = omega arith;
    tail_near = omega arith;
    head_ahead = omega arith;
    head_old = omega arith;
    items = λ i h. absurd (omega arith);
  }

-- ===== src/Ring/Fifo.antt =====
-- The ring buffer implements a queue of bounded length.
use Prim.Native.Nat.{bit_and, ◌∣◌}
use mathlib.Core.Path.{subst}
use native.Mathlib.Nat.{
  dvd_refl, dvd-mul_right_of_dvd, mod-lt, mod-mod_of_dvd, pow-suc, pow-le-pow_right,
}
use quant_feed_handler.Base.{
  ℕ, zero, suc, ◌+◌, ◌-◌, ◌%◌, ◌^◌, ◌≤◌, ◌<◌, List, [], ◌∷◌, ◌++◌, Option, none, some, Bool, true,
  false, ◌≡◌, sym, ap, ◌∙◌, inl, inr, length, length-append, get_or, length-set, ltb, ◌==◌,
  Bool-cases, if◌then◌else◌, arith,
}
use quant_feed_handler.Base.Arrays.{
  get_or-set_self, get_or-set_ne, get_or-append, get_or-append_left,
}
use quant_feed_handler.Base.Bits.{bit_and_mask}
use quant_feed_handler.Base.Window.{mod-ne}
use quant_feed_handler.Ring.{SpscRingBuffer, sub64, mask, enqueue, dequeue}
use quant_feed_handler.Table.{add64}

-- The queue of at most `capacity` items.
unfoldable pub push_bounded {ℓ} : {A : Type ℓ} → ℕ → List A → A → Bool × List A
push_bounded capacity q a = if ltb (length q) capacity then (true, q ++ a ∷ []) else (false, q)

abbrev pub pop_front {ℓ} : {A : Type ℓ} → List A → Option A × List A
pop_front [] = (none, [])
pop_front (a ∷ q) = (some a, q)

-- The counts of all pushes and all pops, with no wrap, and the items between them. What a thread
-- has cached of the other's count is an earlier value of it.
pub record Represents {A : Type 0} (default : A) (r : SpscRingBuffer A) (q : List A) : Type 0 where
  pub bits : ℕ
  pub capacity : length r.buffer ≡ 2 ^ bits
  pub small : bits ≤ 63
  pub pushed : ℕ
  pub popped : ℕ
  pub seen_popped : ℕ
  pub seen_pushed : ℕ
  pub head : r.head ≡ pushed % 2 ^ 64
  pub tail : r.tail ≡ popped % 2 ^ 64
  pub cached_tail : r.cached_tail ≡ seen_popped % 2 ^ 64
  pub cached_head : r.cached_head ≡ seen_pushed % 2 ^ 64
  pub count : popped + length q ≡ pushed
  pub tail_old : seen_popped ≤ popped
  pub tail_near : pushed ≤ seen_popped + 2 ^ bits
  pub head_ahead : popped ≤ seen_pushed
  pub head_old : seen_pushed ≤ pushed
  pub items :
      (i : ℕ)
      → i < length q
      → get_or r.buffer ((popped + i) % 2 ^ bits) default ≡ get_or q i default

-- The wrapped difference of near counters is their difference.
pub sub64-near : (a b : ℕ) → b ≤ a → a < b + 2 ^ 64 → sub64 (a % 2 ^ 64) (b % 2 ^ 64) ≡ a - b
sub64-near a b lo hi = omega arith

suc-mod64 : (a : ℕ) → add64 (a % 2 ^ 64) 1 ≡ suc a % 2 ^ 64
suc-mod64 a = omega arith

pow-divides : (d k : ℕ) → 2 ^ k ∣ 2 ^ (d + k)
pow-divides zero k = let e : 0 + k ≡ k = omega arith in rw e (dvd_refl (2 ^ k))
pow-divides (suc d) k =
    let e : suc d + k ≡ suc (d + k) = omega arith in
    rw (e, pow-suc 2 (d + k)) (dvd-mul_right_of_dvd (2 ^ k) (pow-divides d k) 2)

-- The slot of a counter.
pub slot-mod : (k a : ℕ) → k ≤ 63 → bit_and (a % 2 ^ 64) (2 ^ k - 1) ≡ a % 2 ^ k
slot-mod k a h =
    let e : 64 - k + k ≡ 64 = omega arith in
    let d : 2 ^ k ∣ 2 ^ 64 = subst (λ n. 2 ^ k ∣ 2 ^ n) e (pow-divides (64 - k) k) in
    bit_and_mask k (a % 2 ^ 64) ∙ mod-mod_of_dvd (2 ^ k) a d

pub capacity-lt : (k : ℕ) → k ≤ 63 → 2 ^ k < 2 ^ 64
capacity-lt k h =
    let e : 2 ^ k ≤ 2 ^ 63 = pow-le-pow_right {n = 2} (omega arith) h in omega (arith, e)

-- Two near counters with the same wrapped value are the same.
pub eq_of_mod64 : (a b : ℕ) → a ≤ b → b < a + 2 ^ 64 → a % 2 ^ 64 ≡ b % 2 ^ 64 → a ≡ b
eq_of_mod64 a b lo hi e = omega arith

module _ {A : Type 0} (default : A) where
  -- A cached counter takes the value of the counter itself.
  unfoldable pub refresh_tail :
      (r : SpscRingBuffer A) (q : List A)
      → Represents default r q
      → length q ≤ length r.buffer
      → Represents default (record r { cached_tail = r.tail }) q
  refresh_tail r q v room = record {
    bits = v.bits;
    capacity = v.capacity;
    small = v.small;
    pushed = v.pushed;
    popped = v.popped;
    seen_popped = v.popped;
    seen_pushed = v.seen_pushed;
    head = v.head;
    tail = v.tail;
    cached_tail = v.tail;
    cached_head = v.cached_head;
    count = v.count;
    tail_old = omega arith;
    tail_near = (let c = v.count in let k = v.capacity in omega (arith, c, k));
    head_ahead = v.head_ahead;
    head_old = v.head_old;
    items = v.items;
  }

  unfoldable pub refresh_head :
      (r : SpscRingBuffer A) (q : List A)
      → Represents default r q
      → Represents default (record r { cached_head = r.head }) q
  refresh_head r q v = record {
    bits = v.bits;
    capacity = v.capacity;
    small = v.small;
    pushed = v.pushed;
    popped = v.popped;
    seen_popped = v.seen_popped;
    seen_pushed = v.pushed;
    head = v.head;
    tail = v.tail;
    cached_tail = v.cached_tail;
    cached_head = v.head;
    count = v.count;
    tail_old = v.tail_old;
    tail_near = v.tail_near;
    head_ahead = (let c = v.count in omega (arith, c));
    head_old = omega arith;
    items = v.items;
  }

  pub length-Represents :
      (r : SpscRingBuffer A) (q : List A) → Represents default r q → length q ≤ length r.buffer
  length-Represents r q v =
      let c = v.count in
      let k = v.capacity in
      let near = v.tail_near in let old = v.tail_old in omega (arith, c, k, near, old)

  -- With a free slot by the cached count, an item goes in at the end.
  pub enqueue-Represents :
      (r : SpscRingBuffer A) (q : List A) (a : A)
      → (v : Represents default r q) → v.pushed < v.seen_popped + 2 ^ v.bits
      → Represents default (enqueue r a) (q ++ a ∷ [])
  unfolding enqueue
  enqueue-Represents r q a v room =
      let n = 2 ^ v.bits in
      let slot : bit_and r.head (mask r) ≡ v.pushed % n =
        rw (v.capacity, v.head) (slot-mod v.bits v.pushed v.small) in
      let count = v.count in
      let old = v.tail_old in
      let inside : v.pushed % n < length r.buffer = rw v.capacity (mod-lt v.pushed (omega arith)) in
      record {
        bits = v.bits;
        capacity = length-set r.buffer _ a ∙ v.capacity;
        small = v.small;
        pushed = suc v.pushed;
        popped = v.popped;
        seen_popped = v.seen_popped;
        seen_pushed = v.seen_pushed;
        head = rw v.head (suc-mod64 v.pushed);
        tail = v.tail;
        cached_tail = v.cached_tail;
        cached_head = v.cached_head;
        count = omega (arith, count, length-append q (a ∷ []));
        tail_old = old;
        tail_near = omega arith;
        head_ahead = v.head_ahead;
        head_old = (let h = v.head_old in omega (arith, h));
        items = λ i h. rw slot (elim (Bool-cases (i == length q)) [
          | inl at_end ↦
              let here : i ≡ length q = ground arith in
              let place : v.popped + i ≡ v.pushed = omega (arith, here, count) in
              rw place (
                get_or-set_self r.buffer _ a default inside
                ∙ sym (rw here (get_or-append q a [] default)))
          | inr other ↦
              let i_lt : i < length q = ground (arith, length-append q (a ∷ [])) in
              let apart =
                mod-ne (v.popped + i) v.pushed n (omega (arith, count)) (omega (arith, old)) in
              get_or-set_ne r.buffer _ _ a default (λ e. apart (sym e))
              ∙ v.items i i_lt
              ∙ sym (get_or-append_left q (a ∷ []) i default i_lt)
        ]);
      }

  -- With an item by the cached count, the first one comes out.
  pub dequeue-Represents :
      (r : SpscRingBuffer A) (q : List A)
      → (v : Represents default r q) → v.popped < v.seen_pushed
      → ((dequeue r default).0 ≡ (pop_front q).0)
        × Represents default (dequeue r default).1 (pop_front q).1
  unfolding dequeue
  dequeue-Represents r [] v some_item =
      let count = v.count in let old = v.head_old in absurd (omega (arith, count, old))
  dequeue-Represents r (a ∷ q) v some_item =
      let count = v.count in
      let slot : bit_and r.tail (mask r) ≡ v.popped % 2 ^ v.bits =
        rw (v.capacity, v.tail) (slot-mod v.bits v.popped v.small) in
      let e : v.popped + 0 ≡ v.popped = omega arith in
      (
        rw slot (
            ap some (
              ap (λ k. get_or r.buffer (k % 2 ^ v.bits) default) (sym e)
              ∙ v.items 0 (omega arith))),
        record {
          bits = v.bits;
          capacity = v.capacity;
          small = v.small;
          pushed = v.pushed;
          popped = suc v.popped;
          seen_popped = v.seen_popped;
          seen_pushed = v.seen_pushed;
          head = v.head;
          tail = rw v.tail (suc-mod64 v.popped);
          cached_tail = v.cached_tail;
          cached_head = v.cached_head;
          count = omega (arith, count);
          tail_old = (let h = v.tail_old in omega (arith, h));
          tail_near = v.tail_near;
          head_ahead = some_item;
          head_old = v.head_old;
          items = λ i h.
              (let next : suc v.popped + i ≡ v.popped + suc i = omega arith in
                rw next (v.items (suc i) (omega arith)));
        },
      )

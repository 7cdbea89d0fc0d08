-- ===== src/Ring/Steps/Slots.antt =====
-- What single accesses do to a buffer that represents a queue.
use mathlib.Core.Path.{subst}
use native.Mathlib.Nat.{mod-lt}
use quant_feed_handler.Base.{
  ℕ, zero, suc, ◌+◌, ◌-◌, ◌%◌, ◌^◌, ◌<◌, List, [], ◌∷◌, ◌++◌, false, ◌≡◌, refl, sym, ap, ◌∙◌,
  length, length-set, get_or, set, leb, ◌==◌, arith,
}
use quant_feed_handler.Base.Arrays.{get_or-set_ne}
use quant_feed_handler.Base.Window.{mod-ne}
use quant_feed_handler.Ring.{SpscRingBuffer, sub64, mask, enqueue, empty}
use quant_feed_handler.Ring.Calls.{lt_of_mod64, empty-Represents}
use quant_feed_handler.Ring.Fifo.{Represents, sub64-near, capacity-lt, slot-mod, enqueue-Represents}
use quant_feed_handler.Ring.Steps.{
  seems_full, seems_empty, load_tail, load_head, write_slot, store_head,
}
use quant_feed_handler.Table.{add64}
use Prim.Native.Nat.{bit_and}

module _ {A : Type 0} where
  -- By the cached tail there is room, and by the cached head there is an item.
  abbrev pub HasRoom : SpscRingBuffer A → Type 0
  HasRoom r = seems_full r ≡ false

  abbrev pub HasItem : SpscRingBuffer A → Type 0
  HasItem r = seems_empty r ≡ false

module _ {A : Type 0} (default : A) where
  HasRoom-seen :
      (r : SpscRingBuffer A) (q : List A) (v : Represents default r q)
      → HasRoom r
      → v.pushed < v.seen_popped + 2 ^ v.bits
  HasRoom-seen r q v room =
      let count = v.count in
      let old = v.tail_old in
      let near = v.tail_near in
      let k = v.capacity in
      let big = capacity-lt v.bits v.small in
      let cached : sub64 r.head r.cached_tail ≡ v.pushed - v.seen_popped =
        rw (v.head, v.cached_tail)
          (sub64-near v.pushed v.seen_popped (omega (arith, count, old))
            (omega (arith, near, big))) in
      ground (arith, cached, k, room)

  pub HasItem-seen :
      (r : SpscRingBuffer A) (q : List A) (v : Represents default r q)
      → HasItem r
      → v.popped < v.seen_pushed
  HasItem-seen r q v item =
      lt_of_mod64 v.popped v.seen_pushed v.head_ahead (rw (← v.tail, ← v.cached_head) item)

  -- The slot that is next to be written.
  head_slot :
      (r : SpscRingBuffer A) (q : List A) (v : Represents default r q)
      → bit_and r.head (mask r) ≡ v.pushed % 2 ^ v.bits
  head_slot r q v = rw (v.capacity, v.head) (slot-mod v.bits v.pushed v.small)

  pub head_inside :
      (r : SpscRingBuffer A) (q : List A) (v : Represents default r q)
      → HasRoom r
      → bit_and r.head (mask r) < length r.buffer
  head_inside r q v room =
      let seen = HasRoom-seen r q v room in
      let count = v.count in
      let old = v.tail_old in
      rw (head_slot r q v) (rw v.capacity (mod-lt v.pushed (omega (arith, seen, count, old))))

  -- A write to a free slot is not seen.
  pub write_slot-Represents :
      (r : SpscRingBuffer A) (q : List A) (a : A)
      → Represents default r q
      → HasRoom r
      → Represents default (write_slot r a) q
  write_slot-Represents r q a v room =
      let seen = HasRoom-seen r q v room in
      let slot = head_slot r q v in
      let count = v.count in
      let old = v.tail_old in
      record {
        bits = v.bits;
        capacity = length-set r.buffer _ a ∙ v.capacity;
        small = v.small;
        pushed = v.pushed;
        popped = v.popped;
        seen_popped = v.seen_popped;
        seen_pushed = v.seen_pushed;
        head = v.head;
        tail = v.tail;
        cached_tail = v.cached_tail;
        cached_head = v.cached_head;
        count = v.count;
        tail_old = v.tail_old;
        tail_near = v.tail_near;
        head_ahead = v.head_ahead;
        head_old = v.head_old;
        items = λ i h. rw slot (
            let apart =
              mod-ne (v.popped + i) v.pushed (2 ^ v.bits) (omega (arith, count))
                (omega (arith, seen, old)) in
            get_or-set_ne r.buffer _ _ a default (λ e. apart (sym e)) ∙ v.items i h);
      }

  set-get_or :
      (xs : List A) (i : ℕ) (a : A) → i < length xs → get_or xs i default ≡ a → set xs i a ≡ xs
  set-get_or [] i a h e = refl
  set-get_or (x ∷ xs) zero a h e = ap (λ y. y ∷ xs) (sym e)
  set-get_or (x ∷ xs) (suc i) a h e = ap (λ l. x ∷ l) (set-get_or xs i a (omega arith) e)

  -- The store of the head shows what was written.
  pub store_head-Represents :
      (r : SpscRingBuffer A) (q : List A) (a : A)
      → (v : Represents default r q) → HasRoom r
      → get_or r.buffer (bit_and r.head (mask r)) default ≡ a
      → Represents default (store_head r) (q ++ a ∷ [])
  unfolding enqueue
  store_head-Represents r q a v room written =
      let same = set-get_or r.buffer _ a (head_inside r q v room) written in
      subst (λ b. Represents default (record r { buffer = b; head = add64 r.head 1 }) (q ++ a ∷ []))
        same (enqueue-Represents default r q a v (HasRoom-seen r q v room))

  -- After the load of the other counter, the tests of the code are exact.
  pub load_tail-full :
      (r : SpscRingBuffer A) (q : List A)
      → Represents default r q
      → seems_full (load_tail r) ≡ leb (length r.buffer) (length q)
  load_tail-full r q v =
      let count = v.count in
      let near = v.tail_near in
      let old = v.tail_old in
      let big = capacity-lt v.bits v.small in
      let apart =
        sub64-near v.pushed v.popped (omega (arith, count)) (omega (arith, near, old, big)) in
      let exact : sub64 r.head r.tail ≡ length q =
        (let all : v.pushed - v.popped ≡ length q = omega (arith, count) in
          rw (v.head, v.tail, apart) all) in
      rw exact refl

  pub load_head-empty :
      (r : SpscRingBuffer A) (q : List A)
      → Represents default r q
      → seems_empty (load_head r) ≡ (length q == 0)
  unfolding empty
  load_head-empty r q v = empty-Represents default r q v

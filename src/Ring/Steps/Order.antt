-- ===== src/Ring/Steps/Order.antt =====
-- However the accesses of the two threads interleave, items come out as they went in.
use mathlib.Core.List.{append_assoc}
use quant_feed_handler.Base.{
  ℕ, ◌^◌, ◌≤◌, List, [], ◌∷◌, ◌++◌, ◌≡◌, refl, sym, ap, ◌∙◌, inl, inr, length, length-set,
  length-replicate, get_or, leb, ◌==◌, Bool-cases, arith,
}
use quant_feed_handler.Ring.{SpscRingBuffer, mask, create, dequeue}
use quant_feed_handler.Ring.Calls.{create-Represents}
use quant_feed_handler.Ring.Fifo.{
  Represents, pop_front, refresh_tail, refresh_head, length-Represents, dequeue-Represents,
}
use quant_feed_handler.Ring.Steps.{
  Producer, idle, reloading, writing, publishing, Consumer, resting, refreshing, reading, freeing,
  Sides, seems_full, seems_empty, load_tail, load_head, write_slot, store_tail, produce_at,
  consume_at, Access, produces, consumes, access, accesses,
}
use Prim.Native.Nat.{bit_and}
use quant_feed_handler.Ring.Steps.Slots.{
  HasRoom, HasItem, HasItem-seen, write_slot-Represents, store_head-Represents, load_tail-full,
  load_head-empty,
}
use quant_feed_handler.Ring.Steps.Sure.{
  ProducerSure, ConsumerSure, IsFirst, InOrder, ConsumerSure-append, ConsumerSure-same,
  ProducerSure-same, write_slot-sure,
}

module _ {A : Type 0} (default : A) where
  produce_at-InOrder :
      (slots : ℕ) (s : Sides A) (p : Producer A) (a : A)
      → s.producer ≡ p
      → InOrder default slots s
      → InOrder default slots (produce_at s p a)
  unfolding produce_at
  produce_at-InOrder slots s idle a here v = record {
    queue = v.queue;
    capacity = v.capacity;
    represents = v.represents;
    order = v.order;
    producer_sure = elim (Bool-cases (seems_full s.ring)) [
      | inl full ↦ rw full tt
      | inr room ↦ rw room room
    ];
    consumer_sure = v.consumer_sure;
  }
  produce_at-InOrder slots s (reloading b) a here v = record {
    queue = v.queue;
    capacity = v.capacity;
    represents =
        refresh_tail default s.ring v.queue v.represents
          (length-Represents default s.ring v.queue v.represents);
    order = v.order;
    producer_sure = elim (Bool-cases (seems_full (load_tail s.ring))) [
      | inl full ↦ rw full tt
      | inr room ↦ rw room room
    ];
    consumer_sure =
        ConsumerSure-same default s.consumer s.ring (load_tail s.ring) v.queue refl refl
          v.consumer_sure;
  }
  produce_at-InOrder slots s (writing b) a here v =
      let sure = v.producer_sure in
      let room : HasRoom s.ring = rw here at sure in
      record {
        queue = v.queue;
        capacity = length-set (s.ring).buffer _ b ∙ v.capacity;
        represents = write_slot-Represents default s.ring v.queue b v.represents room;
        order = v.order;
        producer_sure = write_slot-sure default s.ring v.queue b v.represents room;
        consumer_sure =
            ConsumerSure-same default s.consumer s.ring (write_slot s.ring b) v.queue refl refl
              v.consumer_sure;
      }
  produce_at-InOrder slots s (publishing b) a here v =
      let sure = v.producer_sure in
      let both : ProducerSure default (publishing b) s.ring = rw here at sure in
      record {
        queue = v.queue ++ b ∷ [];
        capacity = v.capacity;
        represents = store_head-Represents default s.ring v.queue b v.represents both.0 both.1;
        order = ap (λ l. l ++ b ∷ []) v.order ∙ append_assoc s.popped v.queue (b ∷ []);
        producer_sure = tt;
        consumer_sure = ConsumerSure-append default s.consumer s.ring v.queue b v.consumer_sure;
      }

  consume_at-InOrder :
      (slots : ℕ) (s : Sides A) (c : Consumer A)
      → s.consumer ≡ c
      → InOrder default slots s
      → InOrder default slots (consume_at default s c)
  unfolding consume_at dequeue
  consume_at-InOrder slots s resting here v = record {
    queue = v.queue;
    capacity = v.capacity;
    represents = v.represents;
    order = v.order;
    producer_sure = v.producer_sure;
    consumer_sure = elim (Bool-cases (seems_empty s.ring)) [
      | inl none_left ↦ rw none_left tt
      | inr item ↦ rw item item
    ];
  }
  consume_at-InOrder slots s refreshing here v = record {
    queue = v.queue;
    capacity = v.capacity;
    represents = refresh_head default s.ring v.queue v.represents;
    order = v.order;
    producer_sure =
        ProducerSure-same default s.producer s.ring (load_head s.ring) refl refl refl
          v.producer_sure;
    consumer_sure = elim (Bool-cases (seems_empty (load_head s.ring))) [
      | inl none_left ↦ rw none_left tt
      | inr item ↦ rw item item
    ];
  }
  consume_at-InOrder slots s reading here v =
      let sure = v.consumer_sure in
      let item : HasItem s.ring = rw here at sure in
      record {
        queue = v.queue;
        capacity = v.capacity;
        represents = v.represents;
        order = v.order;
        producer_sure = v.producer_sure;
        consumer_sure = (item, first_read s.ring v.queue v.represents item);
      }
    where
      first_read :
          (r : SpscRingBuffer A) (q : List A)
          → Represents default r q
          → HasItem r
          → IsFirst default (get_or r.buffer (bit_and r.tail (mask r)) default) q
      first_read r q v item = (dequeue-Represents default r q v (HasItem-seen default r q v item)).0
  consume_at-InOrder slots s (freeing a) here v =
      let sure = v.consumer_sure in
      let both : ConsumerSure default (freeing a) s.ring v.queue = rw here at sure in
      record {
        queue = (pop_front v.queue).1;
        capacity = v.capacity;
        represents =
            (dequeue-Represents default s.ring v.queue v.represents
              (HasItem-seen default s.ring v.queue v.represents both.0)).1;
        order = v.order ∙ popped_first v.queue s.popped both.1;
        producer_sure =
            ProducerSure-same default s.producer s.ring (store_tail s.ring) refl refl refl
              v.producer_sure;
        consumer_sure = tt;
      }
    where
      popped_first :
          (q done : List A) → IsFirst default a q → done ++ q ≡ done ++ a ∷ [] ++ (pop_front q).1
      popped_first [] done h = absurd (cc h)
      popped_first (x ∷ q) done h =
          let same : a ≡ x = cc h in
          ap (λ y. done ++ y ∷ q) (sym same) ∙ sym (append_assoc done (a ∷ []) q)

  unfoldable pub sides_start : ℕ → Sides A
  sides_start slots = record {
    ring = create slots default;
    producer = idle;
    consumer = resting;
    pushed = [];
    popped = [];
  }

  sides_start-InOrder : (k : ℕ) → k ≤ 63 → InOrder default (2 ^ k) (sides_start (2 ^ k))
  unfolding sides_start create
  sides_start-InOrder k small = record {
    queue = [];
    capacity = length-replicate (2 ^ k) default;
    represents = create-Represents default k small;
    order = refl;
    producer_sure = tt;
    consumer_sure = tt;
  }

  accesses_from :
      (slots : ℕ) (xs : List (Access A)) (s : Sides A)
      → InOrder default slots s
      → InOrder default slots (accesses default xs s)
  unfolding accesses access
  accesses_from slots [] s v = v
  accesses_from slots (produces a ∷ xs) s v =
      accesses_from slots xs (produce_at s s.producer a)
        (produce_at-InOrder slots s s.producer a refl v)
  accesses_from slots (consumes ∷ xs) s v =
      accesses_from slots xs (consume_at default s s.consumer)
        (consume_at-InOrder slots s s.consumer refl v)

  -- However the single accesses of the two threads interleave, on a buffer of 2 ^ k slots: the items
  -- of the pops that returned are the first items of the pushes that returned, in their order, none
  -- lost, doubled or torn; at most as many as there are slots are under way; a push that loads
  -- the tail there finds the buffer full exactly when that many are, and a pop that loads the
  -- head finds it empty exactly when none is. The capacity is at most 2 ^ 63, and the counters may
  -- wrap.
  pub accesses-InOrder :
      (k : ℕ) (xs : List (Access A))
      → k ≤ 63
      → let s = accesses default xs (sides_start (2 ^ k)) in
        (queue : List A) × (s.pushed ≡ s.popped ++ queue)
        × (length queue ≤ 2 ^ k)
        × (seems_full (load_tail s.ring) ≡ leb (2 ^ k) (length queue))
        × (seems_empty (load_head s.ring) ≡ (length queue == 0))
  accesses-InOrder k xs small =
      let s = accesses default xs (sides_start (2 ^ k)) in
      let v = accesses_from (2 ^ k) xs (sides_start (2 ^ k)) (sides_start-InOrder k small) in
      let room = length-Represents default s.ring v.queue v.represents in
      let slots = v.capacity in
      let full = load_tail-full default s.ring v.queue v.represents in
      (
        v.queue,
        v.order,
        omega (arith, room, slots),
        full ∙ ap (λ n. leb n (length v.queue)) slots,
        load_head-empty default s.ring v.queue v.represents,
      )

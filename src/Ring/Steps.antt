-- ===== src/Ring/Steps.antt =====
-- `tryPush` and `tryPop` of include/feed_handler/ring_buffer.hpp, one access to shared memory at a
-- time: the producer and the consumer may take turns between any two accesses. An access sees the
-- latest store, as the acquire and release pairs of the code provide for what the calls rely on.
pub mod Slots
pub mod Sure
pub mod Order
use quant_feed_handler.Base.{
  ℕ, List, [], ◌∷◌, ◌++◌, Bool, length, get_or, set, leb, ◌==◌, if◌then◌else◌,
}
use quant_feed_handler.Ring.{SpscRingBuffer, sub64, mask}
use quant_feed_handler.Table.{add64}
use Prim.Native.Nat.{bit_and}

-- Between calls, before the load of the tail, before the write of the slot, and before the store of
-- the head.
pub data Producer (A : Type 0) : Type 0 where
  idle : Producer A
  reloading : A → Producer A
  writing : A → Producer A
  publishing : A → Producer A

-- Between calls, before the load of the head, before the read of the slot, and before the store of
-- the tail.
pub data Consumer (A : Type 0) : Type 0 where
  resting : Consumer A
  refreshing : Consumer A
  reading : Consumer A
  freeing : A → Consumer A

-- The items of the pushes and of the pops that returned true so far are kept with the state.
pub record Sides (A : Type 0) : Type 0 where
  pub ring : SpscRingBuffer A
  pub producer : Producer A
  pub consumer : Consumer A
  pub pushed : List A
  pub popped : List A

module _ {A : Type 0} where
  abbrev pub seems_full : SpscRingBuffer A → Bool
  seems_full r = leb (length r.buffer) (sub64 r.head r.cached_tail)

  abbrev pub seems_empty : SpscRingBuffer A → Bool
  seems_empty r = r.tail == r.cached_head

  abbrev pub load_tail : SpscRingBuffer A → SpscRingBuffer A
  load_tail r = record r { cached_tail = r.tail }

  abbrev pub load_head : SpscRingBuffer A → SpscRingBuffer A
  load_head r = record r { cached_head = r.head }

  abbrev pub write_slot : SpscRingBuffer A → A → SpscRingBuffer A
  write_slot r a = record r { buffer = set r.buffer (bit_and r.head (mask r)) a }

  abbrev pub store_head : SpscRingBuffer A → SpscRingBuffer A
  store_head r = record r { head = add64 r.head 1 }

  abbrev pub store_tail : SpscRingBuffer A → SpscRingBuffer A
  store_tail r = record r { tail = add64 r.tail 1 }

  -- A step of the producer; the item is that of a new call, if there is none under way.
  unfoldable pub produce_at : Sides A → Producer A → A → Sides A
  produce_at s idle a = record s { producer = if seems_full s.ring then reloading a else writing a }
  produce_at s (reloading b) a = record s {
    ring = load_tail s.ring;
    producer = if seems_full (load_tail s.ring) then idle else writing b;
  }
  produce_at s (writing b) a = record s { ring = write_slot s.ring b; producer = publishing b }
  produce_at s (publishing b) a = record s {
    ring = store_head s.ring;
    producer = idle;
    pushed = s.pushed ++ b ∷ [];
  }

  module _ (default : A) where
    unfoldable pub consume_at : Sides A → Consumer A → Sides A
    consume_at s resting = record s {
      consumer = if seems_empty s.ring then refreshing else reading;
    }
    consume_at s refreshing = record s {
      ring = load_head s.ring;
      consumer = if seems_empty (load_head s.ring) then resting else reading;
    }
    consume_at s reading = record s {
      consumer = freeing (get_or (s.ring).buffer (bit_and (s.ring).tail (mask s.ring)) default);
    }
    consume_at s (freeing a) = record s {
      ring = store_tail s.ring;
      consumer = resting;
      popped = s.popped ++ a ∷ [];
    }

-- Whose access comes next; the item is for a call of `tryPush` that starts there.
pub data Access (A : Type 0) : Type 0 where
  produces : A → Access A
  consumes : Access A

module _ {A : Type 0} (default : A) where
  unfoldable pub access : Access A → Sides A → Sides A
  access (produces a) s = produce_at s s.producer a
  access consumes s = consume_at default s s.consumer

  unfoldable pub accesses : List (Access A) → Sides A → Sides A
  accesses [] s = s
  accesses (x ∷ xs) s = accesses xs (access x s)

-- ===== src/Ring/Steps/Sure.antt =====
-- What each thread has made sure of between two of its accesses, and that the other thread keeps it.
use quant_feed_handler.Base.{ℕ, List, [], ◌∷◌, ◌++◌, some, ◌≡◌, length, length-set, get_or}
use quant_feed_handler.Base.Arrays.{get_or-set_self}
use quant_feed_handler.Ring.{SpscRingBuffer, mask}
use quant_feed_handler.Ring.Fifo.{Represents, pop_front}
use quant_feed_handler.Ring.Steps.{
  Producer, idle, reloading, writing, publishing, Consumer, resting, refreshing, reading, freeing,
  Sides, write_slot, store_head,
}
use Prim.Native.Nat.{bit_and}
use quant_feed_handler.Ring.Steps.Slots.{HasRoom, HasItem, head_inside}

module _ {A : Type 0} (default : A) where
  -- What a thread has made sure of before its next access.
  abbrev pub ProducerSure : Producer A → SpscRingBuffer A → Type 0
  ProducerSure idle r = Unit
  ProducerSure (reloading a) r = Unit
  ProducerSure (writing a) r = HasRoom r
  ProducerSure (publishing a) r =
      HasRoom r × (get_or r.buffer (bit_and r.head (mask r)) default ≡ a)

  -- The item is the first one of the queue.
  abbrev pub IsFirst : A → List A → Type 0
  IsFirst a q = some a ≡ (pop_front q).0

  abbrev pub ConsumerSure : Consumer A → SpscRingBuffer A → List A → Type 0
  ConsumerSure resting r q = Unit
  ConsumerSure refreshing r q = Unit
  ConsumerSure reading r q = HasItem r
  ConsumerSure (freeing a) r q = HasItem r × IsFirst a q

  pub write_slot-sure :
      (r : SpscRingBuffer A) (q : List A) (b : A)
      → Represents default r q
      → HasRoom r
      → ProducerSure (publishing b) (write_slot r b)
  write_slot-sure r q b v room =
      rw (length-set r.buffer (bit_and r.head (mask r)) b)
        (room, get_or-set_self r.buffer _ b default (head_inside default r q v room))

  -- The buffer represents a queue: what was pushed and not popped yet.
  pub record InOrder (slots : ℕ) (s : Sides A) : Type 0 where
    pub queue : List A
    pub capacity : length (s.ring).buffer ≡ slots
    pub represents : Represents default s.ring queue
    pub order : s.pushed ≡ s.popped ++ queue
    pub producer_sure : ProducerSure s.producer s.ring
    pub consumer_sure : ConsumerSure s.consumer s.ring queue

  pop_front-append : (q : List A) (a b : A) → IsFirst a q → IsFirst a (q ++ b ∷ [])
  pop_front-append [] a b h = absurd (cc h)
  pop_front-append (x ∷ q) a b h = h

  -- More items behind do not matter to the consumer.
  pub ConsumerSure-append :
      (c : Consumer A) (r : SpscRingBuffer A) (q : List A) (b : A)
      → ConsumerSure c r q
      → ConsumerSure c (store_head r) (q ++ b ∷ [])
  ConsumerSure-append resting r q b h = tt
  ConsumerSure-append refreshing r q b h = tt
  ConsumerSure-append reading r q b h = h
  ConsumerSure-append (freeing a) r q b h = (h.0, pop_front-append q a b h.1)

  pub ConsumerSure-same :
      (c : Consumer A) (r r' : SpscRingBuffer A) (q : List A)
      → r'.tail ≡ r.tail
      → r'.cached_head ≡ r.cached_head
      → ConsumerSure c r q
      → ConsumerSure c r' q
  ConsumerSure-same resting r r' q e k h = tt
  ConsumerSure-same refreshing r r' q e k h = tt
  ConsumerSure-same reading r r' q e k h = rw (e, k) h
  ConsumerSure-same (freeing a) r r' q e k h = (rw (e, k) h.0, h.1)

  pub ProducerSure-same :
      (p : Producer A) (r r' : SpscRingBuffer A)
      → r'.head ≡ r.head
      → r'.cached_tail ≡ r.cached_tail
      → r'.buffer ≡ r.buffer
      → ProducerSure p r
      → ProducerSure p r'
  ProducerSure-same idle r r' e k b h = tt
  ProducerSure-same (reloading a) r r' e k b h = tt
  ProducerSure-same (writing a) r r' e k b h = rw (e, k, b) h
  ProducerSure-same (publishing a) r r' e k b h = (rw (e, k, b) h.0, rw (e, b) h.1)

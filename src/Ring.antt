-- ===== src/Ring.antt =====
-- `SPSCRingBuffer` of include/feed_handler/ring_buffer.hpp. A `size_t` wraps at 2 ^ 64, and the
-- template parameter `Capacity` is the length of the buffer. A call of the producer or of the
-- consumer is one step.
pub mod Fifo
pub mod Calls
pub mod Steps
use quant_feed_handler.Base.{
  ℕ, ◌+◌, ◌-◌, ◌%◌, ◌^◌, List, Option, none, some, Bool, true, false, length, get_or, set,
  replicate, leb, ◌==◌, if◌then◌else◌,
}
use quant_feed_handler.Table.{add64}
use Prim.Native.Nat.{bit_and}

pub record SpscRingBuffer (A : Type 0) : Type 0 where
  pub head : ℕ
  pub cached_tail : ℕ
  pub tail : ℕ
  pub cached_head : ℕ
  pub buffer : List A

-- The difference of two `size_t`.
abbrev pub sub64 : ℕ → ℕ → ℕ
sub64 a b = (a + 2 ^ 64 - b) % 2 ^ 64

module _ {A : Type 0} where
  unfoldable pub create : ℕ → A → SpscRingBuffer A
  create capacity a = record {
    head = 0;
    cached_tail = 0;
    tail = 0;
    cached_head = 0;
    buffer = replicate capacity a;
  }

  abbrev pub mask : SpscRingBuffer A → ℕ
  mask r = length r.buffer - 1

  -- The write and the publication.
  unfoldable pub enqueue : SpscRingBuffer A → A → SpscRingBuffer A
  enqueue r item = record r {
    buffer = set r.buffer (bit_and r.head (mask r)) item;
    head = add64 r.head 1;
  }

  unfoldable pub try_push : SpscRingBuffer A → A → Bool × SpscRingBuffer A
  try_push r item =
      let r' : SpscRingBuffer A = record r { cached_tail = r.tail } in
      if leb (length r.buffer) (sub64 r.head r.cached_tail)
      then (if leb (length r.buffer) (sub64 r.head r.tail)
          then (false, r')
          else (true, enqueue r' item))
      else (true, enqueue r item)

  unfoldable pub dequeue : SpscRingBuffer A → A → Option A × SpscRingBuffer A
  dequeue r default =
      (some (get_or r.buffer (bit_and r.tail (mask r)) default), record r { tail = add64 r.tail 1 })

  -- The result holds `item` when the code returns true. The buffer is never empty, so the default
  -- is never read.
  unfoldable pub try_pop : SpscRingBuffer A → A → Option A × SpscRingBuffer A
  try_pop r default =
      let r' : SpscRingBuffer A = record r { cached_head = r.head } in
      if r.tail == r.cached_head
      then (if r.tail == r.head then (none, r') else dequeue r' default)
      else dequeue r default

  unfoldable pub empty : SpscRingBuffer A → Bool
  empty r = r.tail == r.head

  unfoldable pub size : SpscRingBuffer A → ℕ
  size r = if leb r.tail r.head then r.head - r.tail else 0

-- ===== src/Table.antt =====
-- The open-addressing hash table of include/feed_handler/order_table.hpp. The slot array is a list
-- and `Capacity` is its length; an `OrderRecord*` is the index of its slot.
pub mod Probe
pub mod Place
pub mod Full
pub mod Refine
pub mod Update
pub mod Count
pub mod Calls
use Prim.Native.Nat.{bit_and}
use quant_feed_handler.Base.{
  ℕ, zero, suc, ◌+◌, ◌-◌, ◌*◌, ◌/◌, ◌%◌, ◌^◌, List, Option, none, some, Bool, true, false, ◌&&◌,
  not, length, get_or, set, replicate, ltb, ◌==◌, if◌then◌else◌,
}
use quant_feed_handler.Base.Int.{ℤ, pos}

pub record OrderRecord : Type 0 where
  pub order_id : ℕ
  pub side : ℕ
  pub occupied : Bool
  pub cancelled : Bool
  pub price : ℤ
  pub quantity : ℤ
  pub timestamp : ℕ

abbrev pub blank : OrderRecord
blank = record {
  order_id = 0;
  side = 0;
  occupied = false;
  cancelled = false;
  price = pos 0;
  quantity = pos 0;
  timestamp = 0;
}

pub record OrderTable : Type 0 where
  pub table : List OrderRecord
  pub occupied_count : ℕ
  pub active_count : ℕ

-- `size_t` and `uint64_t` addition
abbrev pub add64 : ℕ → ℕ → ℕ
add64 a b = (a + b) % 2 ^ 64

-- `clear`, and so a new table, of the given capacity
unfoldable pub clear : ℕ → OrderTable
clear capacity = record { table = replicate capacity blank; occupied_count = 0; active_count = 0 }

-- `h >> 43`, then `& MASK`
unfoldable pub hash : ℕ → ℕ → ℕ
hash capacity order_id = bit_and (order_id * 0x9E3779B97F4A7C15 % 2 ^ 64 / 2 ^ 43) (capacity - 1)

-- `(startIdx + probe) & MASK`
unfoldable pub slot_index : ℕ → ℕ → ℕ → ℕ
slot_index capacity start probe = bit_and (add64 start probe) (capacity - 1)

-- The loop of `lookup`, by recursion on the rounds left.
unfoldable pub lookup_from : List OrderRecord → ℕ → ℕ → ℕ → ℕ → Option ℕ
lookup_from t start order_id zero probe = none
lookup_from t start order_id (suc rounds) probe =
    let i = slot_index (length t) start probe in
    let slot = get_or t i blank in
    let rest = lookup_from t start order_id rounds (probe + 1) in
    if not slot.occupied then none else if slot.order_id == order_id then some i else rest

unfoldable pub lookup : OrderTable → ℕ → Option ℕ
lookup o order_id = lookup_from o.table (hash (length o.table) order_id) order_id (length o.table) 0

-- `slot.cancelled = false; ++activeCount_;` if the slot is a tombstone
abbrev pub reactivate : OrderRecord → ℕ → ℕ
reactivate slot active = if slot.cancelled then add64 active 1 else active

module _ (id side : ℕ) (price quantity : ℤ) (ts : ℕ) where
  abbrev pub filled : OrderRecord
  filled = record {
    order_id = id;
    side = side;
    occupied = true;
    cancelled = false;
    price = price;
    quantity = quantity;
    timestamp = ts;
  }

  -- The write into a free slot.
  unfoldable pub claim : OrderTable → ℕ → OrderTable
  claim o i = record {
    table = set o.table i filled;
    occupied_count = add64 o.occupied_count 1;
    active_count = add64 o.active_count 1;
  }

  -- The write over the record of the same order.
  unfoldable pub overwrite : OrderTable → ℕ → OrderTable
  overwrite o i =
      let slot = get_or o.table i blank in
      record o {
        table = set o.table i (record slot {
          side = side;
          cancelled = false;
          price = price;
          quantity = quantity;
          timestamp = ts;
        });
        active_count = reactivate slot o.active_count;
      }

  -- The loop of `insert`.
  unfoldable pub insert_from : OrderTable → ℕ → ℕ → ℕ → Option ℕ × OrderTable
  insert_from o start zero probe = (none, o)
  insert_from o start (suc rounds) probe =
      let i = slot_index (length o.table) start probe in
      let slot = get_or o.table i blank in
      let rest = insert_from o start rounds (probe + 1) in
      if not slot.occupied
      then (some i, claim o i)
      else if slot.order_id == id
      then (some i, overwrite o i)
      else rest

  unfoldable pub insert : OrderTable → Option ℕ × OrderTable
  insert o = insert_from o (hash (length o.table) id) (length o.table) 0

-- `rec->cancelled = true; if (activeCount_ > 0) --activeCount_;`
unfoldable pub tombstone : OrderTable → ℕ → OrderTable
tombstone o i = record o {
  table = set o.table i (record (get_or o.table i blank) { cancelled = true });
  active_count = if ltb 0 o.active_count then o.active_count - 1 else o.active_count;
}

unfoldable pub erase : OrderTable → ℕ → Bool × OrderTable
erase o order_id = elim (lookup o order_id) [
  | none ↦ (false, o)
  | some i ↦ if not (get_or o.table i blank).cancelled then (true, tombstone o i) else (false, o)
]

abbrev pub size : OrderTable → ℕ
size o = o.active_count

abbrev pub occupied_slots : OrderTable → ℕ
occupied_slots o = o.occupied_count

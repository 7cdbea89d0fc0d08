-- ===== src/Table/Probe.antt =====
-- The probe sequence that `lookup` and `insert` share, and where it stops.
use native.Mathlib.Nat.{mod-lt, one-le-pow}
use quant_feed_handler.Base.{
  ℕ, zero, suc, ◌+◌, ◌%◌, ◌^◌, ◌≤◌, ◌<◌, List, Option, none, some, true, false, not, ◌≡◌, refl, inl,
  inr, length, get_or, ◌==◌, Bool-cases, if◌then◌else◌, arith,
}
use quant_feed_handler.Base.Bits.{bit_and_mask}
use quant_feed_handler.Base.Int.{ℤ}
use quant_feed_handler.Table.{
  OrderRecord, blank, OrderTable, add64, hash, slot_index, lookup_from, lookup, claim, overwrite,
  insert_from, insert,
}

-- At a free slot, at the order's own slot, or after a full round.
pub data Stop : Type 0 where
  free : ℕ → Stop
  match : ℕ → Stop
  full : Stop

unfoldable pub stop_from : List OrderRecord → ℕ → ℕ → ℕ → ℕ → Stop
stop_from t start order_id zero probe = full
stop_from t start order_id (suc rounds) probe =
    let i = slot_index (length t) start probe in
    let slot = get_or t i blank in
    let rest = stop_from t start order_id rounds (probe + 1) in
    if not slot.occupied then free i else if slot.order_id == order_id then match i else rest

unfoldable pub stop : List OrderRecord → ℕ → Stop
stop t order_id = stop_from t (hash (length t) order_id) order_id (length t) 0

abbrev pub found : Stop → Option ℕ
found (free i) = none
found (match i) = some i
found full = none

lookup_from-stop :
    (t : List OrderRecord) (start order_id rounds probe : ℕ)
    → lookup_from t start order_id rounds probe ≡ found (stop_from t start order_id rounds probe)
unfolding lookup_from stop_from
lookup_from-stop t start order_id zero probe = refl
lookup_from-stop t start order_id (suc rounds) probe =
    ground (arith, lookup_from-stop t start order_id rounds (probe + 1))

pub lookup-stop :
    (o : OrderTable) (order_id : ℕ) → lookup o order_id ≡ found (stop o.table order_id)
unfolding lookup stop
lookup-stop o order_id = lookup_from-stop o.table _ order_id (length o.table) 0

module _ (id side : ℕ) (price quantity : ℤ) (ts : ℕ) where
  abbrev pub stored : OrderTable → Stop → Option ℕ × OrderTable
  stored o (free i) = (some i, claim id side price quantity ts o i)
  stored o (match i) = (some i, overwrite id side price quantity ts o i)
  stored o full = (none, o)

  insert_from-stop :
      (o : OrderTable) (start rounds probe : ℕ)
      → insert_from id side price quantity ts o start rounds probe
        ≡ stored o (stop_from o.table start id rounds probe)
  unfolding insert_from stop_from
  insert_from-stop o start zero probe = refl
  insert_from-stop o start (suc rounds) probe =
      let i = slot_index (length o.table) start probe in
      elim (Bool-cases (get_or o.table i blank).occupied) [
        | inr unused ↦ rw unused
        | inl used ↦ rw used (elim (Bool-cases ((get_or o.table i blank).order_id == id)) [
          | inl same ↦ rw same
          | inr other ↦ rw other (insert_from-stop o start rounds (probe + 1))
        ])
      ]

  pub insert-stop :
      (o : OrderTable) → insert id side price quantity ts o ≡ stored o (stop o.table id)
  unfolding insert stop
  insert-stop o = insert_from-stop o _ (length o.table) 0

-- With a power of two for a capacity, the masked index is the remainder.
pub slot_index-mod :
    (k capacity start probe : ℕ)
    → capacity ≡ 2 ^ k
    → capacity ≤ 2 ^ 63
    → start < capacity
    → probe < capacity
    → slot_index capacity start probe ≡ (start + probe) % capacity
unfolding slot_index
slot_index-mod k capacity start probe e small s p =
    let wraps : add64 start probe ≡ start + probe = omega arith in
    rw (wraps, e) (bit_and_mask k (start + probe))

-- The record of a slot where the probe stops.
abbrev pub StopsAt : List OrderRecord → ℕ → Stop → Type 0
StopsAt t order_id (free i) = (get_or t i blank).occupied ≡ false
StopsAt t order_id (match i) =
    ((get_or t i blank).occupied ≡ true) × ((get_or t i blank).order_id ≡ order_id)
StopsAt t order_id full = Unit

pub stop_from-StopsAt :
    (t : List OrderRecord) (start order_id rounds probe : ℕ)
    → StopsAt t order_id (stop_from t start order_id rounds probe)
unfolding stop_from
stop_from-StopsAt t start order_id zero probe = tt
stop_from-StopsAt t start order_id (suc rounds) probe =
    let i = slot_index (length t) start probe in
    elim (Bool-cases (get_or t i blank).occupied) [
      | inr unused ↦ rw unused unused
      | inl used ↦ rw used (elim (Bool-cases ((get_or t i blank).order_id == order_id)) [
        | inl same ↦ rw same (used, ground arith)
        | inr other ↦ rw other (stop_from-StopsAt t start order_id rounds (probe + 1))
      ])
    ]

pub slot_index-lt :
    (k capacity start probe : ℕ) → capacity ≡ 2 ^ k → slot_index capacity start probe < capacity
unfolding slot_index
slot_index-lt k capacity start probe e = rw e (
    rw (bit_and_mask k (add64 start probe))
      (mod-lt (add64 start probe) (one-le-pow k 2 (omega arith))))

pub hash-lt : (k capacity order_id : ℕ) → capacity ≡ 2 ^ k → hash capacity order_id < capacity
unfolding hash
hash-lt k capacity order_id e =
    rw e (rw (bit_and_mask k _) (mod-lt _ (one-le-pow k 2 (omega arith))))

pub stop-StopsAt : (t : List OrderRecord) (order_id : ℕ) → StopsAt t order_id (stop t order_id)
unfolding stop
stop-StopsAt t order_id = stop_from-StopsAt t _ order_id (length t) 0

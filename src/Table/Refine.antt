-- ===== src/Table/Refine.antt =====
-- The table is a map from order ids to records: what `lookup` finds after an `insert`, an `erase`
-- or a full table.
use quant_feed_handler.Base.{
  ℕ, ◌^◌, ◌≤◌, ◌<◌, List, Option, none, some, true, false, ◌≡◌, ◌⊎◌, refl, sym, ap, ◌∙◌, inl, inr,
  length, get_or, set, length-set, ◌==◌, Bool-cases, if◌then◌else◌, arith,
}
use quant_feed_handler.Base.Arrays.{get_or-set_self, get_or-set_ne}
use quant_feed_handler.Base.Int.{ℤ}
use quant_feed_handler.Table.{
  OrderRecord, blank, OrderTable, filled, claim, overwrite, lookup, insert,
}
use quant_feed_handler.Table.Probe.{
  Stop, free, match, full, found, stop, stop-StopsAt, lookup-stop, insert-stop, stored,
}
use quant_feed_handler.Table.Full.{IsTaken, stop-IsTaken}
use quant_feed_handler.Table.Place.{
  IsPlaced, stop-SameKeys, SameKeys-IsPlaced, SameKeys-set, stop-set_match, stop-set_free,
  IsPlaced-set_free, stop-InRange,
}

-- The capacity is a power of two, and every order can be found.
pub record IsTable (o : OrderTable) : Type 0 where
  pub bits : ℕ
  pub power : length o.table ≡ 2 ^ bits
  pub small : length o.table ≤ 2 ^ 63
  pub placed : IsPlaced o.table

abbrev pub record_at : List OrderRecord → Option ℕ → Option OrderRecord
record_at t none = none
record_at t (some i) = some (get_or t i blank)

-- The record that `lookup` points to.
unfoldable pub find : OrderTable → ℕ → Option OrderRecord
find o order_id = record_at o.table (lookup o order_id)

abbrev pub found_at : List OrderRecord → Stop → Option OrderRecord
found_at t s = record_at t (found s)

pub find-stop :
    (o : OrderTable) (order_id : ℕ) → find o order_id ≡ found_at o.table (stop o.table order_id)
unfolding find
find-stop o order_id = rw (lookup-stop o order_id)

Stop-cases : (s : Stop) → ((i : ℕ) × (s ≡ match i)) ⊎ ((t : List OrderRecord) → found_at t s ≡ none)
Stop-cases (free i) = inr (λ t. refl)
Stop-cases (match i) = inl (i, refl)
Stop-cases full = inr (λ t. refl)

module _ (t : List OrderRecord) (i : ℕ) (r : OrderRecord) (h : i < length t) where
  -- A write of another order makes no order appear.
  found-set_back :
      (bits : ℕ)
      → length t ≡ 2 ^ bits
      → IsPlaced t
      → (q j : ℕ) → (q == r.order_id) ≡ false
      → stop (set t i r) q ≡ match j
      → stop t q ≡ match j
  found-set_back bits power p q j other at_j =
      let at = rw at_j at (stop-StopsAt (set t i r) q) in
      let inside =
        rw (at_j, length-set t i r) at
          (stop-InRange bits (set t i r) q (length-set t i r ∙ power)) in
      elim (Bool-cases (i == j)) [
        | inl same ↦
            let here : i ≡ j = ground arith in
            absurd (ground (arith, rw (← here, get_or-set_self t i r blank h) at at.1))
        | inr ne ↦
            let away = get_or-set_ne t i j r blank (ground arith) in
            let same : (get_or t j blank).order_id ≡ q = rw away at at.1 in
            rw (← same) (p j inside (rw away at at.0))
      ]

  -- A record written into a free slot adds one order, and leaves the others as they were.
  found_at-set_free :
      (bits : ℕ)
      → length t ≡ 2 ^ bits
      → IsPlaced t
      → (get_or t i blank).occupied ≡ false
      → r.occupied ≡ true
      → stop t r.order_id ≡ free i
      → (q : ℕ)
      → found_at (set t i r) (stop (set t i r) q)
        ≡ (if q == r.order_id then some r else found_at t (stop t q))
  found_at-set_free bits power p unused used e q = elim (Bool-cases (q == r.order_id)) [
    | inl same ↦
        let same' : q ≡ r.order_id = ground arith in
        rw (same, same', stop-set_free t i r unused h used e) (rw (get_or-set_self t i r blank h))
    | inr other ↦ rw other (elim (Stop-cases (stop t q)) [
      | inl (j, at_j) ↦
          let at = rw at_j at (stop-StopsAt t q) in
          rw (at_j, stop-set_match t i r unused h used q j at_j)
            (ap some (get_or-set_ne t i j r blank (λ k. cc (rw (← k, unused) at at.0))))
      | inr absent ↦ rw (absent t) (elim (Stop-cases (stop (set t i r) q)) [
        | inr absent' ↦ absent' (set t i r)
        | inl (j, at_j) ↦
            absurd (cc (rw (found-set_back bits power p q j other at_j) at (absent t)))
      ])
    ])
  ]

  -- A record written over another of the same order changes what is found for it alone.
  pub found_at-set_same :
      (get_or t i blank).occupied ≡ true
      → r.occupied ≡ true
      → r.order_id ≡ (get_or t i blank).order_id
      → IsPlaced t
      → (q : ℕ)
      → found_at (set t i r) (stop (set t i r) q)
        ≡ (if q == r.order_id then some r else found_at t (stop t q))
  found_at-set_same used used' same p q =
      let keys = SameKeys-set t i r (used' ∙ sym used) same h in
      rw (← stop-SameKeys t (set t i r) q keys) (elim (Bool-cases (q == r.order_id)) [
        | inl eq ↦
            let eq' : q ≡ r.order_id = ground arith in
            let at_i : stop t q ≡ match i = rw (eq' ∙ same) (p i h used) in
            rw (eq, at_i) (ap some (get_or-set_self t i r blank h))
        | inr other ↦ rw other (elim (Stop-cases (stop t q)) [
          | inr absent ↦ rw (absent t) (absent (set t i r))
          | inl (j, at_j) ↦
              let at = rw at_j at (stop-StopsAt t q) in
              rw at_j (
                ap some
                  (get_or-set_ne t i j r blank (λ k. ground (arith, rw (← k, ← same) at at.1))))
        ])
      ])

module _ (id side : ℕ) (price quantity : ℤ) (ts : ℕ) where
  -- What an insertion that returned a slot did.
  pub record Inserted (o : OrderTable) (i : ℕ) (o' : OrderTable) : Type 0 where
    pub valid : IsTable o'
    pub points : get_or o'.table i blank ≡ filled id side price quantity ts
    pub finds :
        (q : ℕ)
        → find o' q ≡ (if q == id then some (filled id side price quantity ts) else find o q)

  claim-Inserted :
      (o : OrderTable) (i : ℕ)
      → IsTable o
      → stop o.table id ≡ free i
      → Inserted o i (claim id side price quantity ts o i)
  unfolding claim
  claim-Inserted o i v e =
      let r = filled id side price quantity ts in
      let unused = rw e at (stop-StopsAt o.table id) in
      let h = rw e at (stop-InRange v.bits o.table id v.power) in
      record {
        valid = record {
          bits = v.bits;
          power = length-set o.table i r ∙ v.power;
          small = rw (length-set o.table i r) v.small;
          placed = IsPlaced-set_free o.table i r unused h refl e v.placed;
        };
        points = get_or-set_self o.table i r blank h;
        finds = λ q.
            rw (find-stop _ q, find-stop o q)
              (found_at-set_free o.table i r h v.bits v.power v.placed unused refl e q);
      }

  overwrite-Inserted :
      (o : OrderTable) (i : ℕ)
      → IsTable o
      → stop o.table id ≡ match i
      → Inserted o i (overwrite id side price quantity ts o i)
  unfolding overwrite
  overwrite-Inserted o i v e =
      let at = rw e at (stop-StopsAt o.table id) in
      let h = rw e at (stop-InRange v.bits o.table id v.power) in
      let r : OrderRecord = record (get_or o.table i blank) {
        side = side;
        cancelled = false;
        price = price;
        quantity = quantity;
        timestamp = ts;
      } in
      let same : r ≡ filled id side price quantity ts = λ j. record (get_or o.table i blank) {
        order_id = at.1 j;
        occupied = at.0 j;
        side = side;
        cancelled = false;
        price = price;
        quantity = quantity;
        timestamp = ts;
      } in
      let keys = SameKeys-set o.table i r refl refl h in
      record {
        valid = record {
          bits = v.bits;
          power = length-set o.table i r ∙ v.power;
          small = rw (length-set o.table i r) v.small;
          placed = SameKeys-IsPlaced o.table (set o.table i r) keys v.placed;
        };
        points = get_or-set_self o.table i r blank h ∙ same;
        finds = λ q.
            rw (find-stop _ q, find-stop o q, ← same, ← at.1)
              (found_at-set_same o.table i r h at.0 at.0 refl v.placed q);
      }

  -- The outcome of an insertion: a slot and the new table, or no slot, an unchanged table and no
  -- room.
  abbrev pub InsertOutcome : OrderTable → Option ℕ × OrderTable → Type 0
  InsertOutcome o (none, o') = (o' ≡ o) × ((j : ℕ) → j < length o.table → IsTaken o.table id j)
  InsertOutcome o (some i, o') = Inserted o i o'

  -- An insertion into a consistent table that returns a slot has stored the record there; `find`
  -- gives it for its id and is unchanged for every other, and the table stays consistent. One that
  -- returns no slot has changed nothing, and every slot is used by another order.
  pub insert-InsertOutcome :
      (o : OrderTable) → IsTable o → InsertOutcome o (insert id side price quantity ts o)
  insert-InsertOutcome o v =
      rw (insert-stop id side price quantity ts o) (go (stop o.table id) refl)
    where
      go : (s : Stop) → stop o.table id ≡ s → InsertOutcome o (stored id side price quantity ts o s)
      go (free i) e = claim-Inserted o i v e
      go (match i) e = overwrite-Inserted o i v e
      go full e = (refl, stop-IsTaken v.bits o.table id v.power v.small e)

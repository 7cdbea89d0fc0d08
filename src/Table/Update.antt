-- ===== src/Table/Update.antt =====
-- Writes to the record of an order that the table holds, through the pointer that `lookup` gave,
-- and `erase`.
use quant_feed_handler.Base.{
  ℕ, ◌<◌, some, Bool, true, false, ◌≡◌, refl, sym, ap, ◌∙◌, inl, inr, length, get_or, set,
  length-set, ◌==◌, Bool-cases, Option-cases, if◌then◌else◌, arith,
}
use quant_feed_handler.Table.{OrderRecord, blank, OrderTable, lookup, tombstone, erase}
use quant_feed_handler.Table.Probe.{Stop, free, match, full, found, stop, stop-StopsAt, lookup-stop}
use quant_feed_handler.Table.Place.{SameKeys-IsPlaced, SameKeys-set, stop-InRange}
use quant_feed_handler.Table.Refine.{IsTable, find, find-stop, found_at-set_same}

lookup-match : (o : OrderTable) (id i : ℕ) → lookup o id ≡ some i → stop o.table id ≡ match i
lookup-match o id i e = go (stop o.table id) (sym (lookup-stop o id) ∙ e)
  where
    go : (s : Stop) → found s ≡ some i → s ≡ match i
    go (free j) h = cc
    go (match j) h = cc
    go full h = cc

-- What a pointer from `lookup` points to: a slot of the table that holds the order.
pub record Points (o : OrderTable) (id i : ℕ) : Type 0 where
  pub inside : i < length o.table
  pub used : (get_or o.table i blank).occupied ≡ true
  pub same : (get_or o.table i blank).order_id ≡ id
  pub finds : find o id ≡ some (get_or o.table i blank)

pub lookup-Points : (o : OrderTable) (id i : ℕ) → IsTable o → lookup o id ≡ some i → Points o id i
unfolding find
lookup-Points o id i v e =
    let at_i = lookup-match o id i e in
    let at = rw at_i at (stop-StopsAt o.table id) in
    record {
      inside = rw at_i at (stop-InRange v.bits o.table id v.power);
      used = at.0;
      same = at.1;
      finds = rw e;
    }

-- The table after the record of the order became `r`, all else being as it was.
pub record Updated (o : OrderTable) (id : ℕ) (r : OrderRecord) (o' : OrderTable) : Type 0 where
  pub valid : IsTable o'
  pub finds : (q : ℕ) → find o' q ≡ (if q == id then some r else find o q)

pub update-Updated :
    (o : OrderTable) (id i : ℕ) (r : OrderRecord)
    → IsTable o
    → lookup o id ≡ some i
    → r.occupied ≡ (get_or o.table i blank).occupied
    → r.order_id ≡ (get_or o.table i blank).order_id
    → (o' : OrderTable) → o'.table ≡ set o.table i r
    → Updated o id r o'
update-Updated o id i r v e used same o' eq =
    let p = lookup-Points o id i v e in
    let keys = SameKeys-set o.table i r used same p.inside in
    record {
      valid = record {
        bits = v.bits;
        power = ap length eq ∙ length-set o.table i r ∙ v.power;
        small = rw (eq, length-set o.table i r) v.small;
        placed = rw eq (SameKeys-IsPlaced o.table (set o.table i r) keys v.placed);
      };
      finds = λ q.
          let id' : r.order_id ≡ id = same ∙ p.same in
          rw (find-stop o' q, find-stop o q, eq, ← id')
            (found_at-set_same o.table i r p.inside p.used (used ∙ p.used) same v.placed q);
    }

-- An erased order was live and is a tombstone now, and nothing else changes.
pub record Erased (o : OrderTable) (id : ℕ) (r : OrderRecord) (o' : OrderTable) : Type 0 where
  pub was : find o id ≡ some r
  pub live : r.cancelled ≡ false
  pub updated : Updated o id (record r { cancelled = true }) o'
  pub counts : o'.occupied_count ≡ o.occupied_count

tombstone-Erased :
    (o : OrderTable) (id i : ℕ)
    → IsTable o
    → lookup o id ≡ some i
    → (get_or o.table i blank).cancelled ≡ false
    → Erased o id (get_or o.table i blank) (tombstone o i)
unfolding tombstone
tombstone-Erased o id i v e live = record {
  was = (lookup-Points o id i v e).finds;
  live = live;
  updated = update-Updated o id i _ v e refl refl (tombstone o i) refl;
  counts = refl;
}

abbrev pub EraseOutcome : OrderTable → ℕ → Bool × OrderTable → Type 0
EraseOutcome o id (true, o') = (r : OrderRecord) × Erased o id r o'
EraseOutcome o id (false, o') =
    (o' ≡ o) × ((r : OrderRecord) → find o id ≡ some r → r.cancelled ≡ true)

-- Erasing from a consistent table answers whether the order was live: then it becomes a tombstone
-- and no other order changes, and otherwise the table is unchanged and the order is absent or a
-- tombstone.
pub erase-EraseOutcome : (o : OrderTable) (id : ℕ) → IsTable o → EraseOutcome o id (erase o id)
unfolding erase find
erase-EraseOutcome o id v = elim (Option-cases (lookup o id)) [
  | inl absent ↦ rw (absent, erase) (refl, λ r h. cc)
  | inr (i, e) ↦
      let slot = get_or o.table i blank in
      elim (Bool-cases slot.cancelled) [
        | inl gone ↦ rw (e, erase, gone) (refl, λ r h. ground arith)
        | inr live ↦ rw (e, erase, live) (slot, tombstone-Erased o id i v e live)
      ]
]

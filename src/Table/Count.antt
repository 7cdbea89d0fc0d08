-- ===== src/Table/Count.antt =====
-- The two counters of the table: slots in use, and live orders.
use quant_feed_handler.Base.{
  ℕ, zero, suc, ◌+◌, ◌≤◌, ◌<◌, List, [], ◌∷◌, Bool, true, false, ◌&&◌, not, ◌≡◌, refl, inl, inr,
  length, get_or, set, length-set, Bool-cases, Option-cases, arith,
}
use quant_feed_handler.Base.Int.{ℤ}
use quant_feed_handler.Table.{
  OrderRecord, blank, OrderTable, filled, claim, overwrite, insert, lookup, tombstone, erase,
}
use quant_feed_handler.Table.Probe.{
  Stop, free, match, full, stop, stop-StopsAt, insert-stop, stored,
}
use quant_feed_handler.Table.Place.{stop-InRange}
use quant_feed_handler.Table.Refine.{IsTable}
use quant_feed_handler.Table.Update.{lookup-Points}

abbrev pub to_nat : Bool → ℕ
to_nat true = 1
to_nat false = 0

unfoldable pub count_if : (OrderRecord → Bool) → List OrderRecord → ℕ
count_if p [] = 0
count_if p (r ∷ t) = to_nat (p r) + count_if p t

abbrev pub is_used : OrderRecord → Bool
is_used r = r.occupied

abbrev pub is_live : OrderRecord → Bool
is_live r = r.occupied && not r.cancelled

pub count_if-set :
    (p : OrderRecord → Bool) (t : List OrderRecord) (i : ℕ) (r : OrderRecord)
    → i < length t
    → count_if p (set t i r) + to_nat (p (get_or t i blank)) ≡ count_if p t + to_nat (p r)
unfolding count_if
count_if-set p [] i r h = absurd (omega arith)
count_if-set p (x ∷ t) zero r h = omega arith
count_if-set p (x ∷ t) (suc i) r h = omega (arith, count_if-set p t i r (omega arith))

count_if-le-length : (p : OrderRecord → Bool) (t : List OrderRecord) → count_if p t ≤ length t
unfolding count_if
count_if-le-length p [] = omega arith
count_if-le-length p (x ∷ t) = ground (arith, count_if-le-length p t)

-- `occupiedSlots()` is the number of used slots.
abbrev pub UsedExact : OrderTable → Type 0
UsedExact o = o.occupied_count ≡ count_if is_used o.table

-- So it is, and `size()` is the number of live orders.
pub record IsCounted (o : OrderTable) : Type 0 where
  pub used : UsedExact o
  pub live : o.active_count ≡ count_if is_live o.table

-- A slot that is not free in the count leaves room for one more.
count_if-lt :
    (p : OrderRecord → Bool) (t : List OrderRecord) (i : ℕ)
    → i < length t
    → p (get_or t i blank) ≡ false
    → count_if p t < length t
unfolding count_if
count_if-lt p [] i h e = absurd (omega arith)
count_if-lt p (x ∷ t) zero h e = ground (arith, count_if-le-length p t)
count_if-lt p (x ∷ t) (suc i) h e = ground (arith, count_if-lt p t i)

-- A write that keeps the slot in use.
pub set-UsedExact :
    (o : OrderTable) (i : ℕ) (r : OrderRecord)
    → i < length o.table
    → r.occupied ≡ (get_or o.table i blank).occupied
    → UsedExact o
    → o.occupied_count ≡ count_if is_used (set o.table i r)
set-UsedExact o i r h same e = ground (arith, count_if-set is_used o.table i r h)

-- A table with every slot in use.
pub count_if_all :
    (t : List OrderRecord)
    → ((j : ℕ) → j < length t → (get_or t j blank).occupied ≡ true)
    → count_if is_used t ≡ length t
unfolding count_if
count_if_all [] h = refl
count_if_all (x ∷ t) h =
    let first : x.occupied ≡ true = h 0 (omega arith) in
    rw first (omega (arith, count_if_all t (λ j b. h (suc j) (omega arith))))

module _ (id side : ℕ) (price quantity : ℤ) (ts : ℕ) where
  claim-UsedExact :
      (o : OrderTable) (i : ℕ)
      → IsTable o
      → UsedExact o
      → i < length o.table
      → (get_or o.table i blank).occupied ≡ false
      → UsedExact (claim id side price quantity ts o i)
  unfolding claim
  claim-UsedExact o i v c h unused = ground (
    arith,
    count_if-set is_used o.table i (filled id side price quantity ts) h,
    count_if-lt is_used o.table i h unused,
  )

  -- The outcome keeps the count of used slots exact, and the table grows by at most one order.
  pub record Grown (o o' : OrderTable) : Type 0 where
    pub used : UsedExact o'
    pub same_capacity : length o'.table ≡ length o.table
    pub at_most_one : o'.occupied_count ≤ o.occupied_count + 1

  pub insert-Grown :
      (o : OrderTable) → IsTable o → UsedExact o → Grown o (insert id side price quantity ts o).1
  unfolding claim overwrite
  insert-Grown o v c = rw (insert-stop id side price quantity ts o) (go (stop o.table id) refl)
    where
      go : (s : Stop) → stop o.table id ≡ s → Grown o (stored id side price quantity ts o s).1
      go (free i) e = record {
        used =
            claim-UsedExact o i v c (rw e at (stop-InRange v.bits o.table id v.power))
              (rw e at (stop-StopsAt o.table id));
        same_capacity = length-set o.table i _;
        at_most_one = omega arith;
      }
      go (match i) e = record {
        used = set-UsedExact o i _ (rw e at (stop-InRange v.bits o.table id v.power)) refl c;
        same_capacity = length-set o.table i _;
        at_most_one = omega arith;
      }
      go full e = record { used = c; same_capacity = refl; at_most_one = omega arith }

  claim-IsCounted :
      (o : OrderTable) (i : ℕ)
      → IsTable o
      → IsCounted o
      → i < length o.table
      → (get_or o.table i blank).occupied ≡ false
      → IsCounted (claim id side price quantity ts o i)
  unfolding claim
  claim-IsCounted o i v c h unused =
      let r = filled id side price quantity ts in
      record {
        used = claim-UsedExact o i v c.used h unused;
        live = ground (arith, count_if-set is_live o.table i r h, count_if-lt is_live o.table i h);
      }

  overwrite-IsCounted :
      (o : OrderTable) (i : ℕ)
      → IsTable o
      → IsCounted o
      → i < length o.table
      → (get_or o.table i blank).occupied ≡ true
      → IsCounted (overwrite id side price quantity ts o i)
  unfolding overwrite
  overwrite-IsCounted o i v c h used =
      let slot = get_or o.table i blank in
      let r : OrderRecord = record slot {
        side = side;
        cancelled = false;
        price = price;
        quantity = quantity;
        timestamp = ts;
      } in
      record {
        used = set-UsedExact o i r h refl c.used;
        live = ground (arith, count_if-set is_live o.table i r h, count_if-lt is_live o.table i h);
      }

  -- An insertion into a consistent table whose counters are exact keeps them exact: the count of
  -- used slots and that of live orders, which is `size()`.
  pub insert-IsCounted :
      (o : OrderTable) → IsTable o → IsCounted o → IsCounted (insert id side price quantity ts o).1
  insert-IsCounted o v c = rw (insert-stop id side price quantity ts o) (go (stop o.table id) refl)
    where
      go : (s : Stop) → stop o.table id ≡ s → IsCounted (stored id side price quantity ts o s).1
      go (free i) e =
          claim-IsCounted o i v c (rw e at (stop-InRange v.bits o.table id v.power))
            (rw e at (stop-StopsAt o.table id))
      go (match i) e =
          overwrite-IsCounted o i v c (rw e at (stop-InRange v.bits o.table id v.power))
            (rw e at (stop-StopsAt o.table id)).0
      go full e = c

tombstone-IsCounted :
    (o : OrderTable) (i : ℕ)
    → IsCounted o
    → i < length o.table
    → (get_or o.table i blank).occupied ≡ true
    → (get_or o.table i blank).cancelled ≡ false
    → IsCounted (tombstone o i)
unfolding tombstone
tombstone-IsCounted o i c h used live =
    let r : OrderRecord = record (get_or o.table i blank) { cancelled = true } in
    record {
      used = ground (arith, count_if-set is_used o.table i r h);
      live = ground (arith, count_if-set is_live o.table i r h);
    }

-- An erasure from a consistent table whose counters are exact keeps them exact.
pub erase-IsCounted : (o : OrderTable) (id : ℕ) → IsTable o → IsCounted o → IsCounted (erase o id).1
unfolding erase
erase-IsCounted o id v c = elim (Option-cases (lookup o id)) [
  | inl absent ↦ rw (absent, erase) c
  | inr (i, e) ↦
      let slot = get_or o.table i blank in
      let p = lookup-Points o id i v e in
      elim (Bool-cases slot.cancelled) [
        | inl gone ↦ rw (e, erase, gone) c
        | inr live ↦ rw (e, erase, live) (tombstone-IsCounted o i c p.inside p.used live)
      ]
]

-- ===== src/Table/Calls.antt =====
-- Any calls of the order table, one after the other.
use quant_feed_handler.Base.{
  ℕ, zero, suc, ◌^◌, ◌≤◌, List, [], ◌∷◌, Option, none, some, Bool, true, false, ◌≡◌, refl, sym,
  replicate, arith,
}
use quant_feed_handler.Base.Int.{ℤ}
use quant_feed_handler.Book.Run.{clear-IsTable}
use quant_feed_handler.Table.{OrderRecord, blank, OrderTable, clear, insert, erase}
use quant_feed_handler.Table.Count.{
  count_if, is_used, is_live, IsCounted, insert-IsCounted, erase-IsCounted,
}
use quant_feed_handler.Table.Refine.{IsTable, InsertOutcome, insert-InsertOutcome}
use quant_feed_handler.Table.Update.{EraseOutcome, erase-EraseOutcome}

-- A call of `insert` with its arguments, or of `erase`.
pub data TableCall : Type 0 where
  inserts : ℕ → ℕ → ℤ → ℤ → ℕ → TableCall
  erases : ℕ → TableCall

unfoldable pub table_call : TableCall → OrderTable → OrderTable
table_call (inserts id side price quantity ts) o = (insert id side price quantity ts o).1
table_call (erases id) o = (erase o id).1

unfoldable pub table_calls : List TableCall → OrderTable → OrderTable
table_calls [] o = o
table_calls (c ∷ cs) o = table_calls cs (table_call c o)

InsertOutcome-IsTable :
    (id side : ℕ) (price quantity : ℤ) (ts : ℕ) (o : OrderTable) (p : Option ℕ × OrderTable)
    → IsTable o
    → InsertOutcome id side price quantity ts o p
    → IsTable p.1
InsertOutcome-IsTable id side price quantity ts o (none, o') v h = rw h.0 v
InsertOutcome-IsTable id side price quantity ts o (some i, o') v h = h.valid

EraseOutcome-IsTable :
    (o : OrderTable) (id : ℕ) (p : Bool × OrderTable)
    → IsTable o
    → EraseOutcome o id p
    → IsTable p.1
EraseOutcome-IsTable o id (true, o') v h = h.1.updated.valid
EraseOutcome-IsTable o id (false, o') v h = rw h.0 v

-- Consistent, with exact counts.
abbrev pub IsExact : OrderTable → Type 0
IsExact o = IsTable o × IsCounted o

table_call-IsExact : (c : TableCall) (o : OrderTable) → IsExact o → IsExact (table_call c o)
unfolding table_call
table_call-IsExact (inserts id side price quantity ts) o v = (
  InsertOutcome-IsTable id side price quantity ts o (insert id side price quantity ts o) v.0
      (insert-InsertOutcome id side price quantity ts o v.0),
  insert-IsCounted id side price quantity ts o v.0 v.1,
)
table_call-IsExact (erases id) o v = (
  EraseOutcome-IsTable o id (erase o id) v.0 (erase-EraseOutcome o id v.0),
  erase-IsCounted o id v.0 v.1,
)

count_if-blank :
    (p : OrderRecord → Bool) (n : ℕ) → p blank ≡ false → count_if p (replicate n blank) ≡ 0
unfolding count_if
count_if-blank p zero h = omega arith
count_if-blank p (suc n) h = let rest = count_if-blank p n h in rw h (omega (arith, rest))

clear-IsCounted : (n : ℕ) → IsCounted (clear n)
unfolding clear
clear-IsCounted n = record {
  used = sym (count_if-blank is_used n refl);
  live = sym (count_if-blank is_live n refl);
}

table_calls_from : (cs : List TableCall) (o : OrderTable) → IsExact o → IsExact (table_calls cs o)
unfolding table_calls
table_calls_from [] o v = v
table_calls_from (c ∷ cs) o v = table_calls_from cs (table_call c o) (table_call-IsExact c o v)

-- Whatever calls of `insert` and `erase` follow on `clear`, those that fail included: every used slot
-- can be reached by the probes for its order, and the counts of used slots and of live orders, which
-- is `size()`, are exact. The capacity is a power of two up to 2 ^ 63.
pub table_calls-IsExact :
    (k : ℕ) (cs : List TableCall) → 2 ^ k ≤ 2 ^ 63 → IsExact (table_calls cs (clear (2 ^ k)))
table_calls-IsExact k cs small =
    table_calls_from cs (clear (2 ^ k)) (clear-IsTable k small, clear-IsCounted (2 ^ k))

-- ===== src/Tests/Tables.antt =====
-- The order table at concrete orders.
use quant_feed_handler.Base.{List, [], ◌∷◌, ◌^◌, ◌≡◌, refl, arith}
use quant_feed_handler.Base.Int.{pos}
use quant_feed_handler.Book.Run.{clear-IsTable}
use quant_feed_handler.Table.{
  clear, hash, slot_index, lookup_from, lookup, insert_from, insert, claim, overwrite, tombstone,
  erase, size,
}
use quant_feed_handler.Table.Calls.{
  TableCall, inserts, erases, table_calls, IsExact, table_calls-IsExact,
}
use quant_feed_handler.Table.Count.{count_if}
use quant_feed_handler.Table.Refine.{IsTable, InsertOutcome, insert-InsertOutcome}
use quant_feed_handler.Table.Update.{EraseOutcome, erase-EraseOutcome}

program : Unit {0}
unfolding clear hash slot_index lookup_from lookup insert_from insert claim overwrite tombstone
    erase count_if
program = tt

four : IsTable (clear (2 ^ 2))
four = clear-IsTable 2 (omega arith)

-- A second insertion of an id overwrites the first, and a fifth id finds no slot.
size_test :
    let o = (insert 7 b'B' (pos 100) (pos 10) 5 (clear (2 ^ 2))).1 in
    (size (insert 7 b'S' (pos 101) (pos 1) 6 o).1 ≡ 1)
    × (size (insert 11 b'S' (pos 101) (pos 1) 6 o).1 ≡ 2)
    × (size (erase o 7).1 ≡ 0)
unfolding program
size_test = (refl, refl, refl)

insert-InsertOutcome_example :
    InsertOutcome 7 b'B'
      (pos 100)
      (pos 10)
      5
      (clear (2 ^ 2))
      (insert 7 b'B' (pos 100) (pos 10) 5 (clear (2 ^ 2)))
insert-InsertOutcome_example = insert-InsertOutcome 7 b'B' (pos 100) (pos 10) 5 (clear (2 ^ 2)) four

one_order : IsTable (insert 7 b'B' (pos 100) (pos 10) 5 (clear (2 ^ 2))).1
one_order =
    unfold program in (insert-InsertOutcome 7 b'B' (pos 100) (pos 10) 5 (clear (2 ^ 2)) four).valid

erase-EraseOutcome_example :
    let o = (insert 7 b'B' (pos 100) (pos 10) 5 (clear (2 ^ 2))).1 in EraseOutcome o 7 (erase o 7)
erase-EraseOutcome_example =
    erase-EraseOutcome (insert 7 b'B' (pos 100) (pos 10) 5 (clear (2 ^ 2))).1 7 one_order

-- Two orders, one erased, one of an id that is erased already.
abbrev changes : List TableCall
changes =
    inserts 7 b'B' (pos 100) (pos 10) 5
    ∷ inserts 8 b'S' (pos 103) (pos 4) 6
    ∷ erases 7
    ∷ erases 7
    ∷ []

table_calls-IsExact_example : IsExact (table_calls changes (clear (2 ^ 2)))
table_calls-IsExact_example = table_calls-IsExact 2 changes (omega arith)

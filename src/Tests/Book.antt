-- ===== src/Tests/Book.antt =====
-- The order book and its price levels at concrete messages.
use quant_feed_handler.Base.{
  ◌^◌, ◌+◌, List, [], ◌∷◌, true, false, ◌≡◌, refl, length, take, All, arith,
}
use quant_feed_handler.Base.Int.{pos, ◌+ℤ◌, ◌-ℤ◌, signed32, pattern32, wrap32}
use quant_feed_handler.Book.{
  reset, apply_side, added, process_add, store_record, with_quantity, cancel_record, process_cancel,
  execute_record, process_execute, check_sequence, dispatch, process_message, process_all, has_bids,
  has_asks, best_bid_price, best_ask_price, spread,
}
use quant_feed_handler.Book.Drift.{live_orders}
use quant_feed_handler.Book.Invariant.{IsBook, process_message-IsBook, reset-IsBook}
use quant_feed_handler.Book.Refine.{Models, process_message-Models}
use quant_feed_handler.Book.Run.{steps, no_orders, run_refines, reset-Models}
use quant_feed_handler.Book.Sequence.{next_number, process_all-gaps}
use quant_feed_handler.Book.Spec.{step}
use quant_feed_handler.Book.Top.{
  side, level, has_side, best_price, InFrontOf, IsBest, process_all-sorted, getters-IsBest,
}
use quant_feed_handler.Ladder.{
  PriceLevel, find_level, find_free, swap, bubble, shift_left, remove_level, update_level,
  place_level, insert_level, apply_delta,
}
use quant_feed_handler.Ladder.Refine.{apply_delta-refines}
use quant_feed_handler.Ladder.Spec.{IsLive, pad, apply}
use quant_feed_handler.Protocol.{seq_no, add, cancel, exec, of_add, of_cancel, of_exec}
use quant_feed_handler.Table.{
  clear, hash, slot_index, lookup_from, lookup, insert_from, insert, claim, overwrite, size,
}
use quant_feed_handler.Table.Count.{count_if}
use quant_feed_handler.Table.Refine.{find}
use quant_feed_handler.Tests.Data.{a_bid, a_cancel, adds, session}

run_refines_example : Models 3 (process_all (reset 3 (2 ^ 3)) session) (steps 3 no_orders session)
unfolding session
run_refines_example = run_refines 3 3 session (omega arith) (omega arith) (omega arith)

-- Opens the program.
program : Unit {0}
unfolding count_if find adds session add cancel exec of_add of_cancel of_exec seq_no reset
    apply_side added process_add store_record with_quantity cancel_record process_cancel
    execute_record process_execute check_sequence dispatch process_message process_all has_bids
    has_asks best_bid_price best_ask_price spread clear hash slot_index lookup_from lookup
    insert_from insert claim overwrite find_level find_free swap bubble shift_left remove_level
    update_level place_level insert_level apply_delta signed32 pattern32 wrap32 ◌+ℤ◌ ◌-ℤ◌
program = tt

best_bid_test : best_bid_price (process_all (reset 3 (2 ^ 3)) adds) ≡ pos 100
unfolding program
best_bid_test = refl

-- The cancellation and the execution leave one bid, and one number was missing.
session_test :
    let book = process_all (reset 3 (2 ^ 3)) session in
    (best_bid_price book ≡ pos 99) × (has_asks book ≡ false) × (book.sequence_gaps_detected ≡ 1)
unfolding program
session_test = (refl, refl, refl)

process_all-sorted_example :
    let book = process_all (reset 3 (2 ^ 3)) adds in
    IsLive (level false book 1)
    × All (InFrontOf false (level false book 1).price) (take 1 (side false book))
process_all-sorted_example =
    process_all-sorted false 3 3 1 adds (omega arith) (omega arith) (unfold program in refl)

getters-IsBest_example :
    let book = process_all (reset 3 (2 ^ 3)) adds in
    IsBest true (has_side true book) (best_price true book) (side true book)
getters-IsBest_example = getters-IsBest true 3 3 adds (omega arith) (omega arith)

process_all-gaps_example :
    let book = process_all (reset 3 (2 ^ 3)) session in
    (book.expected_seq_no ≡ next_number (reset 3 (2 ^ 3)).expected_seq_no session)
    × (book.sequence_gaps_detected + length session + (reset 3 (2 ^ 3)).expected_seq_no
        ≡ (reset 3 (2 ^ 3)).sequence_gaps_detected
          + next_number (reset 3 (2 ^ 3)).expected_seq_no session)
process_all-gaps_example =
    process_all-gaps session (reset 3 (2 ^ 3)) (unfold program in omega arith)
      (unfold program in omega arith) (unfold program in ground arith)

process_message-IsBook_example : IsBook 3 (process_message (reset 3 (2 ^ 3)) (of_add a_bid))
process_message-IsBook_example =
    process_message-IsBook 3 (omega arith) (reset 3 (2 ^ 3)) (of_add a_bid)
      (reset-IsBook 3 3 (omega arith))

abbrev two_rungs : List PriceLevel
two_rungs =
    record { price = pos 103; quantity = pos 4; order_count = pos 1; active = true }
    ∷ record { price = pos 105; quantity = pos 9; order_count = pos 2; active = true }
    ∷ []

apply_delta-refines_example :
    apply_delta (pad 3 two_rungs) (pos 104) (pos 5) (pos 1) true
    ≡ pad 3 (take 3 (apply true (pos 104) (pos 5) (pos 1) two_rungs))
apply_delta-refines_example =
    apply_delta-refines true (pos 104) (pos 5) (pos 1) 3 two_rungs (ground arith) (omega arith)
      (omega arith)

drift_test :
    let book = process_message (reset 3 (2 ^ 3)) (of_add a_bid) in
    let o = (process_cancel book a_cancel).order_table in (size o ≡ 1) × (live_orders o ≡ 0)
unfolding program
drift_test = (refl, refl)

process_message-Models_example :
    Models 3 (process_message (reset 3 (2 ^ 3)) (of_add a_bid)) (step 3 no_orders (of_add a_bid))
process_message-Models_example =
    process_message-Models 3 (omega arith) (reset 3 (2 ^ 3)) no_orders (of_add a_bid)
      (reset-Models 3 3 (omega arith)) (unfold program in omega arith)

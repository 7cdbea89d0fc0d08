-- ===== src/Book/Invariant.antt =====
-- What holds of every book that messages can reach, whatever they are: the table is consistent,
-- and both arrays show ladders.
use quant_feed_handler.Base.{
  ℕ, ◌≤◌, ◌<◌, ◌^◌, List, [], ◌∷◌, Option, none, some, Bool, true, false, ◌≡◌, refl, inl, inr,
  get_or, ◌==◌, ltb, ◌&&◌, not, Bool-cases, Option-cases, arith,
}
use quant_feed_handler.Base.Int.{ℤ}
use quant_feed_handler.Book.{
  LimitOrderBook, reset, apply_side, added, process_add, store_record, cancel_record,
  process_cancel, execute_record, process_execute, check_sequence, dispatch, process_message,
  process_all, with_quantity,
}
use quant_feed_handler.Book.Refine.{order_table-apply_side, keys-with_quantity}
use quant_feed_handler.Book.Run.{clear-IsTable, replicate_sub_zero}
use quant_feed_handler.Ladder.Stable.{IsShown, apply_delta-IsShown}
use quant_feed_handler.Protocol.{
  AddOrderMsg, CancelOrderMsg, ExecuteOrderMsg, WireMessage, msg_type, seq_no, add, cancel, exec,
}
use quant_feed_handler.Table.{blank, OrderTable, lookup}
use quant_feed_handler.Table.Refine.{IsTable, InsertOutcome, insert-InsertOutcome}
use quant_feed_handler.Table.Update.{update-Updated}

pub record IsBook (depth : ℕ) (book : LimitOrderBook) : Type 0 where
  pub table : IsTable (book.order_table)
  pub bids : IsShown false depth book.bids
  pub asks : IsShown true depth book.asks

module _ (depth : ℕ) (some_depth : 0 < depth) where
  apply_side-IsBook :
      (book : LimitOrderBook) (side : ℕ) (price qty_delta order_delta : ℤ)
      → IsBook depth book
      → IsBook depth (apply_side book side price qty_delta order_delta)
  unfolding apply_side
  apply_side-IsBook book side price qty_delta order_delta v = elim (Bool-cases (side == b'B')) [
    | inl bid ↦ rw bid (record {
      table = v.table;
      bids =
          apply_delta-IsShown false price qty_delta order_delta depth book.bids some_depth v.bids;
      asks = v.asks;
    })
    | inr ask ↦ rw ask (record {
      table = v.table;
      bids = v.bids;
      asks = apply_delta-IsShown true price qty_delta order_delta depth book.asks some_depth v.asks;
    })
  ]

  -- The common end of a cancellation and an execution.
  settle-IsBook :
      (book : LimitOrderBook) (id i : ℕ) (q qty_delta order_delta : ℤ) (gone : Bool)
      → IsBook depth book
      → lookup (book.order_table) id ≡ some i
      → let r = get_or (book.order_table).table i blank in
        IsBook depth (
          store_record
            (apply_side book r.side r.price qty_delta order_delta)
            i
            (with_quantity r q gone))
  unfolding store_record
  settle-IsBook book id i q qty_delta order_delta gone v e =
      let r = get_or (book.order_table).table i blank in
      let moved = apply_side-IsBook book r.side r.price qty_delta order_delta v in
      let same = order_table-apply_side book r.side r.price qty_delta order_delta in
      let keys = keys-with_quantity r q gone in
      record {
        table =
            (update-Updated _ id i (with_quantity r q gone) moved.table (rw same e) (rw same keys.0)
              (rw same keys.1) _ refl).valid;
        bids = moved.bids;
        asks = moved.asks;
      }

  process_cancel-IsBook :
      (book : LimitOrderBook) (m : CancelOrderMsg)
      → IsBook depth book
      → IsBook depth (process_cancel book m)
  unfolding process_cancel cancel_record
  process_cancel-IsBook book m v = elim (Option-cases (lookup (book.order_table) m.order_id)) [
    | inl absent ↦ rw (absent, process_cancel) v
    | inr (i, e) ↦
        let r = get_or (book.order_table).table i blank in
        rw (e, process_cancel)
          (elim (Bool-cases r.cancelled) [
            | inl gone ↦ rw gone v
            | inr live ↦ rw live (settle-IsBook book m.order_id i m.quantity _ _ _ v e)
          ])
  ]

  process_execute-IsBook :
      (book : LimitOrderBook) (m : ExecuteOrderMsg)
      → IsBook depth book
      → IsBook depth (process_execute book m)
  unfolding process_execute execute_record
  process_execute-IsBook book m v =
      let v' : IsBook depth (record book { trades_executed_count = _ }) = record {
        table = v.table;
        bids = v.bids;
        asks = v.asks;
      } in
      elim (Option-cases (lookup (book.order_table) m.order_id)) [
        | inl absent ↦ rw (absent, process_execute) v'
        | inr (i, e) ↦
            let r = get_or (book.order_table).table i blank in
            rw (e, process_execute)
              (elim (Bool-cases r.cancelled) [
                | inl gone ↦ rw gone v'
                | inr live ↦ rw live (settle-IsBook _ m.order_id i _ _ _ _ v' e)
              ])
      ]

  added-IsBook :
      (book : LimitOrderBook) (m : AddOrderMsg) (p : Option ℕ × OrderTable)
      → InsertOutcome m.order_id m.side m.price m.quantity m.timestamp_ns (book.order_table) p
      → IsBook depth book
      → IsBook depth (added book m p)
  unfolding added
  added-IsBook book m (none, o') (same, taken) v = record {
    table = rw same v.table;
    bids = v.bids;
    asks = v.asks;
  }
  added-IsBook book m (some i, o') ins v =
      apply_side-IsBook (record book { order_table = o' }) m.side m.price m.quantity _
        (record { table = ins.valid; bids = v.bids; asks = v.asks })

  check_sequence-IsBook :
      (book : LimitOrderBook) (seq : ℕ) → IsBook depth book → IsBook depth (check_sequence book seq)
  unfolding check_sequence
  check_sequence-IsBook book seq v =
      elim (Bool-cases (ltb 0 book.expected_seq_no && not (seq == book.expected_seq_no))) [
        | inl b ↦ rw b (record { table = v.table; bids = v.bids; asks = v.asks })
        | inr b ↦ rw b (record { table = v.table; bids = v.bids; asks = v.asks })
      ]

  dispatch-IsBook :
      (book : LimitOrderBook) (m : WireMessage) → IsBook depth book → IsBook depth (dispatch book m)
  unfolding dispatch process_add
  dispatch-IsBook book m v = elim (Bool-cases (msg_type m == b'A')) [
    | inl a ↦ rw a (
        added-IsBook book (add m) _
          (insert-InsertOutcome (add m).order_id (add m).side (add m).price (add m).quantity
            (add m).timestamp_ns (book.order_table) v.table)
          v)
    | inr a ↦ rw a (elim (Bool-cases (msg_type m == b'X')) [
      | inl x ↦ rw x (process_cancel-IsBook book (cancel m) v)
      | inr x ↦ rw x (elim (Bool-cases (msg_type m == b'E')) [
        | inl e ↦ rw e (process_execute-IsBook book (exec m) v)
        | inr e ↦ rw e v
      ])
    ])
  ]

  -- Every message keeps the order table consistent and each array a sorted ladder of live levels
  -- with empty slots behind it, the malformed messages and those that find the table full
  -- included. The book has at least one level.
  pub process_message-IsBook :
      (book : LimitOrderBook) (m : WireMessage)
      → IsBook depth book
      → IsBook depth (process_message book m)
  unfolding process_message
  process_message-IsBook book m v =
      dispatch-IsBook (check_sequence book (seq_no m)) m (check_sequence-IsBook book (seq_no m) v)

  pub process_all-IsBook :
      (ms : List WireMessage) (book : LimitOrderBook)
      → IsBook depth book
      → IsBook depth (process_all book ms)
  unfolding process_all
  process_all-IsBook [] book v = v
  process_all-IsBook (m ∷ ms) book v =
      process_all-IsBook ms (process_message book m) (process_message-IsBook book m v)

pub reset-IsBook : (depth k : ℕ) → 2 ^ k ≤ 2 ^ 63 → IsBook depth (reset depth (2 ^ k))
unfolding reset
reset-IsBook depth k small = record {
  table = clear-IsTable k small;
  bids = record { rungs = []; ladder = tt; fits = omega arith; shown = replicate_sub_zero depth };
  asks = record { rungs = []; ladder = tt; fits = omega arith; shown = replicate_sub_zero depth };
}

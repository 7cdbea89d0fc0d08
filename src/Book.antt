-- ===== src/Book.antt =====
-- `LimitOrderBook` of include/feed_handler/order_book.hpp: the message handlers, the sequence
-- check and the getters on the top of the book. A number of type `uint64_t` wraps at 2 ^ 64, one of
-- type `int32_t` at 2 ^ 32.
pub mod Spec
pub mod Refine
pub mod Run
pub mod Invariant
pub mod Sequence
pub mod Top
pub mod Drift
pub mod Gapless
use quant_feed_handler.Base.{
  ℕ, ◌+◌, ◌-◌, ◌%◌, ◌^◌, List, [], ◌∷◌, Option, none, some, Bool, true, false, ◌&&◌, not, get_or,
  set, replicate, ltb, ◌==◌, if◌then◌else◌,
}
use quant_feed_handler.Base.Int.{ℤ, pos, negsuc, ◌-ℤ◌, wrap32, ltb_ℤ, leb_ℤ, eqb_ℤ}
use quant_feed_handler.Ladder.{PriceLevel, empty_level, apply_delta}
use quant_feed_handler.Protocol.{
  AddOrderMsg, CancelOrderMsg, ExecuteOrderMsg, WireMessage, msg_type, seq_no, add, cancel, exec,
}
use quant_feed_handler.Table.{OrderRecord, blank, OrderTable, add64, clear, insert, lookup}

pub record LimitOrderBook : Type 0 where
  pub order_table : OrderTable
  pub bids : List PriceLevel
  pub asks : List PriceLevel
  pub total_messages_processed : ℕ
  pub expected_seq_no : ℕ
  pub sequence_gaps_detected : ℕ
  pub trades_executed_count : ℕ

unfoldable pub reset : ℕ → ℕ → LimitOrderBook
unfolding clear
reset depth capacity = record {
  order_table = clear capacity;
  bids = replicate depth empty_level;
  asks = replicate depth empty_level;
  total_messages_processed = 0;
  expected_seq_no = 1;
  sequence_gaps_detected = 0;
  trades_executed_count = 0;
}

-- The two-way choice that each handler makes: bids descend, asks ascend.
unfoldable pub apply_side : LimitOrderBook → ℕ → ℤ → ℤ → ℤ → LimitOrderBook
apply_side book side price qty_delta order_delta =
    if side == b'B'
    then record book { bids = apply_delta book.bids price qty_delta order_delta false }
    else record book { asks = apply_delta book.asks price qty_delta order_delta true }

-- The rest of `processAdd`, from what `insert` left: `return` at a null record.
unfoldable pub added : LimitOrderBook → AddOrderMsg → Option ℕ × OrderTable → LimitOrderBook
added book m (none, orders) = record book { order_table = orders }
added book m (some i, orders) =
    apply_side (record book { order_table = orders }) m.side m.price m.quantity (pos 1)

unfoldable pub process_add : LimitOrderBook → AddOrderMsg → LimitOrderBook
process_add book m =
    added book m (insert m.order_id m.side m.price m.quantity m.timestamp_ns book.order_table)

-- A write through `rec`.
unfoldable pub store_record : LimitOrderBook → ℕ → OrderRecord → LimitOrderBook
store_record book i r = record book {
  order_table = record (book.order_table) { table = set (book.order_table).table i r };
}

-- `rec->quantity = ...; if (...) rec->cancelled = true;`
unfoldable pub with_quantity : OrderRecord → ℤ → Bool → OrderRecord
with_quantity r q gone =
    if gone then record r { quantity = q; cancelled = true } else record r { quantity = q }

unfoldable pub cancel_record : LimitOrderBook → ℕ → OrderRecord → CancelOrderMsg → LimitOrderBook
cancel_record book i r m =
    let gone = leb_ℤ m.quantity (pos 0) in
    let qty_delta = wrap32 (m.quantity -ℤ r.quantity) in
    let order_delta = if gone then negsuc 0 else pos 0 in
    store_record (apply_side book r.side r.price qty_delta order_delta) i
      (with_quantity r m.quantity gone)

unfoldable pub process_cancel : LimitOrderBook → CancelOrderMsg → LimitOrderBook
process_cancel book m = elim (lookup book.order_table m.order_id) [
  | none ↦ book
  | some i ↦
      let r = get_or (book.order_table).table i blank in
      if r.cancelled then book else cancel_record book i r m
]

-- `(rec->quantity > msg.execQuantity) ? (rec->quantity - msg.execQuantity) : 0`
abbrev pub remaining : ℤ → ℤ → ℤ
remaining quantity executed =
    if ltb_ℤ executed quantity then wrap32 (quantity -ℤ executed) else pos 0

unfoldable pub execute_record : LimitOrderBook → ℕ → OrderRecord → ExecuteOrderMsg → LimitOrderBook
execute_record book i r m =
    let new_qty = remaining r.quantity m.exec_quantity in
    let gone = eqb_ℤ new_qty (pos 0) in
    let qty_delta = wrap32 (pos 0 -ℤ m.exec_quantity) in
    let order_delta = if gone then negsuc 0 else pos 0 in
    store_record (apply_side book r.side r.price qty_delta order_delta) i
      (with_quantity r new_qty gone)

unfoldable pub process_execute : LimitOrderBook → ExecuteOrderMsg → LimitOrderBook
process_execute book m =
    let book' : LimitOrderBook = record book {
      trades_executed_count = add64 book.trades_executed_count 1;
    } in
    elim (lookup book.order_table m.order_id) [
      | none ↦ book'
      | some i ↦
          let r = get_or (book.order_table).table i blank in
          if r.cancelled then book' else execute_record book' i r m
    ]

-- The head of `processMessage`: the message count and the sequence check.
unfoldable pub check_sequence : LimitOrderBook → ℕ → LimitOrderBook
check_sequence book seq =
    let expected = book.expected_seq_no in
    let counted = add64 book.total_messages_processed 1 in
    if ltb 0 expected && not (seq == expected)
    then record book {
      total_messages_processed = counted;
      sequence_gaps_detected =
          if ltb expected seq
          then add64 book.sequence_gaps_detected (seq - expected)
          else book.sequence_gaps_detected;
      expected_seq_no = add64 seq 1;
    }
    else record book { total_messages_processed = counted; expected_seq_no = add64 expected 1 }

-- The `switch` of `processMessage`.
unfoldable pub dispatch : LimitOrderBook → WireMessage → LimitOrderBook
dispatch book m =
    if msg_type m == b'A'
    then process_add book (add m)
    else if msg_type m == b'X'
    then process_cancel book (cancel m)
    else if msg_type m == b'E'
    then process_execute book (exec m)
    else book

unfoldable pub process_message : LimitOrderBook → WireMessage → LimitOrderBook
process_message book m = dispatch (check_sequence book (seq_no m)) m

unfoldable pub process_all : LimitOrderBook → List WireMessage → LimitOrderBook
process_all book [] = book
process_all book (m ∷ ms) = process_all (process_message book m) ms

abbrev pub top : List PriceLevel → PriceLevel
top levels = get_or levels 0 empty_level

unfoldable pub has_bids : LimitOrderBook → Bool
has_bids book = (top book.bids).active

unfoldable pub has_asks : LimitOrderBook → Bool
has_asks book = (top book.asks).active

unfoldable pub best_bid_price : LimitOrderBook → ℤ
best_bid_price book = if (top book.bids).active then (top book.bids).price else pos 0

unfoldable pub best_ask_price : LimitOrderBook → ℤ
best_ask_price book = if (top book.asks).active then (top book.asks).price else pos 0

unfoldable pub best_bid_quantity : LimitOrderBook → ℤ
best_bid_quantity book = if (top book.bids).active then (top book.bids).quantity else pos 0

unfoldable pub best_ask_quantity : LimitOrderBook → ℤ
best_ask_quantity book = if (top book.asks).active then (top book.asks).quantity else pos 0

unfoldable pub spread : LimitOrderBook → ℤ
unfolding has_bids has_asks
spread book =
    if has_bids book && has_asks book
    then wrap32 ((top book.asks).price -ℤ (top book.bids).price)
    else pos 0

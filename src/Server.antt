-- ===== src/Server.antt =====
-- The message generator of `producerThreadFunc` in src/stream_server.cpp: the orders that one burst
-- adds, cancels and fills. What the random distributions and the clock give in a round is a
-- parameter.
pub mod Generate
pub mod Tape
pub mod Window
pub mod Commands
pub mod Histogram
use quant_feed_handler.Base.{
  ℕ, ◌+◌, ◌-◌, ◌/◌, ◌%◌, ◌^◌, List, [], ◌∷◌, ◌++◌, Bool, true, false, ◌||◌, length, get_or, set,
  take, ltb, ◌==◌, if◌then◌else◌,
}
use quant_feed_handler.Base.Int.{ℤ, pos}
use quant_feed_handler.Feed.{is_empty, drop_order, stream}
use quant_feed_handler.Protocol.{
  AddOrderMsg, CancelOrderMsg, ExecuteOrderMsg, WireMessage, of_add, of_cancel, of_exec,
}
use quant_feed_handler.Table.{add64}

-- The draws of one round.
pub record Draws : Type 0 where
  pub now_ns : ℕ
  pub action : ℕ
  pub side : ℕ
  pub bid_spread : ℕ
  pub ask_spread : ℕ
  pub qty : ℕ
  pub index : ℕ

-- The next sequence number and the orders that may still be cancelled or filled.
pub record Burst : Type 0 where
  pub user_seq_no : ℕ
  pub active_orders : List ℕ

abbrev pub base_price : ℕ
base_price = 10000

unfoldable pub generated_add : Draws → Burst → AddOrderMsg
generated_add d b =
    let side = if d.side == 0 then b'B' else b'S' in
    record {
      msg_type = b'A';
      seq_no = b.user_seq_no;
      timestamp_ns = d.now_ns;
      order_id = b.user_seq_no;
      side = side;
      price = pos (if side == b'B' then d.bid_spread else d.ask_spread);
      quantity = pos d.qty;
    }

abbrev pub cancel_quantity : Draws → ℕ
cancel_quantity d = if d.action % 2 == 0 then 0 else d.qty / 2

unfoldable pub generated_cancel : Draws → Burst → CancelOrderMsg
generated_cancel d b = record {
  msg_type = b'X';
  seq_no = b.user_seq_no;
  timestamp_ns = d.now_ns;
  order_id = get_or b.active_orders d.index 0;
  quantity = pos (cancel_quantity d);
}

unfoldable pub generated_exec : Draws → Burst → ExecuteOrderMsg
generated_exec d b = record {
  msg_type = b'E';
  seq_no = b.user_seq_no;
  timestamp_ns = d.now_ns;
  order_id = get_or b.active_orders d.index 0;
  exec_quantity = pos (d.qty / 3);
  match_price = pos base_price;
}

-- One round of the loop: the message that is pushed, and what is left.
unfoldable pub generate : Draws → Burst → WireMessage × Burst
generate d b =
    let next = add64 b.user_seq_no 1 in
    if ltb d.action 65 || is_empty b.active_orders
    then (
      of_add (generated_add d b),
      record b { user_seq_no = next; active_orders = b.active_orders ++ b.user_seq_no ∷ [] },
    )
    else if ltb d.action 90
    then (
      of_cancel (generated_cancel d b),
      record b {
        user_seq_no = next;
        active_orders =
            if cancel_quantity d == 0 then drop_order b.active_orders d.index else b.active_orders;
      },
    )
    else (of_exec (generated_exec d b), record b { user_seq_no = next })

unfoldable pub generate_all : List Draws → Burst → List WireMessage
generate_all = stream generate

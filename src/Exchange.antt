-- ===== src/Exchange.antt =====
-- The publisher src/mock_exchange.cpp: the messages that its loop sends. What the random
-- distributions and the clock give in a round is a parameter.
pub mod Publish
use quant_feed_handler.Base.{
  ℕ, ◌+◌, ◌/◌, ◌%◌, ◌^◌, List, [], ◌∷◌, ◌++◌, ◌||◌, get_or, ltb, ◌==◌, if◌then◌else◌,
}
use quant_feed_handler.Base.Int.{ℤ, pos}
use quant_feed_handler.Feed.{is_empty, drop_order, stream}
use quant_feed_handler.Feed.Mock.{MockDraws}
use quant_feed_handler.Protocol.{
  AddOrderMsg, CancelOrderMsg, ExecuteOrderMsg, WireMessage, of_add, of_cancel, of_exec,
}
use quant_feed_handler.Table.{add64}

-- The locals that the loop keeps.
pub record Publisher : Type 0 where
  pub next_order_id : ℕ
  pub seq_no : ℕ
  pub active_orders : List ℕ

abbrev pub publisher_start : Publisher
publisher_start = record { next_order_id = 1; seq_no = 1; active_orders = [] }

unfoldable pub published_add : MockDraws → Publisher → AddOrderMsg
published_add d s =
    let side = if d.side == 0 then b'B' else b'S' in
    record {
      msg_type = b'A';
      seq_no = s.seq_no;
      timestamp_ns = d.now_ns;
      order_id = s.next_order_id;
      side = side;
      price = pos (if side == b'B' then d.bid_price else d.ask_price);
      quantity = pos d.qty;
    }

abbrev pub published_quantity : MockDraws → ℕ
published_quantity d = if d.action % 3 == 0 then 0 else d.qty / 2

unfoldable pub published_cancel : MockDraws → Publisher → CancelOrderMsg
published_cancel d s = record {
  msg_type = b'X';
  seq_no = s.seq_no;
  timestamp_ns = d.now_ns;
  order_id = get_or s.active_orders d.index 0;
  quantity = pos (published_quantity d);
}

unfoldable pub published_exec : MockDraws → Publisher → ExecuteOrderMsg
published_exec d s = record {
  msg_type = b'E';
  seq_no = s.seq_no;
  timestamp_ns = d.now_ns;
  order_id = get_or s.active_orders d.index 0;
  exec_quantity = pos (d.qty / 4);
  match_price = pos 10000;
}

-- One round of the loop: the message that is sent, and the locals after it.
unfoldable pub publish : MockDraws → Publisher → WireMessage × Publisher
publish d s =
    let s' : Publisher = record s { seq_no = add64 s.seq_no 1 } in
    if ltb d.action 60 || is_empty s.active_orders
    then (
      of_add (published_add d s),
      record s' {
        next_order_id = add64 s.next_order_id 1;
        active_orders = s.active_orders ++ s.next_order_id ∷ [];
      },
    )
    else if ltb d.action 85
    then (
      of_cancel (published_cancel d s),
      record s' {
        active_orders =
            if published_quantity d == 0
            then drop_order s.active_orders d.index
            else s.active_orders;
      },
    )
    else (of_exec (published_exec d s), s')

-- Every datagram is a whole `WireMessage`.
unfoldable pub publish_all : List MockDraws → List WireMessage
publish_all ds = stream publish ds publisher_start

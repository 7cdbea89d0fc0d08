-- ===== src/Bench.antt =====
-- The benchmark program src/main.cpp: the feed that `generateMockFeed` makes up, and the runs of
-- it. What the random distributions give in a round is a parameter.
pub mod Mock
pub mod Channel
pub mod Pipeline
pub mod Direct
pub mod Arguments
pub mod Console
pub mod UserFile
pub mod Live
use quant_feed_handler.Base.{
  ℕ, ◌+◌, ◌*◌, ◌/◌, ◌%◌, ◌^◌, List, [], ◌∷◌, ◌++◌, not, ◌&&◌, get_or, ltb, leb, ◌==◌, if◌then◌else◌,
}
use quant_feed_handler.Base.Int.{ℤ, pos}
use quant_feed_handler.Feed.{is_empty, drop_order, stream}
use quant_feed_handler.Feed.Mock.{MockDraws}
use quant_feed_handler.Protocol.{
  AddOrderMsg, CancelOrderMsg, ExecuteOrderMsg, WireMessage, of_add, of_cancel, of_exec,
}
use quant_feed_handler.Table.{add64}

-- The locals of the loop.
pub record MockFeed : Type 0 where
  pub i : ℕ
  pub next_order_id : ℕ
  pub seq_no : ℕ
  pub live_order_ids : List ℕ

abbrev pub feed_start : MockFeed
feed_start = record { i = 0; next_order_id = 1; seq_no = 1; live_order_ids = [] }

abbrev pub target_id : MockDraws → MockFeed → ℕ
target_id d s = get_or s.live_order_ids d.index 0

abbrev pub mock_quantity : MockDraws → ℕ
mock_quantity d = if d.action % 2 == 0 then 0 else d.qty / 2

unfoldable pub mock_cancel : MockDraws → MockFeed → CancelOrderMsg
mock_cancel d s = record {
  msg_type = b'X';
  seq_no = s.seq_no;
  timestamp_ns = s.i * 100 % 2 ^ 64;
  order_id = target_id d s;
  quantity = pos (mock_quantity d);
}

unfoldable pub mock_exec : MockDraws → MockFeed → ExecuteOrderMsg
mock_exec d s = record {
  msg_type = b'E';
  seq_no = s.seq_no;
  timestamp_ns = s.i * 100 % 2 ^ 64;
  order_id = target_id d s;
  exec_quantity = pos (d.qty / 3);
  match_price = pos 10000;
}

unfoldable pub mock_add : MockDraws → MockFeed → AddOrderMsg
mock_add d s =
    let side = if d.side == 0 then b'B' else b'S' in
    record {
      msg_type = b'A';
      seq_no = s.seq_no;
      timestamp_ns = s.i * 100 % 2 ^ 64;
      order_id = s.next_order_id;
      side = side;
      price = pos (if side == b'B' then d.bid_price else d.ask_price);
      quantity = pos d.qty;
    }

-- One round of the loop: `g_benchFeed[i]` and the locals after it.
unfoldable pub mock_round : MockDraws → MockFeed → WireMessage × MockFeed
mock_round d s =
    let s' : MockFeed = record s { i = add64 s.i 1; seq_no = add64 s.seq_no 1 } in
    if leb 65 d.action && ltb d.action 90 && not (is_empty s.live_order_ids)
    then (
      of_cancel (mock_cancel d s),
      record s' {
        live_order_ids =
            if mock_quantity d == 0 then drop_order s.live_order_ids d.index else s.live_order_ids;
      },
    )
    else if leb 90 d.action && not (is_empty s.live_order_ids)
    then (of_exec (mock_exec d s), s')
    else (
      of_add (mock_add d s),
      record s' {
        next_order_id = add64 s.next_order_id 1;
        live_order_ids = s.live_order_ids ++ s.next_order_id ∷ [];
      },
    )

-- As many rounds as there are draws.
unfoldable pub generate_mock_feed : List MockDraws → List WireMessage
generate_mock_feed ds = stream mock_round ds feed_start

-- ===== src/Feed/Mock.antt =====
-- The draws that the generators of src/main.cpp and src/mock_exchange.cpp make in a round: their
-- distributions have the same ranges.
use quant_feed_handler.Base.{ℕ, ◌≤◌, ◌<◌, ◌^◌}

pub record MockDraws : Type 0 where
  pub now_ns : ℕ
  pub action : ℕ
  pub side : ℕ
  pub bid_price : ℕ
  pub ask_price : ℕ
  pub qty : ℕ
  pub index : ℕ

pub record IsMock (d : MockDraws) : Type 0 where
  pub time_fits : d.now_ns < 2 ^ 64
  pub low_bid : 9950 ≤ d.bid_price
  pub high_bid : d.bid_price ≤ 9999
  pub low_ask : 10000 ≤ d.ask_price
  pub high_ask : d.ask_price ≤ 10049
  pub low_qty : 10 ≤ d.qty
  pub high_qty : d.qty ≤ 500

-- ===== src/Book/Drift.antt =====
-- What cancellations do to `size()` of the order table, against the live orders that it holds.
use quant_feed_handler.Base.{ℕ, ◌&&◌, not, Option, none, some}
use quant_feed_handler.Base.Int.{ℤ, pos, leb_ℤ}
use quant_feed_handler.Table.{OrderRecord, OrderTable}
use quant_feed_handler.Table.Count.{count_if, is_live, to_nat}

abbrev pub live_orders : OrderTable → ℕ
live_orders o = count_if is_live o.table

-- How many live orders end when the order that is found gets this quantity.
abbrev pub ended : Option OrderRecord → ℤ → ℕ
ended none quantity = 0
ended (some r) quantity = to_nat (not r.cancelled && leb_ℤ quantity (pos 0))

-- ===== src/Book/Spec.antt =====
-- The abstract book: a map of orders and two ladders of bounded depth, with no slots, no probing
-- and no arrays.
use quant_feed_handler.Base.{ℕ, Option, none, some, true, false, List, take, ◌==◌, if◌then◌else◌}
use quant_feed_handler.Base.Int.{ℤ, pos, negsuc, ◌-ℤ◌, wrap32, leb_ℤ, eqb_ℤ}
use quant_feed_handler.Book.{remaining, with_quantity}
use quant_feed_handler.Ladder.Spec.{apply}
use quant_feed_handler.Ladder.{PriceLevel}
use quant_feed_handler.Protocol.{
  AddOrderMsg, CancelOrderMsg, ExecuteOrderMsg, WireMessage, msg_type, add, cancel, exec,
}
use quant_feed_handler.Table.{OrderRecord, filled}

pub record OrderMap : Type 0 where
  pub orders : ℕ → Option OrderRecord
  pub bids : List PriceLevel
  pub asks : List PriceLevel

abbrev pub put : ℕ → OrderRecord → OrderMap → OrderMap
put id r s = record s { orders = λ q. if q == id then some r else s.orders q }

module _ (depth : ℕ) where
  unfoldable pub shift : OrderMap → ℕ → ℤ → ℤ → ℤ → OrderMap
  shift s side price qty_delta order_delta =
      if side == b'B'
      then record s { bids = take depth (apply false price qty_delta order_delta s.bids) }
      else record s { asks = take depth (apply true price qty_delta order_delta s.asks) }

  -- A new order rests at its price.
  unfoldable pub add_order : OrderMap → AddOrderMsg → OrderMap
  add_order s m =
      shift (put m.order_id (filled m.order_id m.side m.price m.quantity m.timestamp_ns) s) m.side
        m.price m.quantity (pos 1)

  -- The level of a live order moves by the change of its quantity.
  unfoldable pub cancel_order : OrderMap → CancelOrderMsg → OrderMap
  cancel_order s m = elim (s.orders m.order_id) [
    | none ↦ s
    | some r ↦
        let gone = leb_ℤ m.quantity (pos 0) in
        if r.cancelled
        then s
        else put m.order_id (with_quantity r m.quantity gone) (
            shift s r.side r.price (wrap32 (m.quantity -ℤ r.quantity))
              (if gone then negsuc 0 else pos 0))
  ]

  -- The level of a live order loses the executed quantity.
  unfoldable pub execute_order : OrderMap → ExecuteOrderMsg → OrderMap
  execute_order s m = elim (s.orders m.order_id) [
    | none ↦ s
    | some r ↦
        let left = remaining r.quantity m.exec_quantity in
        let gone = eqb_ℤ left (pos 0) in
        if r.cancelled
        then s
        else put m.order_id (with_quantity r left gone) (
            shift s r.side r.price (wrap32 (pos 0 -ℤ m.exec_quantity))
              (if gone then negsuc 0 else pos 0))
  ]

  unfoldable pub step : OrderMap → WireMessage → OrderMap
  step s m =
      if msg_type m == b'A'
      then add_order s (add m)
      else if msg_type m == b'X'
      then cancel_order s (cancel m)
      else if msg_type m == b'E'
      then execute_order s (exec m)
      else s

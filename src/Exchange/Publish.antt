-- ===== src/Exchange/Publish.antt =====
-- What the publisher sends.
use quant_feed_handler.Base.{
  suc, ◌+◌, ◌/◌, ◌%◌, ◌≤◌, ◌^◌, ◌<◌, List, ◌≡◌, inl, inr, map, length, All, get_or, ltb, ◌==◌, ◌||◌,
  Bool-cases, arith,
}
use quant_feed_handler.Arbitrator.Order.{count_up}
use quant_feed_handler.Exchange.{
  Publisher, publisher_start, published_add, published_quantity, published_cancel, published_exec,
  publish, publish_all,
}
use quant_feed_handler.Feed.{is_empty}
use quant_feed_handler.Feed.Fields.{add_fields-Good, cancel_fields-Good, exec_fields-Good}
use quant_feed_handler.Feed.Live.{
  AllBelow, get_or-AllBelow, AllBelow-mono, AllBelow-snoc, drop_order-AllBelow,
}
use quant_feed_handler.Feed.Mock.{MockDraws, IsMock}
use quant_feed_handler.Feed.Stream.{Generator, AllValid, stream-AllValid}
use quant_feed_handler.Protocol.{seq_no}
use quant_feed_handler.Validator.Written.{Good}

-- The orders that may still be cancelled have numbers that were given out, and no more orders than
-- messages were sent.
abbrev IsReady : Publisher → Type 0
IsReady s =
    (0 < s.next_order_id) × (s.next_order_id ≤ s.seq_no) × AllBelow s.next_order_id s.active_orders

module _ (d : MockDraws) (s : Publisher) where
  publish-Good : IsMock d → IsReady s → suc s.seq_no < 2 ^ 64 → Good s.seq_no (publish d s).0
  unfolding publish published_add published_cancel published_exec
  publish-Good r ready small =
      let lb = r.low_bid in
      let hb = r.high_bid in
      let la = r.low_ask in
      let ha = r.high_ask in
      let lq = r.low_qty in
      let hq = r.high_qty in
      let time = r.time_fits in
      let below = ready.1 in
      let id = get_or s.active_orders d.index 0 in
      let target = get_or-AllBelow s.next_order_id s.active_orders d.index ready.0 ready.2 in
      elim (Bool-cases (ltb d.action 60 || is_empty s.active_orders)) [
        | inl adding ↦ rw adding (
            add_fields-Good s.seq_no d.now_ns s.next_order_id (omega arith) time
              (omega (arith, below)) _ _ d.qty (ground arith) (ground arith) (ground arith)
              (ground arith) (omega arith) (omega arith))
        | inr no_add ↦ rw no_add (elim (Bool-cases (ltb d.action 85)) [
          | inl cancelling ↦ rw cancelling (
              cancel_fields-Good s.seq_no d.now_ns id (omega arith) time
                (omega (arith, target, below)) (published_quantity d) (ground arith))
          | inr filling ↦ rw filling (
              exec_fields-Good s.seq_no d.now_ns id (omega arith) time
                (omega (arith, target, below)) (d.qty / 4) 10000 (omega arith) (omega arith)
                (omega arith) (omega arith))
        ])
      ]

  publish-seq_no : suc s.seq_no < 2 ^ 64 → (publish d s).1.seq_no ≡ suc s.seq_no
  unfolding publish
  publish-seq_no small = ground arith

  publish-IsReady : IsReady s → suc s.seq_no < 2 ^ 64 → IsReady (publish d s).1
  unfolding publish
  publish-IsReady ready small =
      let n = s.next_order_id in
      let active = s.active_orders in
      let some_n = ready.0 in
      let below = ready.1 in
      elim (Bool-cases (ltb d.action 60 || is_empty active)) [
        | inl adding ↦ rw adding (
            let next : (n + 1) % 2 ^ 64 ≡ suc n = omega arith in
            (
              omega (arith, next),
              omega (arith, next),
              rw next (
                  AllBelow-snoc (suc n) n active (omega arith)
                    (AllBelow-mono n (suc n) active (omega arith) ready.2)),
            ))
        | inr no_add ↦ rw no_add (elim (Bool-cases (ltb d.action 85)) [
          | inl cancelling ↦ rw cancelling (
            some_n,
            omega arith,
            elim (Bool-cases (published_quantity d == 0)) [
              | inl all ↦ rw all (drop_order-AllBelow n active d.index some_n ready.2)
              | inr part ↦ rw part ready.2
            ],
          )
          | inr filling ↦ rw filling (some_n, omega arith, ready.2)
        ])
      ]

publisher : Generator publish
publisher = record {
  number = λ s. s.seq_no;
  IsDraw = IsMock;
  IsReady = IsReady;
  good = publish-Good;
  next = publish-seq_no;
  ready = publish-IsReady;
}

-- Every message that the publisher sends is valid, and their sequence numbers are 1, 2, 3 and so
-- on. The draws are within the ranges of their distributions, and there are fewer than 2 ^ 64 - 2
-- rounds.
pub publish_all-AllValid :
    (ds : List MockDraws)
    → All IsMock ds
    → 2 + length ds < 2 ^ 64
    → AllValid (publish_all ds) × (map seq_no (publish_all ds) ≡ count_up 1 (length ds))
unfolding publish_all publisher
publish_all-AllValid ds all small =
    stream-AllValid publisher ds publisher_start all (omega arith, omega arith, tt) small

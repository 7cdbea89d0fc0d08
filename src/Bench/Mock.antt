-- ===== src/Bench/Mock.antt =====
-- What `generateMockFeed` makes up.
use quant_feed_handler.Base.{
  suc, ◌+◌, ◌/◌, ◌%◌, Bool, ◌≤◌, ◌^◌, ◌<◌, List, ◌≡◌, inl, inr, map, length, All, ltb, leb, ◌==◌,
  ◌&&◌, not, Bool-cases, arith,
}
use quant_feed_handler.Arbitrator.Order.{count_up}
use quant_feed_handler.Bench.{
  MockFeed, feed_start, target_id, mock_quantity, mock_cancel, mock_exec, mock_add, mock_round,
  generate_mock_feed,
}
use quant_feed_handler.Feed.{is_empty}
use quant_feed_handler.Feed.Fields.{add_fields-Good, cancel_fields-Good, exec_fields-Good}
use quant_feed_handler.Feed.Live.{
  AllBelow, get_or-AllBelow, AllBelow-mono, AllBelow-snoc, drop_order-AllBelow,
}
use quant_feed_handler.Feed.Mock.{MockDraws, IsMock}
use quant_feed_handler.Feed.Stream.{Generator, AllValid, stream-AllValid}
use quant_feed_handler.Protocol.{seq_no}
use quant_feed_handler.Validator.Written.{Good}

-- The orders that may still be cancelled have numbers that were given out, and no more orders than
-- messages were sent.
abbrev IsReady : MockFeed → Type 0
IsReady s =
    (0 < s.next_order_id) × (s.next_order_id ≤ s.seq_no) × AllBelow s.next_order_id s.live_order_ids

-- The conditions of the two branches that need a live order.
abbrev cancels : MockDraws → MockFeed → Bool
cancels d s = leb 65 d.action && ltb d.action 90 && not (is_empty s.live_order_ids)

abbrev fills : MockDraws → MockFeed → Bool
fills d s = leb 90 d.action && not (is_empty s.live_order_ids)

module _ (d : MockDraws) (s : MockFeed) where
  mock_round-Good : IsMock d → IsReady s → suc s.seq_no < 2 ^ 64 → Good s.seq_no (mock_round d s).0
  unfolding mock_round mock_add mock_cancel mock_exec
  mock_round-Good r ready small =
      let lb = r.low_bid in
      let hb = r.high_bid in
      let la = r.low_ask in
      let ha = r.high_ask in
      let lq = r.low_qty in
      let hq = r.high_qty in
      let below = ready.1 in
      let target = get_or-AllBelow s.next_order_id s.live_order_ids d.index ready.0 ready.2 in
      elim (Bool-cases (cancels d s)) [
        | inl cancelling ↦ rw cancelling (
            cancel_fields-Good s.seq_no _ (target_id d s) (omega arith) (omega arith)
              (omega (arith, target, below)) (mock_quantity d) (ground arith))
        | inr no_cancel ↦ rw no_cancel (elim (Bool-cases (fills d s)) [
          | inl filling ↦ rw filling (
              exec_fields-Good s.seq_no _ (target_id d s) (omega arith) (omega arith)
                (omega (arith, target, below)) (d.qty / 3) 10000 (omega arith) (omega arith)
                (omega arith) (omega arith))
          | inr adding ↦ rw adding (
              add_fields-Good s.seq_no _ s.next_order_id (omega arith) (omega arith)
                (omega (arith, below)) _ _ d.qty (ground arith) (ground arith) (ground arith)
                (ground arith) (omega arith) (omega arith))
        ])
      ]

  mock_round-seq_no : suc s.seq_no < 2 ^ 64 → (mock_round d s).1.seq_no ≡ suc s.seq_no
  unfolding mock_round
  mock_round-seq_no small = ground arith

  mock_round-IsReady : IsReady s → suc s.seq_no < 2 ^ 64 → IsReady (mock_round d s).1
  unfolding mock_round
  mock_round-IsReady ready small =
      let n = s.next_order_id in
      let live = s.live_order_ids in
      let some_n = ready.0 in
      let below = ready.1 in
      elim (Bool-cases (cancels d s)) [
        | inl cancelling ↦ rw cancelling (
          some_n,
          omega arith,
          elim (Bool-cases (mock_quantity d == 0)) [
            | inl all ↦ rw all (drop_order-AllBelow n live d.index some_n ready.2)
            | inr part ↦ rw part ready.2
          ],
        )
        | inr no_cancel ↦ rw no_cancel (elim (Bool-cases (fills d s)) [
          | inl filling ↦ rw filling (some_n, omega arith, ready.2)
          | inr adding ↦ rw adding (
              let next : (n + 1) % 2 ^ 64 ≡ suc n = omega arith in
              (
                omega (arith, next),
                omega (arith, next),
                rw next (
                    AllBelow-snoc (suc n) n live (omega arith)
                      (AllBelow-mono n (suc n) live (omega arith) ready.2)),
              ))
        ])
      ]

mock_generator : Generator mock_round
mock_generator = record {
  number = λ s. s.seq_no;
  IsDraw = IsMock;
  IsReady = IsReady;
  good = mock_round-Good;
  next = mock_round-seq_no;
  ready = mock_round-IsReady;
}

-- The feed of the benchmark holds a valid message for each round, and their sequence numbers are
-- 1, 2, 3 and so on. The draws are within the ranges of their distributions, and there are fewer
-- than 2 ^ 64 - 2 rounds.
pub generate_mock_feed-AllValid :
    (ds : List MockDraws)
    → All IsMock ds
    → 2 + length ds < 2 ^ 64
    → AllValid (generate_mock_feed ds)
      × (map seq_no (generate_mock_feed ds) ≡ count_up 1 (length ds))
unfolding generate_mock_feed mock_generator
generate_mock_feed-AllValid ds all small =
    stream-AllValid mock_generator ds feed_start all (omega arith, omega arith, tt) small

-- ===== src/Server/Generate.antt =====
-- What the generator of a burst sends.
use quant_feed_handler.Base.{
  suc, ◌+◌, ◌^◌, ◌≤◌, ◌<◌, List, ◌≡◌, refl, inl, inr, map, length, All, get_or, ltb, ◌==◌, ◌||◌,
  Bool-cases, arith,
}
use quant_feed_handler.Arbitrator.Order.{count_up}
use quant_feed_handler.Feed.{is_empty}
use quant_feed_handler.Feed.Live.{
  AllBelow, get_or-AllBelow, AllBelow-mono, AllBelow-snoc, drop_order-AllBelow,
}
use quant_feed_handler.Feed.Stream.{Generator, AllValid, stream-AllValid}
use quant_feed_handler.Protocol.{seq_no, of_add, of_cancel, of_exec}
use quant_feed_handler.Server.{
  Draws, Burst, generated_add, generated_cancel, generated_exec, cancel_quantity, generate,
  generate_all,
}
use quant_feed_handler.Validator.Written.{Good, of_add-Good, of_cancel-Good, of_exec-Good}

-- The ranges that the distributions of a round are made with.
pub record InRange (d : Draws) : Type 0 where
  pub time_fits : d.now_ns < 2 ^ 64
  pub low_bid : 9995 ≤ d.bid_spread
  pub high_bid : d.bid_spread ≤ 9999
  pub low_ask : 10000 ≤ d.ask_spread
  pub high_ask : d.ask_spread ≤ 10005
  pub low_qty : 10 ≤ d.qty
  pub high_qty : d.qty ≤ 500

-- Every order that may still be cancelled has a number below the next one.
abbrev pub IsReady : Burst → Type 0
IsReady b = (0 < b.user_seq_no) × AllBelow b.user_seq_no b.active_orders

module _ (d : Draws) (b : Burst) (r : InRange d) (small : b.user_seq_no < 2 ^ 64) where
  generated_add-Good : Good b.user_seq_no (of_add (generated_add d b))
  unfolding generated_add
  generated_add-Good =
      let lb = r.low_bid in
      let hb = r.high_bid in
      let la = r.low_ask in
      let ha = r.high_ask in
      let lq = r.low_qty in
      let hq = r.high_qty in
      of_add-Good (generated_add d b)
        (record {
          type_fits = omega arith;
          seq_fits = small;
          time_fits = r.time_fits;
          id_fits = small;
          side_fits = ground arith;
          price_fits = ground arith;
          quantity_fits = ground arith;
        })
        refl (ground arith) (ground arith)

  module _ (known : get_or b.active_orders d.index 0 < 2 ^ 64) where
    generated_cancel-Good : Good b.user_seq_no (of_cancel (generated_cancel d b))
    unfolding generated_cancel
    generated_cancel-Good =
        let hq = r.high_qty in
        of_cancel-Good (generated_cancel d b)
          (record {
            type_fits = omega arith;
            seq_fits = small;
            time_fits = r.time_fits;
            id_fits = known;
            quantity_fits = ground arith;
          })
          refl (ground arith)

    generated_exec-Good : Good b.user_seq_no (of_exec (generated_exec d b))
    unfolding generated_exec
    generated_exec-Good =
        let lq = r.low_qty in
        let hq = r.high_qty in
        of_exec-Good (generated_exec d b)
          (record {
            type_fits = omega arith;
            seq_fits = small;
            time_fits = r.time_fits;
            id_fits = known;
            quantity_fits = ground arith;
            price_fits = ground arith;
          })
          refl (ground arith)

generate-Good :
    (d : Draws) (b : Burst)
    → InRange d
    → IsReady b
    → suc b.user_seq_no < 2 ^ 64
    → Good b.user_seq_no (generate d b).0
unfolding generate
generate-Good d b r ready small =
    let target = get_or-AllBelow b.user_seq_no b.active_orders d.index ready.0 ready.1 in
    elim (Bool-cases (ltb d.action 65 || is_empty b.active_orders)) [
      | inl adding ↦ rw adding (generated_add-Good d b r (omega arith))
      | inr no_add ↦ rw no_add (elim (Bool-cases (ltb d.action 90)) [
        | inl cancelling ↦
            rw cancelling (generated_cancel-Good d b r (omega arith) (omega (arith, target)))
        | inr filling ↦ rw filling (generated_exec-Good d b r (omega arith) (omega (arith, target)))
      ])
    ]

generate-user_seq_no :
    (d : Draws) (b : Burst)
    → suc b.user_seq_no < 2 ^ 64
    → (generate d b).1.user_seq_no ≡ suc b.user_seq_no
unfolding generate
generate-user_seq_no d b small = ground arith

generate-AllBelow :
    (d : Draws) (b : Burst)
    → IsReady b
    → AllBelow (suc b.user_seq_no) (generate d b).1.active_orders
unfolding generate
generate-AllBelow d b ready =
    let n = b.user_seq_no in
    let up = AllBelow-mono n (suc n) b.active_orders (omega arith) ready.1 in
    elim (Bool-cases (ltb d.action 65 || is_empty b.active_orders)) [
      | inl adding ↦ rw adding (AllBelow-snoc (suc n) n b.active_orders (omega arith) up)
      | inr no_add ↦ rw no_add (elim (Bool-cases (ltb d.action 90)) [
        | inl cancelling ↦ rw cancelling (elim (Bool-cases (cancel_quantity d == 0)) [
          | inl all ↦ rw all (drop_order-AllBelow (suc n) b.active_orders d.index (omega arith) up)
          | inr part ↦ rw part up
        ])
        | inr filling ↦ rw filling up
      ])
    ]

burst_generator : Generator generate
burst_generator = record {
  number = λ b. b.user_seq_no;
  IsDraw = InRange;
  IsReady = IsReady;
  good = generate-Good;
  next = generate-user_seq_no;
  ready = λ d b r small.
      let next = generate-user_seq_no d b small in
      (omega (arith, next), rw next (generate-AllBelow d b r));
}

-- Every message of a burst is valid, and their sequence numbers are consecutive from the next one
-- on. The draws are within the ranges of their distributions, the orders that are active at the
-- start have smaller numbers, and the numbers are positive and below 2 ^ 64.
pub generate_all-AllValid :
    (ds : List Draws) (b : Burst)
    → All InRange ds
    → IsReady b
    → suc b.user_seq_no + length ds < 2 ^ 64
    → AllValid (generate_all ds b)
      × (map seq_no (generate_all ds b) ≡ count_up b.user_seq_no (length ds))
unfolding generate_all burst_generator
generate_all-AllValid ds b all ready small = stream-AllValid burst_generator ds b all ready small

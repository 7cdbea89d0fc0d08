-- ===== src/Replay/Synthetic.antt =====
-- What the replayer makes up when it finds no message.
use quant_feed_handler.Base.{
  ℕ, zero, suc, ◌+◌, ◌*◌, ◌%◌, ◌^◌, ◌<◌, ◌≡◌, inl, inr, map, replicate, length-replicate, All, ltb,
  ◌==◌, Bool-cases, if◌then◌else◌, arith,
}
use quant_feed_handler.Arbitrator.Order.{count_up}
use quant_feed_handler.Feed.Fields.{add_fields-Good, cancel_fields-Good, exec_fields-Good}
use quant_feed_handler.Feed.Stream.{Generator, AllValid, stream-AllValid}
use quant_feed_handler.Protocol.{seq_no}
use quant_feed_handler.Replay.{
  SyntheticFeed, synthetic_start, synthetic_add, synthetic_cancel, synthetic_exec, earlier,
  synthesize, synthetic_messages,
}
use quant_feed_handler.Validator.Written.{Good}

abbrev IsReady : SyntheticFeed → Type 0
IsReady s = s.order_id < 2 ^ 64

module _ (d : Unit {0}) (s : SyntheticFeed) where
  synthesize-Good : IsReady s → suc s.seq_no < 2 ^ 64 → Good s.seq_no (synthesize d s).0
  unfolding synthesize synthetic_add synthetic_cancel synthetic_exec
  synthesize-Good ready small = elim (Bool-cases (ltb (s.i % 10) 7)) [
    | inl adding ↦ rw adding (
        add_fields-Good s.seq_no (s.i * 1000 % 2 ^ 64) s.order_id (omega arith) (omega arith) ready
          (if s.i % 2 == 0 then b'B' else b'S') (10000 + s.i % 20) (100 + s.i % 50 * 10)
          (ground arith) (ground arith) (omega arith) (omega arith) (omega arith) (omega arith))
    | inr no_add ↦ rw no_add (elim (Bool-cases (ltb (s.i % 10) 9)) [
      | inl cancelling ↦ rw cancelling (
          cancel_fields-Good s.seq_no (s.i * 1000 % 2 ^ 64) (earlier s 5) (omega arith)
            (omega arith) (ground arith) 0 (omega arith))
      | inr filling ↦ rw filling (
          exec_fields-Good s.seq_no (s.i * 1000 % 2 ^ 64) (earlier s 3) (omega arith) (omega arith)
            (ground arith) 50 10005 (omega arith) (omega arith) (omega arith) (omega arith))
    ])
  ]

  synthesize-seq_no : suc s.seq_no < 2 ^ 64 → (synthesize d s).1.seq_no ≡ suc s.seq_no
  unfolding synthesize
  synthesize-seq_no small = ground arith

  synthesize-IsReady : IsReady s → IsReady (synthesize d s).1
  unfolding synthesize
  synthesize-IsReady ready = ground arith

synthesizer : Generator synthesize
synthesizer = record {
  number = λ s. s.seq_no;
  IsDraw = λ d. Unit;
  IsReady = IsReady;
  good = λ d s drawn. synthesize-Good d s;
  next = synthesize-seq_no;
  ready = λ d s ready small. synthesize-IsReady d s ready;
}

nothing_drawn : (n : ℕ) → All (λ (d : Unit {0}). Unit) (replicate n tt)
nothing_drawn zero = tt
nothing_drawn (suc n) = (tt, nothing_drawn n)

-- Every message that the replayer makes up is valid, and their sequence numbers are 1, 2, 3 and so
-- on, for any number of them below 2 ^ 64 - 2.
pub synthetic_messages-AllValid :
    (n : ℕ)
    → 2 + n < 2 ^ 64
    → AllValid (synthetic_messages n) × (map seq_no (synthetic_messages n) ≡ count_up 1 n)
unfolding synthetic_messages synthesizer
synthetic_messages-AllValid n small =
    let size = length-replicate n (tt {0}) in
    let v =
      stream-AllValid synthesizer (replicate n tt) synthetic_start (nothing_drawn n) (omega arith)
        (omega (arith, size)) in
    (v.0, rw size at v.1)

-- ===== src/Replay/Sent.antt =====
-- Everything that the replayer sends arrives.
use quant_feed_handler.Base.{
  ℕ, ◌+◌, ◌%◌, ◌^◌, ◌<◌, List, [], ◌∷◌, Option, ◌≡◌, refl, inl, inr, replicate, All, ltb,
  Bool-cases, arith,
}
use quant_feed_handler.Feed.{is_empty}
use quant_feed_handler.Feed.Stream.{AllValid, stream-All}
use quant_feed_handler.Protocol.{
  AddOrderMsg, CancelOrderMsg, ExecuteOrderMsg, WireMessage, of_add, of_cancel, of_exec,
  expected_size,
}
use quant_feed_handler.Replay.{
  SyntheticFeed, synthetic_start, synthetic_add, synthetic_cancel, synthetic_exec, synthesize,
  synthetic_messages, found_messages, messages_to_replay,
}
use quant_feed_handler.Replay.Datagrams.{
  Arrives, IsPadded, IsPadded-as, Arrives-IsPadded, found_messages-Arrives,
}
use quant_feed_handler.Replay.Synthetic.{synthetic_messages-AllValid}
use quant_feed_handler.Validator.Accept.{check_fields-is_valid}
use quant_feed_handler.Validator.Written.{msg_type-of_add, msg_type-of_cancel, msg_type-of_exec}

of_add-IsPadded : (a : AddOrderMsg) → a.msg_type ≡ b'A' → IsPadded (of_add a)
unfolding expected_size of_add
of_add-IsPadded a type =
    IsPadded-as (of_add a) b'A' 34 (msg_type-of_add a type) refl (ground arith) (omega arith) refl

of_cancel-IsPadded : (c : CancelOrderMsg) → c.msg_type ≡ b'X' → IsPadded (of_cancel c)
unfolding expected_size of_cancel
of_cancel-IsPadded c type =
    IsPadded-as (of_cancel c) b'X' 29 (msg_type-of_cancel c type) refl (ground arith) (omega arith)
      refl

of_exec-IsPadded : (e : ExecuteOrderMsg) → e.msg_type ≡ b'E' → IsPadded (of_exec e)
unfolding expected_size of_exec
of_exec-IsPadded e type =
    IsPadded-as (of_exec e) b'E' 33 (msg_type-of_exec e type) refl (ground arith) (omega arith) refl

synthesize-IsPadded : (d : Unit {0}) (s : SyntheticFeed) → IsPadded (synthesize d s).0
unfolding synthesize synthetic_add synthetic_cancel synthetic_exec
synthesize-IsPadded d s = elim (Bool-cases (ltb (s.i % 10) 7)) [
  | inl adding ↦ rw adding (of_add-IsPadded (synthetic_add s) refl)
  | inr no_add ↦ rw no_add (elim (Bool-cases (ltb (s.i % 10) 9)) [
    | inl cancelling ↦ rw cancelling (of_cancel-IsPadded (synthetic_cancel s) refl)
    | inr filling ↦ rw filling (of_exec-IsPadded (synthetic_exec s) refl)
  ])
]

All-Arrives : (ms : List WireMessage) → AllValid ms → All IsPadded ms → All Arrives ms
All-Arrives [] v p = tt
All-Arrives (m ∷ ms) v p =
    (Arrives-IsPadded m p.0 ((check_fields-is_valid m).1 v.0), All-Arrives ms v.1 p.1)

synthetic_messages-Arrives : (n : ℕ) → 2 + n < 2 ^ 64 → All Arrives (synthetic_messages n)
synthetic_messages-Arrives n small =
    let v = (synthetic_messages-AllValid n small).0 in
    All-Arrives (synthetic_messages n) v (
      unfold synthetic_messages in
      stream-All synthesize IsPadded synthesize-IsPadded (replicate n tt) synthetic_start)

-- Whatever the file holds, or if there is none: every message that is replayed is cut to the size of
-- its type, and a receiver of that datagram accepts it and has the message as it was.
pub messages_to_replay-Arrives : (file : Option (List ℕ)) → All Arrives (messages_to_replay file)
unfolding messages_to_replay
messages_to_replay-Arrives file = elim (Bool-cases (is_empty (found_messages file))) [
  | inl nothing ↦ rw nothing (synthetic_messages-Arrives 50000 (omega arith))
  | inr something ↦ rw something (found_messages-Arrives file)
]

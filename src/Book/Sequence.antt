-- ===== src/Book/Sequence.antt =====
-- The sequence check of the book: what its gap counter counts.
use quant_feed_handler.Base.{
  ℕ, suc, ◌+◌, ◌^◌, ◌≤◌, ◌<◌, List, [], ◌∷◌, Option, none, some, ◌≡◌, refl, ap, ◌∙◌, inl, inr,
  length, get_or, ◌==◌, Bool-cases, Option-cases, arith,
}
use quant_feed_handler.Base.Int.{ℤ}
use quant_feed_handler.Book.{
  LimitOrderBook, apply_side, added, process_add, store_record, cancel_record, process_cancel,
  execute_record, process_execute, check_sequence, dispatch, process_message, process_all,
}
use quant_feed_handler.Protocol.{
  AddOrderMsg, CancelOrderMsg, ExecuteOrderMsg, WireMessage, msg_type, seq_no, add, cancel, exec,
}
use quant_feed_handler.Table.{blank, OrderTable, lookup}

-- The two counters of the sequence check are the same.
pub record SameCounters (a b : LimitOrderBook) : Type 0 where
  pub expected : b.expected_seq_no ≡ a.expected_seq_no
  pub gaps : b.sequence_gaps_detected ≡ a.sequence_gaps_detected

apply_side-SameCounters :
    (book : LimitOrderBook) (side : ℕ) (price qty_delta order_delta : ℤ)
    → SameCounters book (apply_side book side price qty_delta order_delta)
unfolding apply_side
apply_side-SameCounters book side price q o = elim (Bool-cases (side == b'B')) [
  | inl bid ↦ rw bid (record { expected = refl; gaps = refl })
  | inr ask ↦ rw ask (record { expected = refl; gaps = refl })
]

process_cancel-SameCounters :
    (book : LimitOrderBook) (m : CancelOrderMsg) → SameCounters book (process_cancel book m)
unfolding process_cancel cancel_record store_record
process_cancel-SameCounters book m = elim (Option-cases (lookup (book.order_table) m.order_id)) [
  | inl absent ↦ rw (absent, process_cancel) (record { expected = refl; gaps = refl })
  | inr (i, e) ↦
      let r = get_or (book.order_table).table i blank in
      rw (e, process_cancel)
        (elim (Bool-cases r.cancelled) [
          | inl gone ↦ rw gone (record { expected = refl; gaps = refl })
          | inr live ↦
              let s = apply_side-SameCounters book r.side r.price _ _ in
              rw live (record { expected = s.expected; gaps = s.gaps })
        ])
]

process_execute-SameCounters :
    (book : LimitOrderBook) (m : ExecuteOrderMsg) → SameCounters book (process_execute book m)
unfolding process_execute execute_record store_record
process_execute-SameCounters book m = elim (Option-cases (lookup (book.order_table) m.order_id)) [
  | inl absent ↦ rw (absent, process_execute) (record { expected = refl; gaps = refl })
  | inr (i, e) ↦
      let r = get_or (book.order_table).table i blank in
      rw (e, process_execute)
        (elim (Bool-cases r.cancelled) [
          | inl gone ↦ rw gone (record { expected = refl; gaps = refl })
          | inr live ↦
              let s = apply_side-SameCounters _ r.side r.price _ _ in
              rw live (record { expected = s.expected; gaps = s.gaps })
        ])
]

added-SameCounters :
    (book : LimitOrderBook) (m : AddOrderMsg) (p : Option ℕ × OrderTable)
    → SameCounters book (added book m p)
unfolding added
added-SameCounters book m (none, o) = record { expected = refl; gaps = refl }
added-SameCounters book m (some i, o) =
    let s = apply_side-SameCounters (record book { order_table = o }) m.side m.price m.quantity _ in
    record { expected = s.expected; gaps = s.gaps }

pub dispatch-SameCounters :
    (book : LimitOrderBook) (m : WireMessage) → SameCounters book (dispatch book m)
unfolding dispatch process_add
dispatch-SameCounters book m = elim (Bool-cases (msg_type m == b'A')) [
  | inl a ↦ rw a (added-SameCounters book (add m) _)
  | inr a ↦ rw a (elim (Bool-cases (msg_type m == b'X')) [
    | inl x ↦ rw x (process_cancel-SameCounters book (cancel m))
    | inr x ↦ rw x (elim (Bool-cases (msg_type m == b'E')) [
      | inl e ↦ rw e (process_execute-SameCounters book (exec m))
      | inr e ↦ rw e (record { expected = refl; gaps = refl })
    ])
  ])
]

-- Sequence numbers that only grow, from a lowest one on, below the last of 64 bits.
abbrev pub Grows : ℕ → List WireMessage → Type 0
Grows lowest [] = Unit
Grows lowest (m ∷ ms) = (lowest ≤ seq_no m) × (suc (seq_no m) < 2 ^ 64) × Grows (suc (seq_no m)) ms

pub check_sequence-gap :
    (book : LimitOrderBook) (seq : ℕ)
    → 0 < book.expected_seq_no
    → book.expected_seq_no ≤ seq
    → suc seq < 2 ^ 64
    → book.sequence_gaps_detected ≤ book.expected_seq_no
    → ((check_sequence book seq).expected_seq_no ≡ suc seq)
      × ((check_sequence book seq).sequence_gaps_detected + book.expected_seq_no
          ≡ book.sequence_gaps_detected + seq)
unfolding check_sequence
check_sequence-gap book seq positive lo hi few = ground arith

-- The number that is next after the messages.
abbrev pub next_number : ℕ → List WireMessage → ℕ
next_number expected [] = expected
next_number expected (m ∷ ms) = next_number (suc (seq_no m)) ms

-- While sequence numbers only grow, from the expected one on: the expected number is afterwards the
-- one after the last that came, and the gap counter gains one for each number up to there that never
-- came, since with the messages it makes up the whole way from the first expected number. At the
-- start the counter is at most the expected number, which is not 0, and no sequence number is the
-- last of 64 bits.
pub process_all-gaps :
    (ms : List WireMessage) (book : LimitOrderBook)
    → 0 < book.expected_seq_no
    → book.sequence_gaps_detected ≤ book.expected_seq_no
    → Grows book.expected_seq_no ms
    → ((process_all book ms).expected_seq_no ≡ next_number book.expected_seq_no ms)
      × ((process_all book ms).sequence_gaps_detected + length ms + book.expected_seq_no
          ≡ book.sequence_gaps_detected + next_number book.expected_seq_no ms)
unfolding process_all process_message
process_all-gaps [] book positive few g = (refl, omega arith)
process_all-gaps (m ∷ ms) book positive few g =
    let c = check_sequence-gap book (seq_no m) positive g.0 g.1 few in
    let s = dispatch-SameCounters (check_sequence book (seq_no m)) m in
    let expected : (dispatch (check_sequence book (seq_no m)) m).expected_seq_no ≡ suc (seq_no m) =
      s.expected ∙ c.0 in
    let gaps = s.gaps in
    let rest =
      process_all-gaps ms (dispatch (check_sequence book (seq_no m)) m) (omega (arith, expected))
        (omega (arith, expected, gaps, c.1, few)) (rw expected g.2) in
    let next = ap (λ n. next_number n ms) expected in
    let count = rest.1 in (rest.0 ∙ next, omega (arith, count, next, expected, gaps, c.1))

-- ===== src/Book/Gapless.antt =====
-- Feeds in which no sequence number is missing.
use quant_feed_handler.Base.{
  ℕ, suc, ◌+◌, ◌^◌, ◌<◌, List, [], ◌∷◌, ◌≡◌, refl, ◌∙◌, map, length, arith,
}
use quant_feed_handler.Arbitrator.Order.{count_up}
use quant_feed_handler.Book.{LimitOrderBook, check_sequence, dispatch, process_message, process_all}
use quant_feed_handler.Book.Sequence.{dispatch-SameCounters}
use quant_feed_handler.Protocol.{WireMessage, seq_no}

check_sequence-next :
    (book : LimitOrderBook) (seq : ℕ)
    → seq ≡ book.expected_seq_no
    → suc seq < 2 ^ 64
    → ((check_sequence book seq).expected_seq_no ≡ suc book.expected_seq_no)
      × ((check_sequence book seq).sequence_gaps_detected ≡ book.sequence_gaps_detected)
unfolding check_sequence
check_sequence-next book seq same small = ground arith

-- Messages with consecutive numbers, from the expected one on, leave the gap counter as it is.
pub process_all-gapless :
    (ms : List WireMessage) (book : LimitOrderBook)
    → map seq_no ms ≡ count_up book.expected_seq_no (length ms)
    → book.expected_seq_no + length ms < 2 ^ 64
    → ((process_all book ms).sequence_gaps_detected ≡ book.sequence_gaps_detected)
      × ((process_all book ms).expected_seq_no ≡ book.expected_seq_no + length ms)
unfolding process_all process_message
process_all-gapless [] book same small = (refl, omega arith)
process_all-gapless (m ∷ ms) book same small =
    let first : seq_no m ≡ book.expected_seq_no = cc same in
    let others : map seq_no ms ≡ count_up (suc book.expected_seq_no) (length ms) = cc same in
    let c = check_sequence-next book (seq_no m) first (omega (arith, first)) in
    let s = dispatch-SameCounters (check_sequence book (seq_no m)) m in
    let expected = s.expected ∙ c.0 in
    let rest =
      process_all-gapless ms (dispatch (check_sequence book (seq_no m)) m) (rw expected others)
        (omega (arith, expected)) in
    (rest.0 ∙ s.gaps ∙ c.1, omega (arith, rest.1, expected))

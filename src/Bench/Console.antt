-- ===== src/Bench/Console.antt =====
-- `runInteractiveCLI` of src/main.cpp, less the clock: the lines that are typed, and the replies. A
-- line is what `getline` gives, without its end.
use quant_feed_handler.Base.{
  ℕ, suc, ◌-◌, ◌^◌, ◌<◌, List, [], ◌∷◌, ◌++◌, Option, none, some, Bool, true, false, ◌||◌, ◌≡◌, ap,
  ◌∙◌, refl, if◌then◌else◌, arith,
}
use quant_feed_handler.Base.Texts.{codes}
use quant_feed_handler.Bench.Pipeline.Benchmark.{bench_book}
use quant_feed_handler.Book.{LimitOrderBook, reset, check_sequence, process_message}
use quant_feed_handler.Book.Sequence.{dispatch-SameCounters}
use quant_feed_handler.Protocol.{WireMessage, msg_type, seq_no, order_id}
use quant_feed_handler.Table.{add64}
use quant_feed_handler.Validator.Line.{Text, Library, is_empty, eq_text, zeroed, parse_user_line}
use quant_feed_handler.Validator.Parsed.{Fits, Parsed, parse_user_line-Parsed}

pub record Console : Type 0 where
  pub book : LimitOrderBook
  pub seq_no : ℕ

-- An order that is taken is reported with its type and its id.
pub data Reply : Type 0 where
  reset_done : Reply
  book_shown : Reply
  ingested : ℕ → ℕ → Reply
  invalid_format : Reply

abbrev pub console_start : Console
console_start = record { book = bench_book; seq_no = 1 }

abbrev pub is_quit : Text → Bool
is_quit line =
    eq_text line (codes "QUIT") || (eq_text line (codes "quit") || eq_text line (codes "exit"))

abbrev pub is_reset : Text → Bool
is_reset line = eq_text line (codes "RESET") || eq_text line (codes "reset")

abbrev pub is_book : Text → Bool
is_book line = eq_text line (codes "BOOK") || eq_text line (codes "book")

-- A line that is no command: its number is used up, whether it is taken or not.
unfoldable pub console_order : Console → Bool × WireMessage → List Reply × Console
console_order c (true, m) = (
  ingested (msg_type m) (order_id m) ∷ book_shown ∷ [],
  record { book = process_message c.book m; seq_no = add64 c.seq_no 1 },
)
console_order c (false, m) =
    (invalid_format ∷ [], record { book = c.book; seq_no = add64 c.seq_no 1 })

-- None ends the loop.
unfoldable pub console_line : Library → Text → Console → Option (List Reply × Console)
console_line lib line c =
    if is_empty line
    then some ([], c)
    else if is_quit line
    then none
    else if is_reset line
    then some (reset_done ∷ book_shown ∷ [], record { book = bench_book; seq_no = c.seq_no })
    else if is_book line
    then some (book_shown ∷ [], c)
    else some (console_order c (parse_user_line lib line c.seq_no zeroed))

unfoldable pub run_console : Library → List Text → Console → List Reply × Console
run_console lib [] c = ([], c)
run_console lib (line ∷ lines) c = elim (console_line lib line c) [
  | none ↦ ([], c)
  | some (replies, c') ↦ let rest = run_console lib lines c' in (replies ++ rest.0, rest.1)
]

check_sequence-first :
    (book : LimitOrderBook) (seq : ℕ)
    → book.expected_seq_no ≡ 1
    → book.sequence_gaps_detected ≡ 0
    → 0 < seq
    → suc seq < 2 ^ 64
    → (check_sequence book seq).sequence_gaps_detected ≡ seq - 1
unfolding check_sequence
check_sequence-first book seq fresh no_gaps some_seq small = ground arith

console_order-gaps :
    (c : Console) (p : Bool × WireMessage)
    → Parsed c.seq_no p
    → p.0 ≡ true
    → c.book.expected_seq_no ≡ 1
    → c.book.sequence_gaps_detected ≡ 0
    → 0 < c.seq_no
    → suc c.seq_no < 2 ^ 64
    → (console_order c p).1.book.sequence_gaps_detected ≡ c.seq_no - 1
unfolding console_order process_message
console_order-gaps c (true, m) v taken fresh no_gaps some_seq small =
    let same = v.0 in
    let g = (dispatch-SameCounters (check_sequence c.book (seq_no m)) m).gaps in
    g
    ∙ check_sequence-first c.book (seq_no m) fresh no_gaps (rw same some_seq) (rw same small)
    ∙ ap (λ n. n - 1) same
console_order-gaps c (false, m) v taken fresh no_gaps some_seq small = absurd (cc taken)

module _ (lib : Library) (line : Text) (c : Console) where
  console_line-order :
      is_empty line ≡ false
      → is_quit line ≡ false
      → is_reset line ≡ false
      → is_book line ≡ false
      → console_line lib line c ≡ some (console_order c (parse_user_line lib line c.seq_no zeroed))
  unfolding console_line
  console_line-order some_text no_quit no_reset no_book = rw (some_text, no_quit, no_reset, no_book)

  run_console-one :
      (r : List Reply × Console)
      → console_line lib line c ≡ some r
      → (run_console lib (line ∷ []) c).1 ≡ r.1
  unfolding run_console
  run_console-one r e = rw (e, run_console)

-- A `RESET` clears the book, but not the numbering of the lines: the next order that is taken, with
-- number n, makes the cleared book count n - 1 missing messages. The order is no command, `strtoull`
-- and the clock give 64 bits, and its number is positive and below the last two of 64 bits.
pub run_console-reset :
    (lib : Library) (line : Text) (c : Console)
    → Fits lib
    → is_empty line ≡ false
    → is_quit line ≡ false
    → is_reset line ≡ false
    → is_book line ≡ false
    → (parse_user_line lib line c.seq_no zeroed).0 ≡ true
    → 0 < c.seq_no
    → suc c.seq_no < 2 ^ 64
    → (run_console lib (codes "RESET" ∷ line ∷ []) c).1.book.sequence_gaps_detected ≡ c.seq_no - 1
unfolding run_console console_line
run_console-reset lib line c f some_text no_quit no_reset no_book taken some_seq small =
    let cleared : Console = record { book = bench_book; seq_no = c.seq_no } in
    let p = parse_user_line lib line c.seq_no zeroed in
    let one =
      run_console-one lib line cleared (console_order cleared p)
        (console_line-order lib line cleared some_text no_quit no_reset no_book) in
    ap (λ (x : Console). x.book.sequence_gaps_detected) one
    ∙ unfold bench_book reset in
      console_order-gaps cleared p (parse_user_line-Parsed lib f c.seq_no (omega arith) line zeroed)
        taken refl refl some_seq small

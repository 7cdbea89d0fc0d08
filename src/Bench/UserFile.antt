-- ===== src/Bench/UserFile.antt =====
-- `runUserFile` of src/main.cpp, less the clock and the output: the lines of a file, as `getline`
-- gives them, make up messages, and those make up a book.
use quant_feed_handler.Base.{
  ℕ, suc, ◌+◌, ◌^◌, ◌≤◌, ◌<◌, List, [], ◌∷◌, ◌++◌, Option, none, some, Bool, true, false, ◌≡◌, refl,
  ap, ◌∙◌, length, length-append, arith,
}
use quant_feed_handler.Bench.Pipeline.Benchmark.{bench_book}
use quant_feed_handler.Book.{LimitOrderBook, reset, check_sequence, process_message, process_all}
use quant_feed_handler.Book.Sequence.{dispatch-SameCounters, Grows, process_all-gaps}
use quant_feed_handler.Protocol.{WireMessage, seq_no}
use quant_feed_handler.Table.{add64}
use quant_feed_handler.Validator.Line.{Text, Library, zeroed, parse_user_line}
use quant_feed_handler.Validator.Parsed.{Fits, Parsed, parse_user_line-Parsed}

-- `if (parseUserLine(...)) messages.push_back(msg);`
abbrev pub push_taken : Bool × WireMessage → List WireMessage → List WireMessage
push_taken (true, m) ms = m ∷ ms
push_taken (false, m) ms = ms

-- The first loop: every line takes a number.
unfoldable pub user_messages : Library → List Text → ℕ → List WireMessage
user_messages lib [] seq = []
user_messages lib (line ∷ lines) seq =
    push_taken (parse_user_line lib line seq zeroed) (user_messages lib lines (add64 seq 1))

-- The book, if any line was taken.
unfoldable pub book_of : List WireMessage → Option LimitOrderBook
book_of [] = none
book_of (m ∷ ms) = some (process_all bench_book (m ∷ ms))

unfoldable pub run_user_file : Library → List Text → Option LimitOrderBook
run_user_file lib lines = book_of (user_messages lib lines 1)

Grows-mono : (m n : ℕ) (ms : List WireMessage) → m ≤ n → Grows n ms → Grows m ms
Grows-mono m n [] le g = tt
Grows-mono m n (w ∷ ms) le g = (let lo = g.0 in omega (arith, lo), g.1, g.2)

check_sequence-expected :
    (book : LimitOrderBook) (seq : ℕ)
    → 0 < book.expected_seq_no
    → book.expected_seq_no ≤ seq
    → suc seq < 2 ^ 64
    → (check_sequence book seq).expected_seq_no ≡ suc seq
unfolding check_sequence
check_sequence-expected book seq some_e le small = ground arith

process_message-expected :
    (book : LimitOrderBook) (m : WireMessage)
    → 0 < book.expected_seq_no
    → book.expected_seq_no ≤ seq_no m
    → suc (seq_no m) < 2 ^ 64
    → (process_message book m).expected_seq_no ≡ suc (seq_no m)
unfolding process_message
process_message-expected book m some_e le small =
    (dispatch-SameCounters (check_sequence book (seq_no m)) m).expected
    ∙ check_sequence-expected book (seq_no m) some_e le small

push_taken-Grows :
    (seq : ℕ) (p : Bool × WireMessage) (ms : List WireMessage)
    → Parsed seq p
    → suc seq < 2 ^ 64
    → Grows (suc seq) ms
    → Grows seq (push_taken p ms)
push_taken-Grows seq (true, m) ms v small g =
    let same = v.0 in (omega (arith, same), omega (arith, same), rw same g)
push_taken-Grows seq (false, m) ms v small g = Grows-mono seq (suc seq) ms (omega arith) g

module _ (lib : Library) (f : Fits lib) where
  user_messages-Grows :
      (lines : List Text) (seq : ℕ)
      → suc seq + length lines < 2 ^ 64
      → Grows seq (user_messages lib lines seq)
  unfolding user_messages
  user_messages-Grows [] seq small = tt
  user_messages-Grows (line ∷ lines) seq small =
      let next : add64 seq 1 ≡ suc seq = omega arith in
      push_taken-Grows seq (parse_user_line lib line seq zeroed) _
        (parse_user_line-Parsed lib f seq (omega arith) line zeroed) (omega arith)
        (rw next (user_messages-Grows lines (suc seq) (omega arith)))

  -- A message that is taken brings the book past its number, and a line that is not leaves it.
  push_taken-expected :
      (seq : ℕ) (p : Bool × WireMessage) (rest : List WireMessage) (book : LimitOrderBook)
      (last : ℕ)
      → Parsed seq p
      → 0 < book.expected_seq_no
      → book.expected_seq_no ≤ seq
      → suc seq < 2 ^ 64
      → ((b : LimitOrderBook)
          → 0 < b.expected_seq_no
          → b.expected_seq_no ≤ suc seq
          → (process_all b rest).expected_seq_no ≡ last)
      → (process_all book (push_taken p rest)).expected_seq_no ≡ last
  unfolding process_all
  push_taken-expected seq (true, m) rest book last v some_e le small go =
      let same = v.0 in
      let e = process_message-expected book m some_e (rw same le) (rw same small) in
      go (process_message book m) (omega (arith, e)) (omega (arith, e, same))
  push_taken-expected seq (false, m) rest book last v some_e le small go =
      go book some_e (omega arith)

  -- After a last line that is taken, the book expects the number after it.
  user_messages-expected :
      (init : List Text) (line : Text) (seq : ℕ) (book : LimitOrderBook)
      → (parse_user_line lib line (seq + length init) zeroed).0 ≡ true
      → 0 < book.expected_seq_no
      → book.expected_seq_no ≤ seq
      → suc (suc seq) + length init < 2 ^ 64
      → (process_all book (user_messages lib (init ++ line ∷ []) seq)).expected_seq_no
        ≡ suc seq + length init
  unfolding user_messages process_all
  user_messages-expected [] line seq book taken some_e le small =
      let here : seq + 0 ≡ seq = omega arith in
      taken_last seq (parse_user_line lib line seq zeroed) book
        (parse_user_line-Parsed lib f seq (omega arith) line zeroed) (rw here at taken) some_e le
        (omega arith)
      ∙ omega arith
    where
      taken_last :
          (seq : ℕ) (p : Bool × WireMessage) (book : LimitOrderBook)
          → Parsed seq p
          → p.0 ≡ true
          → 0 < book.expected_seq_no
          → book.expected_seq_no ≤ seq
          → suc seq < 2 ^ 64
          → (process_all book (push_taken p [])).expected_seq_no ≡ suc seq
      taken_last seq (true, m) book v t some_e le small =
          let same = v.0 in
          process_message-expected book m some_e (rw same le) (rw same small) ∙ ap suc same
      taken_last seq (false, m) book v t some_e le small = absurd (cc t)
  user_messages-expected (x ∷ init) line seq book taken some_e le small =
      let next : add64 seq 1 ≡ suc seq = omega arith in
      let there : seq + suc (length init) ≡ suc seq + length init = omega arith in
      push_taken-expected seq (parse_user_line lib x seq zeroed) _ book _
        (parse_user_line-Parsed lib f seq (omega arith) x zeroed) some_e le (omega arith)
        (λ b some_b near.
          let e =
            user_messages-expected init line (suc seq) b (rw there at taken) some_b near
              (omega arith) in
          rw next (omega (arith, e)))

book_of-some :
    (ms : List WireMessage) → 0 < length ms → book_of ms ≡ some (process_all bench_book ms)
unfolding book_of
book_of-some [] h = absurd (omega arith)
book_of-some (m ∷ ms) h = refl

module _ (lib : Library) (f : Fits lib) where
  -- When the last line of a file is taken, there is a book, and its gap counter is the number of
  -- lines that were not taken: empty lines, comments and headers count as missing messages. The
  -- results of `strtoull` and the clock have 64 bits, as has the number of lines with two more.
  pub run_user_file-gaps :
      (init : List Text) (line : Text)
      → (parse_user_line lib line (1 + length init) zeroed).0 ≡ true
      → 3 + length init < 2 ^ 64
      → let lines = init ++ line ∷ [] in
        let ms = user_messages lib lines 1 in
        let book = process_all bench_book ms in
        (run_user_file lib lines ≡ some book)
        × (book.sequence_gaps_detected + length ms ≡ length lines)
  unfolding run_user_file bench_book reset process_all
  run_user_file-gaps init line taken small =
      let lines = init ++ line ∷ [] in
      let ms = user_messages lib lines 1 in
      let size : length lines ≡ suc (length init) =
        (let e = length-append init (line ∷ []) in omega (arith, e)) in
      let last =
        user_messages-expected lib f init line 1 bench_book taken (omega arith) (omega arith)
          (omega arith) in
      let g =
        process_all-gaps ms bench_book (omega arith) (omega arith)
          (user_messages-Grows lib f lines 1 (omega (arith, size))) in
      let reached = g.0 in
      let count = g.1 in
      (book_of-some ms (some_message ms last), omega (arith, count, reached, last, size))
    where
      some_message :
          (ms : List WireMessage)
          → (process_all bench_book ms).expected_seq_no ≡ 2 + length init
          → 0 < length ms
      some_message [] e = absurd (omega (arith, e))
      some_message (m ∷ ms) e = omega arith

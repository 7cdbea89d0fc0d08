-- ===== src/Tests/Lines.antt =====
-- Messages, buffers and lines of user input, at concrete bytes.
use quant_feed_handler.Base.{◌≤◌, List, [], ◌∷◌, some, true, ◌≡◌, ◌≢◌, ◌↔◌, refl, replicate, arith}
use quant_feed_handler.Base.Int.{pos, wrap32, signed32, pattern32}
use quant_feed_handler.Protocol.{
  msg_type, seq_no, timestamp_ns, order_id, add, cancel, exec, of_add, of_cancel, of_exec,
  expected_size, is_valid,
}
use quant_feed_handler.Protocol.Roundtrip.{IsCancel, IsExec, header_shared}
use quant_feed_handler.Tests.Data.{library, library-Fits, line, a_cancel, an_exec}
use quant_feed_handler.Validator.{valid, length_mismatch, copied, validate_and_parse, check_fields}
use quant_feed_handler.Validator.Accept.{validate-is_valid}
use quant_feed_handler.Validator.Line.{
  Text, tokenize, price_ticks, parse_add, parse_cancel, executed, parse_execute, parse_typed,
  parse_tokens, parse_user_line,
}
use quant_feed_handler.Validator.Parsed.{Parsed, parse_user_line-Parsed}
use quant_feed_handler.Validator.Tokens.{spaced, tokenize-spaced}

program : Unit {0}
unfolding seq_no timestamp_ns order_id add cancel exec of_add of_cancel of_exec expected_size
    is_valid validate_and_parse check_fields tokenize price_ticks parse_add parse_cancel executed
    parse_execute parse_typed parse_tokens parse_user_line wrap32 signed32 pattern32
program = tt

a_cancel-IsCancel : IsCancel a_cancel
a_cancel-IsCancel = record {
  type_fits = omega arith;
  seq_fits = omega arith;
  time_fits = omega arith;
  id_fits = omega arith;
  quantity_fits = ground arith;
}

an_exec-IsExec : IsExec an_exec
an_exec-IsExec = record {
  type_fits = omega arith;
  seq_fits = omega arith;
  time_fits = omega arith;
  id_fits = omega arith;
  quantity_fits = ground arith;
  price_fits = ground arith;
}

header_shared_example :
    (seq_no (of_cancel a_cancel) ≡ 4)
    × (timestamp_ns (of_cancel a_cancel) ≡ 8)
    × (order_id (of_cancel a_cancel) ≡ 7)
    × (seq_no (of_exec an_exec) ≡ 6)
    × (timestamp_ns (of_exec an_exec) ≡ 9)
    × (order_id (of_exec an_exec) ≡ 8)
header_shared_example = header_shared a_cancel an_exec a_cancel-IsCancel an_exec-IsExec

short_test :
    (validate_and_parse (some (of_cancel a_cancel)) 28 (replicate 34 0)).0 ≡ length_mismatch
unfolding program
short_test = refl

validate-is_valid_example :
    let bytes = of_cancel a_cancel in
    let required = expected_size (msg_type bytes) in
    ((validate_and_parse (some bytes) 29 (replicate 34 0)).0 ≡ valid) ↔ (
      (required ≢ 0) × (required ≤ 29) × (is_valid (copied bytes required (replicate 34 0)) ≡ true))
validate-is_valid_example =
    validate-is_valid (of_cancel a_cancel) 29 (replicate 34 0) (unfold program in omega arith)
      (omega arith)

line_test : parse_user_line library line 5 [] ≡ (
  true,
  of_add (record {
    msg_type = b'A';
    seq_no = 5;
    timestamp_ns = 1000;
    order_id = 42;
    side = b'B';
    price = pos 4200;
    quantity = pos 42;
  }),
)
unfolding program
line_test = refl

parse_user_line-Parsed_example : Parsed 5 (parse_user_line library line 5 [])
parse_user_line-Parsed_example = parse_user_line-Parsed library library-Fits 5 (omega arith) line []

-- A comma and a blank between the words, and nothing after the last one.
abbrev words : List (Text × Text)
words = (b'X' ∷ [], b',' ∷ b' ' ∷ []) ∷ (b'4' ∷ b'2' ∷ [], []) ∷ []

tokenize-spaced_example :
    tokenize [] [] (b' ' ∷ spaced words) ≡ (b'X' ∷ []) ∷ (b'4' ∷ b'2' ∷ []) ∷ []
tokenize-spaced_example =
    tokenize-spaced (b' ' ∷ []) words (refl, tt)
      ((refl, (refl, tt)), (refl, (refl, tt)), refl, ((refl, (refl, (refl, tt))), tt))

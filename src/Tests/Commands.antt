-- ===== src/Tests/Commands.antt =====
-- Commands of the stream server, with files that all hold the same lines.
use quant_feed_handler.Base.{
  ◌*◌, List, [], ◌∷◌, some, true, ◌≡◌, refl, map, length, replicate, arith,
}
use quant_feed_handler.Base.Int.{wrap32, signed32, pattern32}
use quant_feed_handler.Base.Texts.{codes}
use quant_feed_handler.Bench.Pipeline.Benchmark.{bench_book}
use quant_feed_handler.Protocol.{seq_no, of_add, of_cancel, of_exec}
use quant_feed_handler.Server.Commands.{
  Engine, Files, push_wire_message, push_parsed, order_line, load_lines, load_opened, trim,
  crossing_order, command, commands,
}
use quant_feed_handler.Server.Commands.Numbers.{Numbered, commands-Numbered}
use quant_feed_handler.Server.Tape.{no_packet}
use quant_feed_handler.Tests.Data.{library, library-Fits, line}
use quant_feed_handler.Validator.Line.{
  Text, tokenize, price_ticks, parse_add, parse_cancel, executed, parse_execute, parse_typed,
  parse_tokens, parse_user_line,
}

program : Unit {0}
unfolding seq_no of_add of_cancel of_exec wrap32 signed32 pattern32 tokenize price_ticks parse_add
    parse_cancel executed parse_execute parse_typed parse_tokens parse_user_line push_wire_message
    push_parsed order_line load_lines load_opened crossing_order command commands
program = tt

-- A comment, an order, a line that is no order, and an order.
abbrev files : Files
files path = some (codes "# orders" ∷ line ∷ codes "nothing" ∷ line ∷ [])

abbrev engine : Engine
engine = record {
  order_book = bench_book;
  tape = record { recent = replicate 30 no_packet; head = 0 };
  latency_samples = [];
  total_ingested = 0;
  total_processed = 0;
  user_seq_no = 1;
  burst_pending = 0;
  running = true;
}

abbrev session : List Text
session = line ∷ codes "FILE  orders.csv " ∷ codes "CROSS" ∷ codes "QUIT" ∷ line ∷ []

trim_test : trim (codes "  orders.csv ") ≡ codes "orders.csv"
trim_test = refl

numbers_test : map seq_no (commands library files session engine).0 ≡ 1 ∷ 2 ∷ 4 ∷ 5 ∷ []
unfolding program
numbers_test = refl

commands-Numbered_example :
    Numbered (length session * 5) engine (commands library files session engine)
commands-Numbered_example =
    commands-Numbered library library-Fits files 4 (λ path. omega arith) session engine
      (refl, (refl, (refl, (refl, (refl, tt))))) (omega arith) (omega arith)

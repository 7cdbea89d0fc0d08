-- ===== src/Server/Commands.antt =====
-- The commands of `commandThreadFunc` in src/stream_server.cpp, and the file loader that they call.
-- A command gives the messages that it pushes into the ring buffer, in their order, and the state
-- that the threads share after it. The lines of a file are a parameter.
pub mod Numbers
use quant_feed_handler.Base.{
  ℕ, zero, suc, ◌+◌, ◌%◌, ◌^◌, List, [], ◌∷◌, ◌++◌, Option, none, some, Bool, true, false, ◌&&◌,
  ◌||◌, length, get_or, drop, replicate, ltb, leb, ◌==◌, if◌then◌else◌,
}
use quant_feed_handler.Base.Int.{ℤ, pos}
use quant_feed_handler.Base.Texts.{codes}
use quant_feed_handler.Book.{LimitOrderBook, reset, has_asks, best_ask_price}
use quant_feed_handler.Protocol.{AddOrderMsg, WireMessage, of_add}
use quant_feed_handler.Server.Tape.{Tape, no_packet, recent_tape_size}
use quant_feed_handler.Table.{add64}
use quant_feed_handler.Validator.Line.{
  Text, Library, is_empty, is_ignored, eq_text, zeroed, parse_user_line,
}

-- The variables that the threads share, less the ring buffer.
pub record Engine : Type 0 where
  pub order_book : LimitOrderBook
  pub tape : Tape
  pub latency_samples : List ℤ
  pub total_ingested : ℕ
  pub total_processed : ℕ
  pub user_seq_no : ℕ
  pub burst_pending : ℕ
  pub running : Bool

-- `none` for a file that does not open.
abbrev pub Files : Type 0
Files = Text → Option (List Text)

-- `line.rfind(prefix, 0) == 0`
abbrev pub starts_with : Text → Text → Bool
starts_with [] line = true
starts_with (p ∷ ps) [] = false
starts_with (p ∷ ps) (c ∷ cs) = p == c && starts_with ps cs

-- A number is taken for a message that may come of it.
abbrev pub take_number : Engine → Engine
take_number e = record e { user_seq_no = add64 e.user_seq_no 1 }

-- `pushWireMessage`; it waits until the buffer has room.
unfoldable pub push_wire_message : WireMessage → Engine → List WireMessage × Engine
push_wire_message m e = (m ∷ [], record e { total_ingested = add64 e.total_ingested 1 })

-- The parsed line is pushed, if it was taken.
unfoldable pub push_parsed : Bool × WireMessage → Engine → List WireMessage × Engine
push_parsed (true, m) e = push_wire_message m e
push_parsed (false, m) e = ([], e)

-- A line that is an order, in a file or typed.
unfoldable pub order_line : Library → Text → Engine → List WireMessage × Engine
order_line lib line e = push_parsed (parse_user_line lib line e.user_seq_no zeroed) (take_number e)

unfoldable pub load_lines : Library → List Text → Engine → List WireMessage × Engine
load_lines lib [] e = ([], e)
load_lines lib (line ∷ lines) e =
    let first = if is_ignored line then ([], e) else order_line lib line e in
    let rest = load_lines lib lines first.1 in (first.0 ++ rest.0, rest.1)

unfoldable pub load_opened : Library → Option (List Text) → Engine → List WireMessage × Engine
load_opened lib none e = ([], e)
load_opened lib (some lines) e = load_lines lib lines e

abbrev pub load_file : Library → Files → Text → Engine → List WireMessage × Engine
load_file lib files path e = load_opened lib (files path) e

-- Blanks and tabs in front.
abbrev pub trim_front : Text → Text
trim_front [] = []
trim_front (c ∷ cs) = if c == b' ' || c == 9 then trim_front cs else c ∷ cs

abbrev pub is_end_blank : ℕ → Bool
is_end_blank c = c == b' ' || (c == 13 || c == 10)

-- Blanks and ends of lines at the back.
abbrev pub trim_back : Text → Text
trim_back [] = []
trim_back (c ∷ cs) =
    let rest = trim_back cs in if is_empty rest && is_end_blank c then [] else c ∷ rest

abbrev pub trim : Text → Text
trim t = trim_back (trim_front t)

abbrev pub example_file : Text → Text
example_file name =
    if eq_text name (codes "aapl") || eq_text name (codes "aapl_l2_book")
    then codes "examples/aapl_l2_book.csv"
    else if eq_text name (codes "nvda") || eq_text name (codes "nvda_order_flow")
    then codes "examples/nvda_order_flow.csv"
    else if eq_text name (codes "sweep") || eq_text name (codes "market_cross_sweep")
    then codes "examples/market_cross_sweep.csv"
    else name

abbrev pub is_order_command : Text → Bool
is_order_command line =
    starts_with (codes "ORDER ") line
    || (starts_with (codes "order ") line
        || (starts_with (codes "A,") line
            || (starts_with (codes "X,") line
                || (starts_with (codes "E,") line
                    || (starts_with (codes "A ") line
                        || (starts_with (codes "X ") line || starts_with (codes "E ") line))))))

-- `RESET`, as far as the variables of this record go.
unfoldable pub reset_engine : Engine → Engine
reset_engine e = record e {
  order_book = reset 5 (2 ^ 21);
  tape = record { recent = replicate recent_tape_size no_packet; head = 0 };
  latency_samples = [];
  total_ingested = 0;
  total_processed = 0;
  user_seq_no = 1;
}

-- The order of `CROSS`: a bid at the best ask.
unfoldable pub crossing_order : Library → Engine → AddOrderMsg
crossing_order lib e = record {
  msg_type = b'A';
  seq_no = e.user_seq_no;
  timestamp_ns = lib.now_ns;
  order_id = 9999999;
  side = b'B';
  price = if has_asks e.order_book then best_ask_price e.order_book else pos 10000;
  quantity = pos 500;
}

abbrev pub burst_amount : Library → Text → ℕ
burst_amount lib line = if ltb 6 (length line) then lib.strtoull (drop 6 line) else 100000

unfoldable pub command : Library → Files → Text → Engine → List WireMessage × Engine
command lib files line e =
    if is_empty line
    then ([], e)
    else if is_order_command line
    then order_line lib line e
    else if starts_with (codes "FILE ") line
    then load_file lib files (trim (drop 5 line)) e
    else if starts_with (codes "LOAD_EXAMPLE ") line
    then load_file lib files (example_file (trim (drop 13 line))) e
    else if starts_with (codes "BURST") line
    then ([], record e { burst_pending = burst_amount lib line })
    else if eq_text line (codes "RESET") || eq_text line (codes "CLEAR")
    then ([], reset_engine e)
    else if eq_text line (codes "CROSS")
    then push_wire_message (of_add (crossing_order lib e)) (take_number e)
    else if eq_text line (codes "QUIT") || eq_text line (codes "EXIT")
    then ([], record e { running = false })
    else ([], e)

-- The test of `g_running` in front of a round.
abbrev pub when_running : Bool → List WireMessage × Engine → Engine → List WireMessage × Engine
when_running true round e = round
when_running false round e = ([], e)

-- The loop of the thread. It ends with the input or when the server stops.
unfoldable pub commands : Library → Files → List Text → Engine → List WireMessage × Engine
commands lib files [] e = ([], e)
commands lib files (line ∷ lines) e =
    let first = command lib files line e in
    let rest = commands lib files lines first.1 in
    when_running e.running (first.0 ++ rest.0, rest.1) e

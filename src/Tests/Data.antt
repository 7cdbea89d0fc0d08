-- ===== src/Tests/Data.antt =====
-- The messages, books and buffers of the tests.
use quant_feed_handler.Base.{List, [], ◌∷◌, arith}
use quant_feed_handler.Base.Texts.{codes}
use quant_feed_handler.Base.Int.{pos}
use quant_feed_handler.Protocol.{
  AddOrderMsg, CancelOrderMsg, ExecuteOrderMsg, WireMessage, of_add, of_cancel, of_exec,
}
use quant_feed_handler.Validator.Line.{Text, Library}
use quant_feed_handler.Validator.Parsed.{Fits}

abbrev pub a_bid : AddOrderMsg
a_bid = record {
  msg_type = b'A';
  seq_no = 1;
  timestamp_ns = 5;
  order_id = 7;
  side = b'B';
  price = pos 100;
  quantity = pos 10;
}

abbrev pub an_ask : AddOrderMsg
an_ask = record {
  msg_type = b'A';
  seq_no = 2;
  timestamp_ns = 6;
  order_id = 8;
  side = b'S';
  price = pos 103;
  quantity = pos 4;
}

abbrev pub a_lower_bid : AddOrderMsg
a_lower_bid = record {
  msg_type = b'A';
  seq_no = 3;
  timestamp_ns = 7;
  order_id = 9;
  side = b'B';
  price = pos 99;
  quantity = pos 6;
}

abbrev pub a_cancel : CancelOrderMsg
a_cancel = record { msg_type = b'X'; seq_no = 4; timestamp_ns = 8; order_id = 7; quantity = pos 0 }

abbrev pub an_exec : ExecuteOrderMsg
an_exec = record {
  msg_type = b'E';
  seq_no = 6;
  timestamp_ns = 9;
  order_id = 8;
  exec_quantity = pos 4;
  match_price = pos 103;
}

-- Two bids and an ask.
unfoldable pub adds : List WireMessage
adds = of_add a_bid ∷ of_add an_ask ∷ of_add a_lower_bid ∷ []

-- The adds, a cancellation of the better bid, and an execution, before which a number is missing.
unfoldable pub session : List WireMessage
session =
    of_add a_bid ∷ of_add an_ask ∷ of_add a_lower_bid ∷ of_cancel a_cancel ∷ of_exec an_exec ∷ []

-- A library that reads every number as 42.
abbrev pub library : Library
library = record {
  toupper = λ c. c;
  strtoull = λ s. 42;
  strtol = λ s. pos 42;
  cents = λ s. pos 4200;
  now_ns = 1000;
}

pub library-Fits : Fits library
library-Fits = record { id_fits = λ s. (omega arith); time_fits = omega arith }

abbrev pub line : Text
line = codes "A,42,B,42.0,42"

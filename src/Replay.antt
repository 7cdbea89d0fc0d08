-- ===== src/Replay.antt =====
-- The replayer src/pcap_replayer.cpp: the messages that it finds in a capture file, those that it
-- makes up when it finds none, and the datagrams that it sends. A file is its bytes; the program
-- runs where numbers are little-endian.
pub mod Capture
pub mod Synthetic
pub mod Datagrams
pub mod Sent
use quant_feed_handler.Base.{
  ℕ, zero, suc, ◌+◌, ◌-◌, ◌*◌, ◌%◌, ◌^◌, List, [], ◌∷◌, Option, none, some, Bool, true, false, ◌&&◌,
  ◌||◌, map, length, take, drop, replicate, ltb, leb, ◌==◌, if◌then◌else◌,
}
use quant_feed_handler.Base.Int.{ℤ, pos}
use quant_feed_handler.Feed.{is_empty, stream}
use quant_feed_handler.Protocol.{
  AddOrderMsg, CancelOrderMsg, ExecuteOrderMsg, WireMessage, msg_type, field_at, of_add, of_cancel,
  of_exec, size_of_add, size_of_wire, expected_size,
}
use quant_feed_handler.Table.{add64}
use quant_feed_handler.Validator.{
  ValidationResult, valid, truncated_header, unknown_message_type, length_mismatch, invalid_side,
  invalid_price, invalid_quantity, sequence_out_of_order, validate_and_parse,
}
use quant_feed_handler.Validator.Line.{zeroed}

pub record PcapPacketHeader : Type 0 where
  pub ts_sec : ℕ
  pub ts_usec : ℕ
  pub incl_len : ℕ
  pub orig_len : ℕ

abbrev pub size_of_global_header : ℕ
size_of_global_header = 24

abbrev pub size_of_packet_header : ℕ
size_of_packet_header = 16

abbrev pub magic_number : List ℕ → ℕ
magic_number bytes = field_at 0 4 bytes

unfoldable pub packet_header : List ℕ → PcapPacketHeader
packet_header bytes = record {
  ts_sec = field_at 0 4 bytes;
  ts_usec = field_at 4 4 bytes;
  incl_len = field_at 8 4 bytes;
  orig_len = field_at 12 4 bytes;
}

-- The message, if the result is `Valid`.
abbrev pub when_valid : ValidationResult × WireMessage → Option WireMessage
when_valid (valid, m) = some m
when_valid (truncated_header, m) = none
when_valid (unknown_message_type, m) = none
when_valid (length_mismatch, m) = none
when_valid (invalid_side, m) = none
when_valid (invalid_price, m) = none
when_valid (invalid_quantity, m) = none
when_valid (sequence_out_of_order, m) = none

abbrev pub first_of : Option WireMessage → Option WireMessage → Option WireMessage
first_of none other = other
first_of (some m) other = some m

-- The loop over the offsets, by recursion on the bytes from the offset on.
unfoldable pub scan : List ℕ → Option WireMessage
scan [] = none
scan (b ∷ bs) =
    let rest = scan bs in
    if leb size_of_add (length (b ∷ bs))
    then first_of (when_valid (validate_and_parse (some (b ∷ bs)) (length (b ∷ bs)) zeroed)) rest
    else none

unfoldable pub frame_message : List ℕ → Option WireMessage
frame_message pkt_data = if leb size_of_wire (length pkt_data) then scan pkt_data else none

abbrev pub push_found : Option WireMessage → List WireMessage → List WireMessage
push_found none ms = ms
push_found (some m) ms = m ∷ ms

-- `push_back` of what a frame gave in front of what follows.
abbrev pub push_later : Option WireMessage → Option (List WireMessage) → Option (List WireMessage)
push_later found none = none
push_later found (some ms) = some (push_found found ms)

-- The loop over the packets, on fuel; `none` is that the fuel ran out. It ends at a header or a
-- packet that is cut off.
unfoldable pub read_packets : ℕ → List ℕ → Option (List WireMessage)
read_packets zero bytes = none
read_packets (suc fuel) bytes =
    let len = (packet_header bytes).incl_len in
    let pkt_data = drop size_of_packet_header bytes in
    let rest = read_packets fuel (drop len pkt_data) in
    if ltb (length bytes) size_of_packet_header
    then some []
    else if ltb (length pkt_data) len
    then some []
    else push_later (frame_message (take len pkt_data)) rest

abbrev pub or_nothing : Option (List WireMessage) → List WireMessage
or_nothing none = []
or_nothing (some ms) = ms

unfoldable pub read_capture : List ℕ → List WireMessage
read_capture file =
    if leb size_of_global_header (length file)
      && (magic_number file == 2712847316 || magic_number file == 3569595041)
    then or_nothing (read_packets (suc (length file)) (drop size_of_global_header file))
    else []

-- The locals of the loop that makes up messages.
pub record SyntheticFeed : Type 0 where
  pub i : ℕ
  pub seq_no : ℕ
  pub order_id : ℕ

abbrev pub synthetic_start : SyntheticFeed
synthetic_start = record { i = 0; seq_no = 1; order_id = 1000 }

unfoldable pub synthetic_add : SyntheticFeed → AddOrderMsg
synthetic_add s = record {
  msg_type = b'A';
  seq_no = s.seq_no;
  timestamp_ns = s.i * 1000 % 2 ^ 64;
  order_id = s.order_id;
  side = if s.i % 2 == 0 then b'B' else b'S';
  price = pos (10000 + s.i % 20);
  quantity = pos (100 + s.i % 50 * 10);
}

-- An order of some rounds ago.
abbrev pub earlier : SyntheticFeed → ℕ → ℕ
earlier s back = if ltb 1010 s.order_id then s.order_id - back else 1000

unfoldable pub synthetic_cancel : SyntheticFeed → CancelOrderMsg
synthetic_cancel s = record {
  msg_type = b'X';
  seq_no = s.seq_no;
  timestamp_ns = s.i * 1000 % 2 ^ 64;
  order_id = earlier s 5;
  quantity = pos 0;
}

unfoldable pub synthetic_exec : SyntheticFeed → ExecuteOrderMsg
synthetic_exec s = record {
  msg_type = b'E';
  seq_no = s.seq_no;
  timestamp_ns = s.i * 1000 % 2 ^ 64;
  order_id = earlier s 3;
  exec_quantity = pos 50;
  match_price = pos 10005;
}

-- One round; nothing is drawn.
unfoldable pub synthesize : Unit {0} → SyntheticFeed → WireMessage × SyntheticFeed
synthesize d s =
    let s' : SyntheticFeed = record s { i = s.i + 1; seq_no = add64 s.seq_no 1 } in
    if ltb (s.i % 10) 7
    then (of_add (synthetic_add s), record s' { order_id = add64 s.order_id 1 })
    else if ltb (s.i % 10) 9
    then (of_cancel (synthetic_cancel s), s')
    else (of_exec (synthetic_exec s), s')

unfoldable pub synthetic_messages : ℕ → List WireMessage
synthetic_messages n = stream synthesize (replicate n tt) synthetic_start

-- `none` for a file that does not open.
unfoldable pub found_messages : Option (List ℕ) → List WireMessage
found_messages none = []
found_messages (some file) = read_capture file

unfoldable pub messages_to_replay : Option (List ℕ) → List WireMessage
messages_to_replay file =
    if is_empty (found_messages file) then synthetic_messages 50000 else found_messages file

-- The bytes that are sent.
unfoldable pub datagram : WireMessage → List ℕ
datagram m = take (expected_size (msg_type m)) m

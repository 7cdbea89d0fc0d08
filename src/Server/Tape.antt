-- ===== src/Server/Tape.antt =====
-- The tape of recent packets that `consumerThreadFunc` in src/stream_server.cpp keeps.
use native.Mathlib.Nat.{mod-lt}
use quant_feed_handler.Base.{
  ℕ, zero, suc, ◌+◌, ◌%◌, ◌^◌, ◌≤◌, ◌<◌, List, [], ◌∷◌, ◌≡◌, refl, sym, ap, ◌∙◌, length, get_or,
  set, length-set, ◌==◌, if◌then◌else◌, arith,
}
use quant_feed_handler.Base.Arrays.{get_or-set_self, get_or-set_ne}
use quant_feed_handler.Base.Int.{ℤ, pos}
use quant_feed_handler.Base.Window.{mod-ne}
use quant_feed_handler.Protocol.{WireMessage, msg_type, seq_no, timestamp_ns, add, cancel, exec}
use quant_feed_handler.Table.{add64}

pub record PacketRecord : Type 0 where
  pub type : ℕ
  pub seq_no : ℕ
  pub timestamp_ns : ℕ
  pub order_id : ℕ
  pub side : ℕ
  pub price : ℤ
  pub quantity : ℤ

abbrev pub no_packet : PacketRecord
no_packet = record {
  type = 0;
  seq_no = 0;
  timestamp_ns = 0;
  order_id = 0;
  side = 0;
  price = pos 0;
  quantity = pos 0;
}

abbrev pub recent_tape_size : ℕ
recent_tape_size = 30

pub record Tape : Type 0 where
  pub recent : List PacketRecord
  pub head : ℕ

unfoldable pub packet_of : WireMessage → PacketRecord
packet_of m =
    let pkt : PacketRecord = record no_packet {
      type = msg_type m;
      seq_no = seq_no m;
      timestamp_ns = timestamp_ns m;
    } in
    if msg_type m == b'A'
    then record pkt {
      order_id = (add m).order_id;
      side = (add m).side;
      price = (add m).price;
      quantity = (add m).quantity;
    }
    else if msg_type m == b'X'
    then record pkt {
      order_id = (cancel m).order_id;
      side = b'X';
      price = pos 0;
      quantity = (cancel m).quantity;
    }
    else if msg_type m == b'E'
    then record pkt {
      order_id = (exec m).order_id;
      side = b'E';
      price = (exec m).match_price;
      quantity = (exec m).exec_quantity;
    }
    else pkt

unfoldable pub record_message : Tape → WireMessage → Tape
record_message t m = record {
  recent = set t.recent (t.head % recent_tape_size) (packet_of m);
  head = add64 t.head 1;
}

unfoldable pub record_all : Tape → List WireMessage → Tape
record_all t [] = t
record_all t (m ∷ ms) = record_all (record_message t m) ms

-- Fewer than 30 further messages leave a recorded one in its place.
record_all-keeps :
    (ms : List WireMessage) (t : Tape) (k : ℕ)
    → k < t.head
    → t.head + length ms ≤ k + recent_tape_size
    → t.head + length ms < 2 ^ 64
    → get_or (record_all t ms).recent (k % recent_tape_size) no_packet
      ≡ get_or t.recent (k % recent_tape_size) no_packet
unfolding record_all record_message
record_all-keeps [] t k old near small = refl
record_all-keeps (m ∷ ms) t k old near small =
    let apart = mod-ne k t.head recent_tape_size old (omega arith) in
    record_all-keeps ms (record_message t m) k (omega arith) (omega arith) (omega arith)
    ∙ get_or-set_ne t.recent _ _ (packet_of m) no_packet (λ e. apart (sym e))

-- After any messages, each of the last 30 is on the tape, at the place that the count of messages
-- before it gives modulo 30. The tape has 30 places, and the count does not reach 2 ^ 64.
pub record_all-recent :
    (ms : List WireMessage) (t : Tape) (i : ℕ)
    → length t.recent ≡ recent_tape_size
    → i < length ms
    → length ms ≤ i + recent_tape_size
    → t.head + length ms < 2 ^ 64
    → get_or (record_all t ms).recent ((t.head + i) % recent_tape_size) no_packet
      ≡ packet_of (get_or ms i [])
unfolding record_all record_message
record_all-recent [] t i full inside near small = absurd (omega arith)
record_all-recent (k ∷ ms) t zero full inside near small =
    let e : t.head + 0 ≡ t.head = omega arith in
    ap (λ n. get_or (record_all t (k ∷ ms)).recent (n % recent_tape_size) no_packet) e
    ∙ record_all-keeps ms (record_message t k) t.head (omega arith) (omega arith) (omega arith)
    ∙ get_or-set_self t.recent _ (packet_of k) no_packet (rw full (mod-lt t.head (omega arith)))
record_all-recent (k ∷ ms) t (suc i) full inside near small =
    let e : t.head + suc i ≡ add64 t.head 1 + i = omega arith in
    ap (λ n. get_or (record_all t (k ∷ ms)).recent (n % recent_tape_size) no_packet) e
    ∙ record_all-recent ms (record_message t k) i (length-set t.recent _ (packet_of k) ∙ full)
        (omega arith) (omega arith) (omega arith)

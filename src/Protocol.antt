-- ===== src/Protocol.antt =====
-- The wire messages of include/feed_handler/protocol.hpp. A `WireMessage` is its 34 bytes, as the
-- union lays them out (packed, little-endian as on the x86-64 targets); a byte is a number below
-- 256. The members `add`, `cancel` and `exec` are readings of those bytes.
pub mod Roundtrip
use quant_feed_handler.Base.{
  ℕ, zero, suc, ◌+◌, ◌*◌, ◌/◌, ◌%◌, List, [], ◌∷◌, ◌++◌, Bool, false, ◌&&◌, ◌||◌, length, take,
  drop, replicate, ◌==◌, if◌then◌else◌,
}
use quant_feed_handler.Base.Int.{ℤ, pos, ltb_ℤ, leb_ℤ, signed32, pattern32}

pub record AddOrderMsg : Type 0 where
  pub msg_type : ℕ
  pub seq_no : ℕ
  pub timestamp_ns : ℕ
  pub order_id : ℕ
  pub side : ℕ
  pub price : ℤ
  pub quantity : ℤ

pub record CancelOrderMsg : Type 0 where
  pub msg_type : ℕ
  pub seq_no : ℕ
  pub timestamp_ns : ℕ
  pub order_id : ℕ
  pub quantity : ℤ

pub record ExecuteOrderMsg : Type 0 where
  pub msg_type : ℕ
  pub seq_no : ℕ
  pub timestamp_ns : ℕ
  pub order_id : ℕ
  pub exec_quantity : ℤ
  pub match_price : ℤ

abbrev pub WireMessage : Type 0
WireMessage = List ℕ

abbrev pub size_of_add : ℕ
size_of_add = 34

abbrev pub size_of_cancel : ℕ
size_of_cancel = 29

abbrev pub size_of_exec : ℕ
size_of_exec = 33

abbrev pub size_of_wire : ℕ
size_of_wire = 34

-- Little-endian numbers.
abbrev pub of_le : List ℕ → ℕ
of_le [] = 0
of_le (b ∷ bs) = b + 256 * of_le bs

abbrev pub le_bytes : ℕ → ℕ → List ℕ
le_bytes zero v = []
le_bytes (suc n) v = v % 256 ∷ le_bytes n (v / 256)

-- The unsigned number of `width` bytes at an offset.
abbrev pub field_at : ℕ → ℕ → WireMessage → ℕ
field_at offset width m = of_le (take width (drop offset m))

abbrev pub msg_type : WireMessage → ℕ
msg_type m = field_at 0 1 m

unfoldable pub seq_no : WireMessage → ℕ
seq_no m = field_at 1 8 m

unfoldable pub timestamp_ns : WireMessage → ℕ
timestamp_ns m = field_at 9 8 m

unfoldable pub order_id : WireMessage → ℕ
order_id m = field_at 17 8 m

unfoldable pub add : WireMessage → AddOrderMsg
add m = record {
  msg_type = field_at 0 1 m;
  seq_no = field_at 1 8 m;
  timestamp_ns = field_at 9 8 m;
  order_id = field_at 17 8 m;
  side = field_at 25 1 m;
  price = signed32 (field_at 26 4 m);
  quantity = signed32 (field_at 30 4 m);
}

unfoldable pub cancel : WireMessage → CancelOrderMsg
cancel m = record {
  msg_type = field_at 0 1 m;
  seq_no = field_at 1 8 m;
  timestamp_ns = field_at 9 8 m;
  order_id = field_at 17 8 m;
  quantity = signed32 (field_at 25 4 m);
}

unfoldable pub exec : WireMessage → ExecuteOrderMsg
exec m = record {
  msg_type = field_at 0 1 m;
  seq_no = field_at 1 8 m;
  timestamp_ns = field_at 9 8 m;
  order_id = field_at 17 8 m;
  exec_quantity = signed32 (field_at 25 4 m);
  match_price = signed32 (field_at 29 4 m);
}

-- `WireMessage{}` with every field of one member assigned.
unfoldable pub of_add : AddOrderMsg → WireMessage
of_add a =
    le_bytes 1 a.msg_type
    ++ le_bytes 8 a.seq_no
    ++ le_bytes 8 a.timestamp_ns
    ++ le_bytes 8 a.order_id
    ++ le_bytes 1 a.side
    ++ le_bytes 4 (pattern32 a.price)
    ++ le_bytes 4 (pattern32 a.quantity)

unfoldable pub of_cancel : CancelOrderMsg → WireMessage
of_cancel c =
    le_bytes 1 c.msg_type
    ++ le_bytes 8 c.seq_no
    ++ le_bytes 8 c.timestamp_ns
    ++ le_bytes 8 c.order_id
    ++ le_bytes 4 (pattern32 c.quantity)
    ++ replicate 5 0

unfoldable pub of_exec : ExecuteOrderMsg → WireMessage
of_exec e =
    le_bytes 1 e.msg_type
    ++ le_bytes 8 e.seq_no
    ++ le_bytes 8 e.timestamp_ns
    ++ le_bytes 8 e.order_id
    ++ le_bytes 4 (pattern32 e.exec_quantity)
    ++ le_bytes 4 (pattern32 e.match_price)
    ++ replicate 1 0

-- 0 for an unknown type.
unfoldable pub expected_size : ℕ → ℕ
expected_size type =
    if type == b'A'
    then size_of_add
    else if type == b'X'
    then size_of_cancel
    else if type == b'E'
    then size_of_exec
    else 0

unfoldable pub is_valid : WireMessage → Bool
unfolding add cancel exec
is_valid m =
    if msg_type m == b'A'
    then ((add m).side == b'B' || (add m).side == b'S')
      && ltb_ℤ (pos 0) (add m).price
      && ltb_ℤ (pos 0) (add m).quantity
    else if msg_type m == b'X'
    then leb_ℤ (pos 0) (cancel m).quantity
    else if msg_type m == b'E'
    then ltb_ℤ (pos 0) (exec m).exec_quantity && ltb_ℤ (pos 0) (exec m).match_price
    else false

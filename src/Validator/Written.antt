-- ===== src/Validator/Written.antt =====
-- Messages written field by field: their heads, and that they are valid.
use quant_feed_handler.Base.{
  ℕ, ◌^◌, ◌<◌, Bool, true, false, ◌≡◌, refl, ap, length, ◌==◌, ◌&&◌, ◌||◌, not, if◌then◌else◌,
  arith,
}
use quant_feed_handler.Base.Int.{pos, leb_ℤ, ltb_ℤ}
use quant_feed_handler.Protocol.{
  AddOrderMsg, CancelOrderMsg, ExecuteOrderMsg, WireMessage, msg_type, seq_no, add, cancel, exec,
  of_add, of_cancel, of_exec, is_valid,
}
use quant_feed_handler.Protocol.Roundtrip.{
  of_le-le_bytes, IsAdd, IsCancel, IsExec, add-of_add, cancel-of_cancel, exec-of_exec,
}
use quant_feed_handler.Validator.{valid, invalid_price, invalid_quantity, check_fields}
use quant_feed_handler.Validator.Accept.{check_fields-is_valid}

pub seq_no-of_add : (a : AddOrderMsg) → a.seq_no < 2 ^ 64 → seq_no (of_add a) ≡ a.seq_no
unfolding seq_no of_add
seq_no-of_add a h = of_le-le_bytes 8 a.seq_no h

pub written-cancel :
    (c : CancelOrderMsg)
    → c.seq_no < 2 ^ 64
    → c.msg_type ≡ b'X'
    → (seq_no (of_cancel c) ≡ c.seq_no)
      × (length (of_cancel c) ≡ 34)
      × (msg_type (of_cancel c) ≡ b'X')
unfolding seq_no of_cancel
written-cancel c h type = (of_le-le_bytes 8 c.seq_no h, refl, rw type)

pub written-exec :
    (e : ExecuteOrderMsg)
    → IsExec e
    → e.msg_type ≡ b'E'
    → (seq_no (of_exec e) ≡ e.seq_no)
      × (length (of_exec e) ≡ 34)
      × (msg_type (of_exec e) ≡ b'E')
      × ((exec (of_exec e)).exec_quantity ≡ e.exec_quantity)
unfolding seq_no of_exec
written-exec e v type = (
  of_le-le_bytes 8 e.seq_no v.seq_fits,
  refl,
  rw type,
  ap (λ (x : ExecuteOrderMsg). x.exec_quantity) (exec-of_exec e v).0,
)

pub msg_type-of_add : (a : AddOrderMsg) → a.msg_type ≡ b'A' → msg_type (of_add a) ≡ b'A'
unfolding of_add
msg_type-of_add a type = rw type

pub msg_type-of_cancel : (c : CancelOrderMsg) → c.msg_type ≡ b'X' → msg_type (of_cancel c) ≡ b'X'
unfolding of_cancel
msg_type-of_cancel c type = rw type

pub msg_type-of_exec : (e : ExecuteOrderMsg) → e.msg_type ≡ b'E' → msg_type (of_exec e) ≡ b'E'
unfolding of_exec
msg_type-of_exec e type = rw type

ors :
    (p q : Bool)
    → p || q ≡ false
    → (if p then invalid_price else if q then invalid_quantity else valid) ≡ valid
ors p q h = ground arith

sound_fields :
    (m : WireMessage)
    → (msg_type m == b'A') ≡ true
    → not ((add m).side == b'B') && not ((add m).side == b'S') ≡ false
    → leb_ℤ (add m).price (pos 0) || leb_ℤ (add m).quantity (pos 0) ≡ false
    → check_fields (msg_type m) m ≡ valid
unfolding check_fields
sound_fields m type side positive = rw (type, side) (ors _ _ positive)

is_valid-add :
    (m : WireMessage)
    → msg_type m ≡ b'A'
    → not ((add m).side == b'B') && not ((add m).side == b'S') ≡ false
    → leb_ℤ (add m).price (pos 0) || leb_ℤ (add m).quantity (pos 0) ≡ false
    → is_valid m ≡ true
is_valid-add m type side positive =
    let here : (msg_type m == b'A') ≡ true = rw type in
    (check_fields-is_valid m).0 (sound_fields m here side positive)

-- A written order with a side, a price and a quantity is valid.
pub is_valid-of_add :
    (a : AddOrderMsg)
    → IsAdd a
    → a.msg_type ≡ b'A'
    → not (a.side == b'B') && not (a.side == b'S') ≡ false
    → leb_ℤ a.price (pos 0) || leb_ℤ a.quantity (pos 0) ≡ false
    → (msg_type (of_add a) ≡ b'A') × (is_valid (of_add a) ≡ true)
is_valid-of_add a v type side positive =
    let e = (add-of_add a v).0 in
    let head : msg_type (of_add a) ≡ b'A' = msg_type-of_add a type in
    (head, is_valid-add (of_add a) head (rw e side) (rw e positive))

is_valid-cancel :
    (m : WireMessage)
    → msg_type m ≡ b'X'
    → leb_ℤ (pos 0) (cancel m).quantity ≡ true
    → is_valid m ≡ true
unfolding is_valid
is_valid-cancel m type h = rw type h

is_valid-exec :
    (m : WireMessage)
    → msg_type m ≡ b'E'
    → ltb_ℤ (pos 0) (exec m).exec_quantity && ltb_ℤ (pos 0) (exec m).match_price ≡ true
    → is_valid m ≡ true
unfolding is_valid
is_valid-exec m type h = rw type h

-- A message of this sequence number that is valid.
abbrev pub Good : ℕ → WireMessage → Type 0
Good seq m = (seq_no m ≡ seq) × (is_valid m ≡ true)

pub of_add-Good :
    (a : AddOrderMsg)
    → IsAdd a
    → a.msg_type ≡ b'A'
    → not (a.side == b'B') && not (a.side == b'S') ≡ false
    → leb_ℤ a.price (pos 0) || leb_ℤ a.quantity (pos 0) ≡ false
    → Good a.seq_no (of_add a)
of_add-Good a v type side positive =
    (seq_no-of_add a v.seq_fits, (is_valid-of_add a v type side positive).1)

pub of_cancel-Good :
    (c : CancelOrderMsg)
    → IsCancel c
    → c.msg_type ≡ b'X'
    → leb_ℤ (pos 0) c.quantity ≡ true
    → Good c.seq_no (of_cancel c)
of_cancel-Good c v type h =
    let w = written-cancel c v.seq_fits type in
    let e = (cancel-of_cancel c v).0 in (w.0, is_valid-cancel (of_cancel c) w.2 (rw e h))

pub of_exec-Good :
    (e : ExecuteOrderMsg)
    → IsExec e
    → e.msg_type ≡ b'E'
    → ltb_ℤ (pos 0) e.exec_quantity && ltb_ℤ (pos 0) e.match_price ≡ true
    → Good e.seq_no (of_exec e)
of_exec-Good e v type h =
    let w = written-exec e v type in
    let same = (exec-of_exec e v).0 in (w.0, is_valid-exec (of_exec e) w.2 (rw same h))

-- ===== src/Protocol/Roundtrip.antt =====
-- Each member written to the wire is read back, and the shared header fields do not depend on the
-- member.
use native.Mathlib.Nat.{pow-suc}
use quant_feed_handler.Base.{ℕ, zero, suc, ◌/◌, ◌^◌, ◌<◌, ◌≡◌, refl, length, arith}
use quant_feed_handler.Base.Int.{ℤ, IsInt32, signed32, pattern32, signed32-pattern32, pattern32-lt}
use quant_feed_handler.Protocol.{
  AddOrderMsg, CancelOrderMsg, ExecuteOrderMsg, of_le, le_bytes, seq_no, timestamp_ns, order_id,
  add, cancel, exec, of_add, of_cancel, of_exec,
}

pub of_le-le_bytes : (n v : ℕ) → v < 256 ^ n → of_le (le_bytes n v) ≡ v
of_le-le_bytes zero v h = omega arith
of_le-le_bytes (suc n) v h =
    omega (arith, of_le-le_bytes n (v / 256) (omega (arith, pow-suc 256 n)))

of_le-pattern32 : (a : ℤ) → IsInt32 a → signed32 (of_le (le_bytes 4 (pattern32 a))) ≡ a
of_le-pattern32 a h = rw (of_le-le_bytes 4 (pattern32 a) (pattern32-lt a)) (signed32-pattern32 a h)

-- The fields fit the widths of the struct.
pub record IsAdd (a : AddOrderMsg) : Type 0 where
  pub type_fits : a.msg_type < 256
  pub seq_fits : a.seq_no < 2 ^ 64
  pub time_fits : a.timestamp_ns < 2 ^ 64
  pub id_fits : a.order_id < 2 ^ 64
  pub side_fits : a.side < 256
  pub price_fits : IsInt32 a.price
  pub quantity_fits : IsInt32 a.quantity

pub record IsCancel (c : CancelOrderMsg) : Type 0 where
  pub type_fits : c.msg_type < 256
  pub seq_fits : c.seq_no < 2 ^ 64
  pub time_fits : c.timestamp_ns < 2 ^ 64
  pub id_fits : c.order_id < 2 ^ 64
  pub quantity_fits : IsInt32 c.quantity

pub record IsExec (e : ExecuteOrderMsg) : Type 0 where
  pub type_fits : e.msg_type < 256
  pub seq_fits : e.seq_no < 2 ^ 64
  pub time_fits : e.timestamp_ns < 2 ^ 64
  pub id_fits : e.order_id < 2 ^ 64
  pub quantity_fits : IsInt32 e.exec_quantity
  pub price_fits : IsInt32 e.match_price

-- Reading `add` gives back the fields that were written, when each fits its width, and the message
-- has 34 bytes.
pub add-of_add : (a : AddOrderMsg) → IsAdd a → (add (of_add a) ≡ a) × (length (of_add a) ≡ 34)
unfolding add of_add
add-of_add a v = (
  λ i. record {
    msg_type = of_le-le_bytes 1 a.msg_type v.type_fits i;
    seq_no = of_le-le_bytes 8 a.seq_no v.seq_fits i;
    timestamp_ns = of_le-le_bytes 8 a.timestamp_ns v.time_fits i;
    order_id = of_le-le_bytes 8 a.order_id v.id_fits i;
    side = of_le-le_bytes 1 a.side v.side_fits i;
    price = of_le-pattern32 a.price v.price_fits i;
    quantity = of_le-pattern32 a.quantity v.quantity_fits i;
  },
  refl,
)

-- Reading `cancel` gives back the fields that were written, when each fits its width, and the
-- message has 34 bytes.
pub cancel-of_cancel :
    (c : CancelOrderMsg) → IsCancel c → (cancel (of_cancel c) ≡ c) × (length (of_cancel c) ≡ 34)
unfolding cancel of_cancel
cancel-of_cancel c v = (
  λ i. record {
    msg_type = of_le-le_bytes 1 c.msg_type v.type_fits i;
    seq_no = of_le-le_bytes 8 c.seq_no v.seq_fits i;
    timestamp_ns = of_le-le_bytes 8 c.timestamp_ns v.time_fits i;
    order_id = of_le-le_bytes 8 c.order_id v.id_fits i;
    quantity = of_le-pattern32 c.quantity v.quantity_fits i;
  },
  refl,
)

-- Reading `exec` gives back the fields that were written, when each fits its width, and the message
-- has 34 bytes.
pub exec-of_exec :
    (e : ExecuteOrderMsg) → IsExec e → (exec (of_exec e) ≡ e) × (length (of_exec e) ≡ 34)
unfolding exec of_exec
exec-of_exec e v = (
  λ i. record {
    msg_type = of_le-le_bytes 1 e.msg_type v.type_fits i;
    seq_no = of_le-le_bytes 8 e.seq_no v.seq_fits i;
    timestamp_ns = of_le-le_bytes 8 e.timestamp_ns v.time_fits i;
    order_id = of_le-le_bytes 8 e.order_id v.id_fits i;
    exec_quantity = of_le-pattern32 e.exec_quantity v.quantity_fits i;
    match_price = of_le-pattern32 e.match_price v.price_fits i;
  },
  refl,
)

-- `seqNo()`, `timestampNs()` and `orderId()` read through `add`, and give the fields of
-- cancellations and of executions too, when their fields fit their widths.
pub header_shared :
    (c : CancelOrderMsg) (e : ExecuteOrderMsg)
    → IsCancel c
    → IsExec e
    → (seq_no (of_cancel c) ≡ c.seq_no)
      × (timestamp_ns (of_cancel c) ≡ c.timestamp_ns)
      × (order_id (of_cancel c) ≡ c.order_id)
      × (seq_no (of_exec e) ≡ e.seq_no)
      × (timestamp_ns (of_exec e) ≡ e.timestamp_ns)
      × (order_id (of_exec e) ≡ e.order_id)
unfolding seq_no timestamp_ns order_id of_cancel of_exec
header_shared c e v w = (
  of_le-le_bytes 8 c.seq_no v.seq_fits,
  of_le-le_bytes 8 c.timestamp_ns v.time_fits,
  of_le-le_bytes 8 c.order_id v.id_fits,
  of_le-le_bytes 8 e.seq_no w.seq_fits,
  of_le-le_bytes 8 e.timestamp_ns w.time_fits,
  of_le-le_bytes 8 e.order_id w.id_fits,
)

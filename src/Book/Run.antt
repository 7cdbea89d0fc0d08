-- ===== src/Book/Run.antt =====
-- Runs of messages from an empty book.
use quant_feed_handler.Base.{
  ℕ, zero, suc, ◌+◌, ◌≤◌, ◌<◌, ◌-◌, ◌^◌, List, [], ◌∷◌, Option, none, some, ◌≡◌, refl, sym, ap, ◌∙◌,
  inl, inr, length, get_or, length-set, replicate, length-replicate, ◌==◌, Bool-cases, Option-cases,
  arith,
}
use quant_feed_handler.Base.Arrays.{get_or-replicate}
use quant_feed_handler.Book.{
  LimitOrderBook, reset, added, process_add, store_record, cancel_record, process_cancel,
  execute_record, process_execute, check_sequence, dispatch, process_message, process_all,
}
use quant_feed_handler.Book.Refine.{
  Models, HasRoom, order_table-apply_side, check_sequence-order_table, process_message-Models,
}
use quant_feed_handler.Book.Spec.{OrderMap, step}
use quant_feed_handler.Ladder.{empty_level}
use quant_feed_handler.Protocol.{
  AddOrderMsg, CancelOrderMsg, ExecuteOrderMsg, WireMessage, msg_type, seq_no, add, cancel, exec,
}
use quant_feed_handler.Table.{OrderRecord, blank, OrderTable, clear, lookup}
use quant_feed_handler.Table.Count.{UsedExact, count_if, is_used, Grown, insert-Grown}
use quant_feed_handler.Table.Refine.{IsTable, find}
use quant_feed_handler.Table.Update.{lookup-Points}

-- What a handler may do to the size of the order table.
record Kept (book book' : LimitOrderBook) : Type 0 where
  same_capacity : length (book'.order_table).table ≡ length (book.order_table).table
  at_most_one : (book'.order_table).occupied_count ≤ (book.order_table).occupied_count + 1

Kept-store_record :
    (book book' : LimitOrderBook) (i : ℕ) (r : OrderRecord)
    → book'.order_table ≡ book.order_table
    → Kept book (store_record book' i r)
unfolding store_record
Kept-store_record book book' i r e = record {
  same_capacity =
      length-set (book'.order_table).table i r ∙ ap (λ (o : OrderTable). length o.table) e;
  at_most_one = ground arith;
}

process_cancel-Kept :
    (book : LimitOrderBook) (m : CancelOrderMsg) → Kept book (process_cancel book m)
unfolding process_cancel cancel_record
process_cancel-Kept book m = elim (Option-cases (lookup (book.order_table) m.order_id)) [
  | inl absent ↦
      rw (absent, process_cancel) (record { same_capacity = refl; at_most_one = omega arith })
  | inr (i, e) ↦
      let r = get_or (book.order_table).table i blank in
      rw (e, process_cancel)
        (elim (Bool-cases r.cancelled) [
          | inl gone ↦ rw gone (record { same_capacity = refl; at_most_one = omega arith })
          | inr live ↦
              rw live
                (Kept-store_record book _ i _ (order_table-apply_side book r.side r.price _ _))
        ])
]

process_execute-Kept :
    (book : LimitOrderBook) (m : ExecuteOrderMsg) → Kept book (process_execute book m)
unfolding process_execute execute_record
process_execute-Kept book m = elim (Option-cases (lookup (book.order_table) m.order_id)) [
  | inl absent ↦
      rw (absent, process_execute) (record { same_capacity = refl; at_most_one = omega arith })
  | inr (i, e) ↦
      let r = get_or (book.order_table).table i blank in
      rw (e, process_execute)
        (elim (Bool-cases r.cancelled) [
          | inl gone ↦ rw gone (record { same_capacity = refl; at_most_one = omega arith })
          | inr live ↦
              rw live (Kept-store_record book _ i _ (order_table-apply_side _ r.side r.price _ _))
        ])
]

added-Kept :
    (book : LimitOrderBook) (m : AddOrderMsg) (p : Option ℕ × OrderTable)
    → Grown m.order_id m.side m.price m.quantity m.timestamp_ns (book.order_table) p.1
    → Kept book (added book m p)
unfolding added
added-Kept book m (none, o') g = record {
  same_capacity = g.same_capacity;
  at_most_one = g.at_most_one;
}
added-Kept book m (some i, o') g =
    let same =
      order_table-apply_side (record book { order_table = o' }) m.side m.price m.quantity _ in
    record {
      same_capacity = ap (λ (o : OrderTable). length o.table) same ∙ g.same_capacity;
      at_most_one = rw same (g.at_most_one);
    }

dispatch-Kept :
    (book : LimitOrderBook) (m : WireMessage)
    → IsTable (book.order_table)
    → UsedExact (book.order_table)
    → Kept book (dispatch book m)
unfolding dispatch process_add
dispatch-Kept book m v u = elim (Bool-cases (msg_type m == b'A')) [
  | inl a ↦ rw a (
      added-Kept book (add m) _ (
        insert-Grown (add m).order_id (add m).side (add m).price (add m).quantity
          (add m).timestamp_ns (book.order_table) v u))
  | inr a ↦ rw a (elim (Bool-cases (msg_type m == b'X')) [
    | inl x ↦ rw x (process_cancel-Kept book (cancel m))
    | inr x ↦ rw x (elim (Bool-cases (msg_type m == b'E')) [
      | inl e ↦ rw e (process_execute-Kept book (exec m))
      | inr e ↦ rw e (record { same_capacity = refl; at_most_one = omega arith })
    ])
  ])
]

-- A message takes up the room of at most one order.
process_message-HasRoom :
    (book : LimitOrderBook) (m : WireMessage) (n : ℕ)
    → IsTable (book.order_table)
    → UsedExact (book.order_table)
    → HasRoom book (suc n)
    → HasRoom (process_message book m) n
unfolding process_message
process_message-HasRoom book m n v u room =
    let same = check_sequence-order_table book (seq_no m) in
    let kept = dispatch-Kept (check_sequence book (seq_no m)) m (rw same v) (rw same u) in
    let cap : length ((check_sequence book (seq_no m)).order_table).table
        ≡ length (book.order_table).table =
      rw same in
    let occ : ((check_sequence book (seq_no m)).order_table).occupied_count
        ≡ (book.order_table).occupied_count =
      rw same in
    omega (arith, kept.same_capacity, kept.at_most_one)

unfoldable pub steps : ℕ → OrderMap → List WireMessage → OrderMap
steps depth s [] = s
steps depth s (m ∷ ms) = steps depth (step depth s m) ms

process_all-Models :
    (depth : ℕ)
    → 0 < depth
    → (ms : List WireMessage) (book : LimitOrderBook) (s : OrderMap) → Models depth book s
    → HasRoom book (length ms)
    → Models depth (process_all book ms) (steps depth s ms)
unfolding process_all steps
process_all-Models depth some_depth [] book s v room = v
process_all-Models depth some_depth (m ∷ ms) book s v room =
    process_all-Models depth some_depth ms (process_message book m) (step depth s m)
      (process_message-Models depth some_depth book s m v (omega arith))
      (process_message-HasRoom book m (length ms) v.table v.used room)

abbrev pub no_orders : OrderMap
no_orders = record { orders = λ q. none; bids = []; asks = [] }

count_if-replicate : (n : ℕ) → count_if is_used (replicate n blank) ≡ 0
unfolding count_if
count_if-replicate zero = refl
count_if-replicate (suc n) = omega (arith, count_if-replicate n)

-- A table of the given capacity with nothing in it.
pub clear-IsTable : (k : ℕ) → 2 ^ k ≤ 2 ^ 63 → IsTable (clear (2 ^ k))
unfolding clear
clear-IsTable k small = record {
  bits = k;
  power = length-replicate (2 ^ k) blank;
  small = rw (length-replicate (2 ^ k) blank) small;
  placed = λ i h used. absurd (cc (rw (get_or-replicate (2 ^ k) i blank) at used));
}

find-clear : (k : ℕ) → 2 ^ k ≤ 2 ^ 63 → (q : ℕ) → find (clear (2 ^ k)) q ≡ none
unfolding find clear
find-clear k small q = elim (Option-cases (lookup (clear (2 ^ k)) q)) [
  | inl absent ↦ rw absent
  | inr (i, e) ↦
      let p = lookup-Points (clear (2 ^ k)) q i (clear-IsTable k small) e in
      absurd (cc (rw (get_or-replicate (2 ^ k) i blank) at p.used))
]

pub replicate_sub_zero :
    (depth : ℕ) → replicate depth empty_level ≡ replicate (depth - 0) empty_level
replicate_sub_zero depth = let e : depth - 0 ≡ depth = omega arith in rw e

pub reset-Models : (depth k : ℕ) → 2 ^ k ≤ 2 ^ 63 → Models depth (reset depth (2 ^ k)) no_orders
unfolding reset
reset-Models depth k small = record {
  table = clear-IsTable k small;
  used = unfold clear in sym (count_if-replicate (2 ^ k));
  orders = find-clear k small;
  bids = record { ladder = tt; fits = omega arith; shown = replicate_sub_zero depth };
  asks = record { ladder = tt; fits = omega arith; shown = replicate_sub_zero depth };
}

-- From an empty book, any sequence of at most as many messages as the table has slots gives the
-- book that the abstract steps describe: the same orders, and arrays that show exactly the
-- abstract ladders. The book has at least one level, and the capacity is a power of two up to
-- 2 ^ 63.
pub run_refines :
    (depth k : ℕ) (ms : List WireMessage)
    → 0 < depth
    → 2 ^ k ≤ 2 ^ 63
    → length ms ≤ 2 ^ k
    → Models depth (process_all (reset depth (2 ^ k)) ms) (steps depth no_orders ms)
run_refines depth k ms some_depth small room =
    process_all-Models depth some_depth ms (reset depth (2 ^ k)) no_orders
      (reset-Models depth k small)
      (unfold reset clear in omega (arith, length-replicate (2 ^ k) blank))

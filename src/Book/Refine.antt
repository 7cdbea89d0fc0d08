-- ===== src/Book/Refine.antt =====
-- The book implements the abstract one: each handler, and any run of messages.
use quant_feed_handler.Base.{
  ℕ, ◌+◌, ◌≤◌, ◌<◌, List, Option, none, some, Bool, true, false, ◌≡◌, refl, sym, ◌∙◌, inl, inr,
  length, get_or, take, length-take, ltb, ◌&&◌, not, ◌==◌, Bool-cases, Option-cases, arith,
}
use quant_feed_handler.Base.Int.{ℤ, pos}
use quant_feed_handler.Book.{
  LimitOrderBook, apply_side, added, process_add, store_record, cancel_record, process_cancel,
  execute_record, process_execute, check_sequence, dispatch, process_message, remaining,
  with_quantity,
}
use quant_feed_handler.Book.Spec.{
  OrderMap, put, shift, add_order, cancel_order, execute_order, step,
}
use quant_feed_handler.Ladder.Refine.{apply_delta-refines}
use quant_feed_handler.Ladder.Spec.{IsLadder, pad, apply}
use quant_feed_handler.Ladder.Stable.{IsLadder-take, apply-IsLadder}
use quant_feed_handler.Ladder.{PriceLevel, apply_delta}
use quant_feed_handler.Protocol.{
  AddOrderMsg, CancelOrderMsg, ExecuteOrderMsg, WireMessage, msg_type, seq_no, add, cancel, exec,
}
use quant_feed_handler.Table.{OrderRecord, blank, OrderTable, add64, filled, lookup}
use quant_feed_handler.Table.Count.{UsedExact, set-UsedExact, insert-Grown, count_if_all}
use quant_feed_handler.Table.Refine.{IsTable, find, InsertOutcome, insert-InsertOutcome}
use quant_feed_handler.Table.Update.{lookup-Points, update-Updated}

-- The array shows exactly this ladder.
pub record Shows (asc : Bool) (depth : ℕ) (levels rungs : List PriceLevel) : Type 0 where
  pub ladder : IsLadder asc rungs
  pub fits : length rungs ≤ depth
  pub shown : levels ≡ pad depth rungs

-- The concrete book stands for the abstract one.
pub record Models (depth : ℕ) (book : LimitOrderBook) (s : OrderMap) : Type 0 where
  pub table : IsTable (book.order_table)
  pub used : UsedExact (book.order_table)
  pub orders : (q : ℕ) → find (book.order_table) q ≡ s.orders q
  pub bids : Shows false depth book.bids s.bids
  pub asks : Shows true depth book.asks s.asks

-- Room for so many more orders.
abbrev pub HasRoom : LimitOrderBook → ℕ → Type 0
HasRoom book n = (book.order_table).occupied_count + n ≤ length (book.order_table).table

-- A handler keeps the order table when it changes a ladder.
pub order_table-apply_side :
    (book : LimitOrderBook) (side : ℕ) (price qty_delta order_delta : ℤ)
    → (apply_side book side price qty_delta order_delta).order_table ≡ book.order_table
unfolding apply_side
order_table-apply_side book side price qty_delta order_delta = ground arith

pub check_sequence-order_table :
    (book : LimitOrderBook) (seq : ℕ) → (check_sequence book seq).order_table ≡ book.order_table
unfolding check_sequence
check_sequence-order_table book seq = ground arith

pub keys-with_quantity :
    (r : OrderRecord) (q : ℤ) (gone : Bool)
    → ((with_quantity r q gone).occupied ≡ r.occupied)
      × ((with_quantity r q gone).order_id ≡ r.order_id)
unfolding with_quantity
keys-with_quantity r q gone = ground arith

module _ (depth : ℕ) (some_depth : 0 < depth) where
  apply_delta-Shows :
      (asc : Bool) (price qty_delta order_delta : ℤ) (levels rungs : List PriceLevel)
      → Shows asc depth levels rungs
      → Shows asc depth
          (apply_delta levels price qty_delta order_delta asc)
          (take depth (apply asc price qty_delta order_delta rungs))
  apply_delta-Shows asc price qty_delta order_delta levels rungs s = record {
    ladder =
        IsLadder-take asc depth _ (apply-IsLadder asc price qty_delta order_delta rungs s.ladder);
    fits = omega (arith, length-take depth (apply asc price qty_delta order_delta rungs));
    shown = rw s.shown (
        apply_delta-refines asc price qty_delta order_delta depth rungs s.ladder s.fits some_depth);
  }

  apply_side-Models :
      (book : LimitOrderBook) (s : OrderMap) (side : ℕ) (price qty_delta order_delta : ℤ)
      → Models depth book s
      → Models depth
          (apply_side book side price qty_delta order_delta)
          (shift depth s side price qty_delta order_delta)
  unfolding apply_side shift
  apply_side-Models book s side price qty_delta order_delta m = elim (Bool-cases (side == b'B')) [
    | inl bid ↦ rw bid (record {
      table = m.table;
      used = m.used;
      orders = m.orders;
      bids = apply_delta-Shows false price qty_delta order_delta book.bids s.bids m.bids;
      asks = m.asks;
    })
    | inr ask ↦ rw ask (record {
      table = m.table;
      used = m.used;
      orders = m.orders;
      bids = m.bids;
      asks = apply_delta-Shows true price qty_delta order_delta book.asks s.asks m.asks;
    })
  ]

  store_record-Models :
      (book : LimitOrderBook) (s : OrderMap) (id i : ℕ) (r : OrderRecord)
      → Models depth book s
      → lookup (book.order_table) id ≡ some i
      → r.occupied ≡ (get_or (book.order_table).table i blank).occupied
      → r.order_id ≡ (get_or (book.order_table).table i blank).order_id
      → Models depth (store_record book i r) (put id r s)
  unfolding store_record
  store_record-Models book s id i r m e used same =
      let u = update-Updated (book.order_table) id i r m.table e used same _ refl in
      let p = lookup-Points (book.order_table) id i m.table e in
      record {
        table = u.valid;
        used = set-UsedExact (book.order_table) i r p.inside used m.used;
        orders = λ q. u.finds q ∙ rw (m.orders q);
        bids = m.bids;
        asks = m.asks;
      }

  -- The common end of the two handlers: the ladder moves, and the record takes its new quantity.
  settle-Models :
      (book : LimitOrderBook) (s : OrderMap) (id i : ℕ) (q qty_delta order_delta : ℤ) (gone : Bool)
      → Models depth book s
      → lookup (book.order_table) id ≡ some i
      → let r = get_or (book.order_table).table i blank in
        Models depth
          (store_record
            (apply_side book r.side r.price qty_delta order_delta)
            i
            (with_quantity r q gone))
          (put id (with_quantity r q gone) (shift depth s r.side r.price qty_delta order_delta))
  settle-Models book s id i q qty_delta order_delta gone m e =
      let r = get_or (book.order_table).table i blank in
      let moved = apply_side-Models book s r.side r.price qty_delta order_delta m in
      let same = order_table-apply_side book r.side r.price qty_delta order_delta in
      store_record-Models (apply_side book r.side r.price qty_delta order_delta)
        (shift depth s r.side r.price qty_delta order_delta) id i (with_quantity r q gone) moved
        (rw same e) (rw same (keys-with_quantity r q gone).0)
        (rw same (keys-with_quantity r q gone).1)

  process_cancel-Models :
      (book : LimitOrderBook) (s : OrderMap) (m : CancelOrderMsg)
      → Models depth book s
      → Models depth (process_cancel book m) (cancel_order depth s m)
  unfolding process_cancel cancel_order find cancel_record
  process_cancel-Models book s m v = elim (Option-cases (lookup (book.order_table) m.order_id)) [
    | inl absent ↦
        let none_here : s.orders m.order_id ≡ none = sym (v.orders m.order_id) ∙ rw absent in
        rw (absent, process_cancel, none_here, cancel_order) v
    | inr (i, e) ↦
        let r = get_or (book.order_table).table i blank in
        let here : s.orders m.order_id ≡ some r = sym (v.orders m.order_id) ∙ rw e in
        rw (e, process_cancel, here, cancel_order)
          (elim (Bool-cases r.cancelled) [
            | inl gone ↦ rw gone v
            | inr live ↦ rw live (settle-Models book s m.order_id i m.quantity _ _ _ v e)
          ])
  ]

  process_execute-Models :
      (book : LimitOrderBook) (s : OrderMap) (m : ExecuteOrderMsg)
      → Models depth book s
      → Models depth (process_execute book m) (execute_order depth s m)
  unfolding process_execute execute_order find execute_record
  process_execute-Models book s m v =
      let book' : LimitOrderBook = record book {
        trades_executed_count = add64 book.trades_executed_count 1;
      } in
      let v' : Models depth book' s = record {
        table = v.table;
        used = v.used;
        orders = v.orders;
        bids = v.bids;
        asks = v.asks;
      } in
      elim (Option-cases (lookup (book.order_table) m.order_id)) [
        | inl absent ↦
            let none_here : s.orders m.order_id ≡ none = sym (v.orders m.order_id) ∙ rw absent in
            rw (absent, process_execute, none_here, execute_order) v'
        | inr (i, e) ↦
            let r = get_or (book.order_table).table i blank in
            let here : s.orders m.order_id ≡ some r = sym (v.orders m.order_id) ∙ rw e in
            rw (e, process_execute, here, execute_order)
              (elim (Bool-cases r.cancelled) [
                | inl gone ↦ rw gone v'
                | inr live ↦ rw live (
                    settle-Models book' s m.order_id i (remaining r.quantity m.exec_quantity) _ _ _
                      v' e)
              ])
      ]

  added-Models :
      (book : LimitOrderBook) (s : OrderMap) (m : AddOrderMsg) (p : Option ℕ × OrderTable)
      → Models depth book s
      → HasRoom book 1
      → InsertOutcome m.order_id m.side m.price m.quantity m.timestamp_ns (book.order_table) p
      → UsedExact p.1
      → Models depth (added book m p) (add_order depth s m)
  unfolding added add_order
  added-Models book s m (none, o') v room (same, taken) used =
      absurd
        (omega (arith, count_if_all (book.order_table).table (λ j h. (taken j h).0), v.used, room))
  added-Models book s m (some i, o') v room ins used =
      apply_side-Models (record book { order_table = o' })
        (put m.order_id (filled m.order_id m.side m.price m.quantity m.timestamp_ns) s) m.side
        m.price m.quantity (pos 1)
        (record {
          table = ins.valid;
          used = used;
          orders = λ q. ins.finds q ∙ rw (v.orders q);
          bids = v.bids;
          asks = v.asks;
        })

  process_add-Models :
      (book : LimitOrderBook) (s : OrderMap) (m : AddOrderMsg)
      → Models depth book s
      → HasRoom book 1
      → Models depth (process_add book m) (add_order depth s m)
  unfolding process_add
  process_add-Models book s m v room =
      let o = book.order_table in
      added-Models book s m _ v room
        (insert-InsertOutcome m.order_id m.side m.price m.quantity m.timestamp_ns o v.table)
        (insert-Grown m.order_id m.side m.price m.quantity m.timestamp_ns o v.table v.used).used

  dispatch-Models :
      (book : LimitOrderBook) (s : OrderMap) (m : WireMessage)
      → Models depth book s
      → HasRoom book 1
      → Models depth (dispatch book m) (step depth s m)
  unfolding dispatch step
  dispatch-Models book s m v room = elim (Bool-cases (msg_type m == b'A')) [
    | inl a ↦ rw a (process_add-Models book s (add m) v room)
    | inr a ↦ rw a (elim (Bool-cases (msg_type m == b'X')) [
      | inl x ↦ rw x (process_cancel-Models book s (cancel m) v)
      | inr x ↦ rw x (elim (Bool-cases (msg_type m == b'E')) [
        | inl e ↦ rw e (process_execute-Models book s (exec m) v)
        | inr e ↦ rw e v
      ])
    ])
  ]

  check_sequence-Models :
      (book : LimitOrderBook) (s : OrderMap) (seq : ℕ)
      → Models depth book s
      → Models depth (check_sequence book seq) s
  unfolding check_sequence
  check_sequence-Models book s seq v =
      elim (Bool-cases (ltb 0 book.expected_seq_no && not (seq == book.expected_seq_no))) [
        | inl b ↦ rw b (record {
          table = v.table;
          used = v.used;
          orders = v.orders;
          bids = v.bids;
          asks = v.asks;
        })
        | inr b ↦ rw b (record {
          table = v.table;
          used = v.used;
          orders = v.orders;
          bids = v.bids;
          asks = v.asks;
        })
      ]

  -- A message takes a book that stands for an abstract one, with room for one more order, to a
  -- book that stands for what the abstract step gives. The book has at least one level.
  pub process_message-Models :
      (book : LimitOrderBook) (s : OrderMap) (m : WireMessage)
      → Models depth book s
      → HasRoom book 1
      → Models depth (process_message book m) (step depth s m)
  unfolding process_message
  process_message-Models book s m v room =
      let same = check_sequence-order_table book (seq_no m) in
      dispatch-Models (check_sequence book (seq_no m)) s m
        (check_sequence-Models book s (seq_no m) v) (rw same room)

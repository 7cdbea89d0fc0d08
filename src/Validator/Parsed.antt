-- ===== src/Validator/Parsed.antt =====
-- The messages that lines of user input give.
use quant_feed_handler.Base.{
  ℕ, ◌-◌, ◌^◌, ◌<◌, List, [], ◌∷◌, Bool, true, false, ◌≡◌, ◌⊎◌, refl, inl, inr, length, get_or, ltb,
  leb, ◌==◌, ◌&&◌, ◌||◌, not, Bool-cases, arith,
}
use quant_feed_handler.Base.Int.{ℤ, pos, ◌<ℤ◌, leb_ℤ, IsInt32, wrap32-IsInt32}
use quant_feed_handler.Protocol.{WireMessage, msg_type, seq_no, exec, is_valid}
use quant_feed_handler.Protocol.Roundtrip.{IsAdd, add-of_add}
use quant_feed_handler.Validator.Line.{
  Text, Library, is_ignored, skip_order, tokenize, price_ticks, to_int32, parse_add, parse_cancel,
  executed, parse_execute, parse_typed, parse_tokens, parse_user_line,
}
use quant_feed_handler.Validator.Written.{
  seq_no-of_add, written-cancel, written-exec, is_valid-of_add,
}

-- The library's unsigned results have 64 bits.
pub record Fits (lib : Library) : Type 0 where
  pub id_fits : (s : Text) → lib.strtoull s < 2 ^ 64
  pub time_fits : lib.now_ns < 2 ^ 64

-- What a line gives when it is taken.
abbrev pub Sound : WireMessage → Type 0
Sound m =
    ((msg_type m ≡ b'A') × (is_valid m ≡ true))
    ⊎ ((msg_type m ≡ b'X') ⊎ ((msg_type m ≡ b'E') × (pos 0 <ℤ (exec m).exec_quantity)))

abbrev pub Parsed : ℕ → Bool × WireMessage → Type 0
Parsed seq (false, m) = Unit
Parsed seq (true, m) = (seq_no m ≡ seq) × (length m ≡ 34) × Sound m

price_ticks-IsInt32 : (lib : Library) (s : Text) → IsInt32 (price_ticks lib s)
unfolding price_ticks
price_ticks-IsInt32 lib s =
    ground (arith, wrap32-IsInt32 (lib.cents s), wrap32-IsInt32 (lib.strtol s))

module _ (lib : Library) (f : Fits lib) (seq : ℕ) (small : seq < 2 ^ 64) where
  parse_add-Parsed : (args : List Text) → Parsed seq (parse_add lib args seq)
  unfolding parse_add
  parse_add-Parsed args =
      let side = lib.toupper (get_or (get_or args 1 []) 0 0) in
      let price = price_ticks lib (get_or args 2 []) in
      let qty = to_int32 lib (get_or args 3 []) in
      elim (Bool-cases (ltb (length args) 4)) [
        | inl few ↦ rw few tt
        | inr enough ↦ rw enough (elim (Bool-cases (not (side == b'B') && not (side == b'S'))) [
          | inl no_side ↦ rw no_side tt
          | inr sided ↦ rw sided (elim (Bool-cases (leb_ℤ price (pos 0) || leb_ℤ qty (pos 0))) [
            | inl low ↦ rw low tt
            | inr positive ↦
                let v : IsAdd (record {
                  msg_type = b'A';
                  seq_no = seq;
                  timestamp_ns = lib.now_ns;
                  order_id = lib.strtoull (get_or args 0 []);
                  side = side;
                  price = price;
                  quantity = qty;
                }) =
                  record {
                    type_fits = omega arith;
                    seq_fits = small;
                    time_fits = f.time_fits;
                    id_fits = f.id_fits _;
                    side_fits = ground (arith, sided);
                    price_fits = price_ticks-IsInt32 lib _;
                    quantity_fits = wrap32-IsInt32 _;
                  } in
                rw positive (
                  seq_no-of_add _ small,
                  (add-of_add _ v).1,
                  inl (is_valid-of_add _ v refl sided positive),
                )
          ])
        ])
      ]

  parse_cancel-Parsed : (args : List Text) → Parsed seq (parse_cancel lib args seq)
  unfolding parse_cancel
  parse_cancel-Parsed args = elim (Bool-cases (ltb (length args) 1)) [
    | inl few ↦ rw few tt
    | inr enough ↦
        (let w =
            written-cancel
              (record {
                msg_type = b'X';
                seq_no = seq;
                timestamp_ns = lib.now_ns;
                order_id = lib.strtoull (get_or args 0 []);
                quantity = _;
              })
              small refl in
          rw enough (w.0, w.1, inr (inl w.2)))
  ]

  executed-Parsed :
      (args : List Text) (price qty : ℤ)
      → IsInt32 price
      → IsInt32 qty
      → Parsed seq (executed lib args seq price qty)
  unfolding executed
  executed-Parsed args price qty p q = elim (Bool-cases (leb_ℤ qty (pos 0))) [
    | inl low ↦ rw low tt
    | inr positive ↦
        let w =
          written-exec
            (record {
              msg_type = b'E';
              seq_no = seq;
              timestamp_ns = lib.now_ns;
              order_id = lib.strtoull (get_or args 0 []);
              exec_quantity = qty;
              match_price = price;
            })
            (record {
              type_fits = omega arith;
              seq_fits = small;
              time_fits = f.time_fits;
              id_fits = f.id_fits _;
              quantity_fits = q;
              price_fits = p;
            })
            refl in
        let same = w.3 in rw positive (w.0, w.1, inr (inr (w.2, rw same (ground arith))))
  ]

  parse_execute-Parsed : (args : List Text) → Parsed seq (parse_execute lib args seq)
  unfolding parse_execute
  parse_execute-Parsed args = elim (Bool-cases (ltb (length args) 2)) [
    | inl few ↦ rw few tt
    | inr enough ↦ rw enough (elim (Bool-cases (leb 3 (length args - 1))) [
      | inl long ↦ rw long (executed-Parsed args _ _ (price_ticks-IsInt32 lib _) (wrap32-IsInt32 _))
      | inr short ↦ rw short (elim (Bool-cases (length args - 1 == 2)) [
        | inl two ↦ rw two (executed-Parsed args _ _ (price_ticks-IsInt32 lib _) (wrap32-IsInt32 _))
        | inr one ↦ rw one tt
      ])
    ])
  ]

  parse_typed-Parsed : (type : ℕ) (args : List Text) → Parsed seq (parse_typed lib type args seq)
  unfolding parse_typed
  parse_typed-Parsed type args = elim (Bool-cases (type == b'A')) [
    | inl a ↦ rw a (parse_add-Parsed args)
    | inr a ↦ rw a (elim (Bool-cases (type == b'X' || type == b'C')) [
      | inl x ↦ rw x (parse_cancel-Parsed args)
      | inr x ↦ rw x (elim (Bool-cases (type == b'E')) [
        | inl e ↦ rw e (parse_execute-Parsed args)
        | inr e ↦ rw e tt
      ])
    ])
  ]

  parse_tokens-Parsed :
      (ts : List Text) (out : WireMessage) → Parsed seq (parse_tokens lib ts seq out)
  unfolding parse_tokens
  parse_tokens-Parsed [] out = tt
  parse_tokens-Parsed (t ∷ args) out = parse_typed-Parsed (lib.toupper (get_or t 0 0)) args

  -- A line that is taken gives a message of 34 bytes with the given sequence number: a valid add, a
  -- cancellation, or an execution of a positive quantity. The results of `strtoull` and the clock
  -- have 64 bits, as has the sequence number.
  pub parse_user_line-Parsed :
      (line : Text) (out : WireMessage) → Parsed seq (parse_user_line lib line seq out)
  unfolding parse_user_line
  parse_user_line-Parsed line out = elim (Bool-cases (is_ignored line)) [
    | inl ignored ↦ rw ignored tt
    | inr read ↦ rw read (parse_tokens-Parsed (skip_order (tokenize [] [] line)) out)
  ]

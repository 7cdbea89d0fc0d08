-- ===== src/Validator/Line.antt =====
-- `parseUserLine` of include/feed_handler/parser_validator.hpp. A string is its bytes. What the
-- code calls of the C and C++ libraries is a parameter.
use quant_feed_handler.Base.{
  ℕ, ◌-◌, List, [], ◌∷◌, ◌++◌, Bool, true, false, ◌&&◌, ◌||◌, not, length, get_or, replicate, ltb,
  leb, ◌==◌, if◌then◌else◌,
}
use quant_feed_handler.Base.Int.{ℤ, pos, leb_ℤ, wrap32}
use quant_feed_handler.Protocol.{WireMessage, size_of_wire, of_add, of_cancel, of_exec}

abbrev pub Text : Type 0
Text = List ℕ

-- `cents` is `llround(strtod(s) * 100.0)`, and `strtol` and `strtoull` read base 10.
pub record Library : Type 0 where
  pub toupper : ℕ → ℕ
  pub strtoull : Text → ℕ
  pub strtol : Text → ℤ
  pub cents : Text → ℤ
  pub now_ns : ℕ

abbrev pub is_separator : ℕ → Bool
is_separator c = c == b',' || (c == b' ' || (c == 9 || (c == 13 || c == 10)))

abbrev pub is_empty : Text → Bool
is_empty [] = true
is_empty (c ∷ cs) = false

-- `if (!current.empty()) { tokens.push_back(current); current.clear(); }`
abbrev pub flush : List Text → Text → List Text
flush tokens current = if is_empty current then tokens else tokens ++ current ∷ []

unfoldable pub tokenize : List Text → Text → Text → List Text
tokenize tokens current [] = flush tokens current
tokenize tokens current (c ∷ cs) =
    if is_separator c
    then tokenize (flush tokens current) [] cs
    else tokenize tokens (current ++ c ∷ []) cs

abbrev pub eq_text : Text → Text → Bool
eq_text [] [] = true
eq_text [] (d ∷ ds) = false
eq_text (c ∷ cs) [] = false
eq_text (c ∷ cs) (d ∷ ds) = c == d && eq_text cs ds

abbrev pub has_dot : Text → Bool
has_dot [] = false
has_dot (c ∷ cs) = c == b'.' || has_dot cs

abbrev pub is_ignored : Text → Bool
is_ignored line =
    is_empty line
    || (get_or line 0 0 == b'#'
        || (leb 2 (length line) && (get_or line 0 0 == b'/' && get_or line 1 0 == b'/')))

abbrev pub is_order_word : Text → Bool
is_order_word t =
    eq_text t (b'O' ∷ b'R' ∷ b'D' ∷ b'E' ∷ b'R' ∷ [])
    || eq_text t (b'o' ∷ b'r' ∷ b'd' ∷ b'e' ∷ b'r' ∷ [])

-- The tokens from the type on.
abbrev pub skip_order : List Text → List Text
skip_order [] = []
skip_order (t ∷ ts) = if is_order_word t then ts else t ∷ ts

abbrev pub zeroed : WireMessage
zeroed = replicate size_of_wire 0

module _ (lib : Library) where
  unfoldable pub price_ticks : Text → ℤ
  price_ticks s = if has_dot s then wrap32 (lib.cents s) else wrap32 (lib.strtol s)

  abbrev pub to_int32 : Text → ℤ
  to_int32 s = wrap32 (lib.strtol s)

  unfoldable pub parse_add : List Text → ℕ → Bool × WireMessage
  parse_add args seq =
      let side = lib.toupper (get_or (get_or args 1 []) 0 0) in
      let price = price_ticks (get_or args 2 []) in
      let qty = to_int32 (get_or args 3 []) in
      if ltb (length args) 4
      then (false, zeroed)
      else if not (side == b'B') && not (side == b'S')
      then (false, zeroed)
      else if leb_ℤ price (pos 0) || leb_ℤ qty (pos 0)
      then (false, zeroed)
      else (
        true,
        of_add (record {
          msg_type = b'A';
          seq_no = seq;
          timestamp_ns = lib.now_ns;
          order_id = lib.strtoull (get_or args 0 []);
          side = side;
          price = price;
          quantity = qty;
        }),
      )

  -- The arguments left after the order id are at `args` from 1 on.
  unfoldable pub parse_cancel : List Text → ℕ → Bool × WireMessage
  parse_cancel args seq =
      let left = length args - 1 in
      let qty =
        if ltb 0 left
        then (if leb 3 left then to_int32 (get_or args 3 []) else to_int32 (get_or args 1 []))
        else pos 0 in
      if ltb (length args) 1 then (false, zeroed) else (
        true,
        of_cancel (record {
          msg_type = b'X';
          seq_no = seq;
          timestamp_ns = lib.now_ns;
          order_id = lib.strtoull (get_or args 0 []);
          quantity = qty;
        }),
      )

  -- The end of an execution line, from its price and its quantity.
  unfoldable pub executed : List Text → ℕ → ℤ → ℤ → Bool × WireMessage
  executed args seq match_price exec_qty = if leb_ℤ exec_qty (pos 0) then (false, zeroed) else (
    true,
    of_exec (record {
      msg_type = b'E';
      seq_no = seq;
      timestamp_ns = lib.now_ns;
      order_id = lib.strtoull (get_or args 0 []);
      exec_quantity = exec_qty;
      match_price = match_price;
    }),
  )

  unfoldable pub parse_execute : List Text → ℕ → Bool × WireMessage
  parse_execute args seq =
      let left = length args - 1 in
      if ltb (length args) 2
      then (false, zeroed)
      else if leb 3 left
      then executed args seq (price_ticks (get_or args 2 [])) (to_int32 (get_or args 3 []))
      else if left == 2
      then executed args seq (price_ticks (get_or args 1 [])) (to_int32 (get_or args 2 []))
      else (false, zeroed)

  unfoldable pub parse_typed : ℕ → List Text → ℕ → Bool × WireMessage
  parse_typed type args seq =
      if type == b'A'
      then parse_add args seq
      else if type == b'X' || type == b'C'
      then parse_cancel args seq
      else if type == b'E'
      then parse_execute args seq
      else (false, zeroed)

  unfoldable pub parse_tokens : List Text → ℕ → WireMessage → Bool × WireMessage
  parse_tokens [] seq out = (false, out)
  parse_tokens (t ∷ args) seq out = parse_typed (lib.toupper (get_or t 0 0)) args seq

  -- The result and what `outMsg` is then.
  unfoldable pub parse_user_line : Text → ℕ → WireMessage → Bool × WireMessage
  parse_user_line line seq out =
      if is_ignored line
      then (false, out)
      else parse_tokens (skip_order (tokenize [] [] line)) seq out

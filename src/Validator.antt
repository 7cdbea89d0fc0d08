-- ===== src/Validator.antt =====
-- `WireParserValidator` of include/feed_handler/parser_validator.hpp: the check of a received
-- buffer. A null buffer is `none`; a buffer is its bytes, with the count that the caller gives.
pub mod Accept
pub mod Line
pub mod Parsed
pub mod Written
pub mod Tokens
use quant_feed_handler.Base.{
  ℕ, ◌+◌, List, ◌++◌, Option, none, some, Bool, ◌||◌, ◌&&◌, not, take, drop, ltb, ◌==◌,
  if◌then◌else◌,
}
use quant_feed_handler.Base.Int.{ℤ, pos, ltb_ℤ, leb_ℤ}
use quant_feed_handler.Protocol.{
  AddOrderMsg, CancelOrderMsg, ExecuteOrderMsg, WireMessage, msg_type, add, cancel, exec,
  expected_size,
}

pub data ValidationResult : Type 0 where
  valid : ValidationResult
  truncated_header : ValidationResult
  unknown_message_type : ValidationResult
  length_mismatch : ValidationResult
  invalid_side : ValidationResult
  invalid_price : ValidationResult
  invalid_quantity : ValidationResult
  sequence_out_of_order : ValidationResult

-- The field checks on the copied message, by the type byte of the buffer.
unfoldable pub check_fields : ℕ → WireMessage → ValidationResult
check_fields type m =
    if type == b'A'
    then (if not ((add m).side == b'B') && not ((add m).side == b'S')
        then invalid_side
        else if leb_ℤ (add m).price (pos 0)
        then invalid_price
        else if leb_ℤ (add m).quantity (pos 0)
        then invalid_quantity
        else valid)
    else if type == b'X'
    then (if ltb_ℤ (cancel m).quantity (pos 0) then invalid_quantity else valid)
    else if type == b'E'
    then (if leb_ℤ (exec m).exec_quantity (pos 0)
        then invalid_quantity
        else if leb_ℤ (exec m).match_price (pos 0)
        then invalid_price
        else valid)
    else unknown_message_type

-- `memcpy(&outMsg, buffer, reqSize)`.
abbrev pub copied : List ℕ → ℕ → WireMessage → WireMessage
copied bytes required out = take required bytes ++ drop required out

-- The result and what `outMsg` is then.
unfoldable pub validate_and_parse :
    Option (List ℕ) → ℕ → WireMessage → ValidationResult × WireMessage
validate_and_parse none received out = (truncated_header, out)
validate_and_parse (some bytes) received out =
    let required = expected_size (msg_type bytes) in
    if ltb received 1
    then (truncated_header, out)
    else if required == 0
    then (unknown_message_type, out)
    else if ltb received required
    then (length_mismatch, out)
    else (check_fields (msg_type bytes) (copied bytes required out), copied bytes required out)

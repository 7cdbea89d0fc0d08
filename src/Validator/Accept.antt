-- ===== src/Validator/Accept.antt =====
-- What an accepted buffer is.
use quant_feed_handler.Base.{
  ℕ, zero, suc, ◌≤◌, List, [], ◌∷◌, some, Bool, true, false, ◌≡◌, ◌≢◌, ◌↔◌, refl, inl, inr, length,
  ltb, ◌==◌, ◌||◌, ◌&&◌, not, Bool-cases, if◌then◌else◌, arith,
}
use quant_feed_handler.Base.Int.{ℤ, pos, ltb_ℤ, leb_ℤ}
use quant_feed_handler.Protocol.{WireMessage, msg_type, add, cancel, exec, expected_size, is_valid}
use quant_feed_handler.Validator.{
  valid, invalid_side, invalid_price, invalid_quantity, check_fields, copied, validate_and_parse,
}

side_check :
    (b s p q : Bool)
    → ((if not b && not s
          then invalid_side
          else if p
          then invalid_price
          else if q
          then invalid_quantity
          else valid)
        ≡ valid)
      ↔ ((((b || s) && not p) && not q) ≡ true)
side_check b s p q = ground arith

exec_check :
    (q p : Bool)
    → ((if q then invalid_quantity else if p then invalid_price else valid) ≡ valid)
      ↔ ((not q && not p) ≡ true)
exec_check q p = ground arith

not-leb_ℤ : (a b : ℤ) → not (leb_ℤ a b) ≡ ltb_ℤ b a
not-leb_ℤ a b = ground arith

not-ltb_ℤ : (a b : ℤ) → not (ltb_ℤ a b) ≡ leb_ℤ b a
not-ltb_ℤ a b = ground arith

cancel_check : (q : Bool) → ((if q then invalid_quantity else valid) ≡ valid) ↔ (not q ≡ true)
cancel_check q = ground arith

-- The checks of the validator are those of `isValid`.
pub check_fields-is_valid :
    (m : WireMessage) → (check_fields (msg_type m) m ≡ valid) ↔ (is_valid m ≡ true)
unfolding check_fields is_valid
check_fields-is_valid m = elim (Bool-cases (msg_type m == b'A')) [
  | inl a ↦ rw a (
      rw (← not-leb_ℤ (add m).price (pos 0), ← not-leb_ℤ (add m).quantity (pos 0))
        (side_check _ _ _ _))
  | inr a ↦ rw a (elim (Bool-cases (msg_type m == b'X')) [
    | inl x ↦ rw x (rw (← not-ltb_ℤ (cancel m).quantity (pos 0)) (cancel_check _))
    | inr x ↦ rw x (elim (Bool-cases (msg_type m == b'E')) [
      | inl e ↦ rw e (
          rw (← not-leb_ℤ (exec m).exec_quantity (pos 0), ← not-leb_ℤ (exec m).match_price (pos 0))
            (exec_check _ _))
      | inr e ↦ rw e (ground arith)
    ])
  ])
]

-- Copying at least a byte carries the type over.
pub msg_type-copied :
    (b : ℕ) (bs : List ℕ) (required : ℕ) (out : WireMessage)
    → required ≢ 0
    → msg_type (copied (b ∷ bs) required out) ≡ msg_type (b ∷ bs)
msg_type-copied b bs zero out h = absurd (h refl)
msg_type-copied b bs (suc n) out h = refl

-- A received buffer of at least one byte is accepted exactly when its type is known, all the bytes
-- of that type are there, and the message made of them is valid.
pub validate-is_valid :
    (bytes : List ℕ) (received : ℕ) (out : WireMessage)
    → 1 ≤ length bytes
    → 1 ≤ received
    → let required = expected_size (msg_type bytes) in
      ((validate_and_parse (some bytes) received out).0 ≡ valid)
      ↔ ((required ≢ 0) × (required ≤ received) × (is_valid (copied bytes required out) ≡ true))
unfolding validate_and_parse
validate-is_valid [] received out some_byte some_received = absurd (omega arith)
validate-is_valid (b ∷ bs) received out some_byte some_received =
    let required = expected_size (msg_type (b ∷ bs)) in
    let got : ltb received 1 ≡ false = ground arith in
    elim (Bool-cases (required == 0)) [
      | inl unknown ↦ rw (got, unknown) (λ e. absurd (cc e), λ p. absurd (p.0 (ground arith)))
      | inr known ↦
          rw (got, known)
            (elim (Bool-cases (ltb received required)) [
              | inl short ↦
                  rw short (λ e. absurd (cc e), λ p. (let h = p.1 in absurd (ground arith)))
              | inr enough ↦
                  let type = msg_type-copied b bs required out (ground arith) in
                  let fields = check_fields-is_valid (copied (b ∷ bs) required out) in
                  rw enough (
                    λ e. (ground arith, ground arith, (rw type at fields).0 e),
                    λ p. (rw type at fields).1 p.2,
                  )
            ])
    ]

-- ===== src/Table/Full.antt =====
-- A probe that goes all the way round has seen every slot.
use native.Mathlib.Nat.{mod-eq_of_lt, mod-eq-sub-mod}
use native.Mathlib.Decide.{dec_lt}
use quant_feed_handler.Base.{
  ℕ, zero, suc, ◌+◌, ◌-◌, ◌%◌, ◌^◌, ◌≤◌, ◌<◌, List, true, ◌≡◌, ◌≢◌, ◌∙◌, inl, inr, length, get_or,
  ◌==◌, Bool-cases, arith,
}
use quant_feed_handler.Table.{OrderRecord, blank, hash, slot_index}
use quant_feed_handler.Table.Probe.{full, stop_from, stop, slot_index-mod, hash-lt}

-- The slot is used by another order.
abbrev pub IsTaken : List OrderRecord → ℕ → ℕ → Type 0
IsTaken t order_id i =
    ((get_or t i blank).occupied ≡ true) × ((get_or t i blank).order_id ≢ order_id)

stop_from-IsTaken :
    (t : List OrderRecord) (start order_id rounds probe : ℕ)
    → stop_from t start order_id rounds probe ≡ full
    → (p : ℕ) → probe ≤ p
    → p < probe + rounds
    → IsTaken t order_id (slot_index (length t) start p)
unfolding stop_from
stop_from-IsTaken t start order_id zero probe e p lo hi = absurd (omega arith)
stop_from-IsTaken t start order_id (suc rounds) probe e p lo hi =
    let i = slot_index (length t) start probe in
    elim (Bool-cases (get_or t i blank).occupied) [
      | inr unused ↦ absurd (cc (rw unused at e))
      | inl used ↦ elim (Bool-cases ((get_or t i blank).order_id == order_id)) [
        | inl same ↦ absurd (cc (rw (used, same) at e))
        | inr other ↦ elim (Bool-cases (probe == p)) [
          | inl here ↦ let here' : probe ≡ p = ground arith in rw (← here') (used, ground arith)
          | inr later ↦
              stop_from-IsTaken t start order_id rounds (probe + 1) (rw (used, other) at e) p
                (ground arith) (omega arith)
        ]
      ]
    ]

-- The probe that reaches slot `j` from `start`.
reach : (n start j : ℕ) → start < n → j < n → (p : ℕ) × (p < n) × ((start + p) % n ≡ j)
reach n start j hs hj = elim (dec_lt j start) [
  | yes before ↦ (
    j + n - start,
    omega arith,
    (let sum : start + (j + n - start) ≡ j + n = omega arith in
        rw sum (
          mod-eq-sub-mod {n = j + n} {m = n} (omega arith)
          ∙ (let back : j + n - n ≡ j = omega arith in rw back (mod-eq_of_lt hj)))),
  )
  | no behind ↦ (
    j - start,
    omega arith,
    (let sum : start + (j - start) ≡ j = omega arith in rw sum (mod-eq_of_lt hj)),
  )
]

pub stop-IsTaken :
    (bits : ℕ) (t : List OrderRecord) (order_id : ℕ)
    → length t ≡ 2 ^ bits
    → length t ≤ 2 ^ 63
    → stop t order_id ≡ full
    → (j : ℕ) → j < length t
    → IsTaken t order_id j
unfolding stop
stop-IsTaken bits t order_id power small e j h =
    let start = hash (length t) order_id in
    let inside = hash-lt bits (length t) order_id power in
    let (p, below, lands) = reach (length t) start j inside h in
    let at = slot_index-mod bits (length t) start p power small inside below in
    rw (← lands, ← at)
      (stop_from-IsTaken t start order_id (length t) 0 e p (omega arith) (omega arith))

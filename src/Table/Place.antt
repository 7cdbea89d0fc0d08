-- ===== src/Table/Place.antt =====
-- Every stored order is reachable by its own probe sequence, and the writes keep it so.
use quant_feed_handler.Base.{
  ℕ, zero, suc, ◌+◌, ◌<◌, ◌^◌, List, true, false, ◌≡◌, refl, sym, ◌∙◌, inl, inr, length, get_or,
  set, length-set, ◌==◌, Bool-cases, arith,
}
use quant_feed_handler.Base.Arrays.{get_or-set_self, get_or-set_ne}
use quant_feed_handler.Table.{OrderRecord, blank, hash, slot_index}
use quant_feed_handler.Table.Probe.{Stop, free, match, full, stop_from, stop, slot_index-lt}

-- Each occupied slot is where the probe for its order stops.
abbrev pub IsPlaced : List OrderRecord → Type 0
IsPlaced t =
    (i : ℕ)
    → i < length t
    → (get_or t i blank).occupied ≡ true
    → stop t (get_or t i blank).order_id ≡ match i

-- Which slots are in use, and by which order.
abbrev pub SameKeys : List OrderRecord → List OrderRecord → Type 0
SameKeys t u =
    (length t ≡ length u)
    × ((i : ℕ)
        → ((get_or t i blank).occupied ≡ (get_or u i blank).occupied)
          × ((get_or t i blank).order_id ≡ (get_or u i blank).order_id))

stop_from-SameKeys :
    (t u : List OrderRecord) (start order_id rounds probe : ℕ)
    → SameKeys t u
    → stop_from t start order_id rounds probe ≡ stop_from u start order_id rounds probe
unfolding stop_from
stop_from-SameKeys t u start order_id zero probe s = refl
stop_from-SameKeys t u start order_id (suc rounds) probe s =
    let i = slot_index (length u) start probe in
    rw (s.0, (s.1 i).0, (s.1 i).1, stop_from-SameKeys t u start order_id rounds (probe + 1) s)

pub stop-SameKeys :
    (t u : List OrderRecord) (order_id : ℕ) → SameKeys t u → stop t order_id ≡ stop u order_id
unfolding stop
stop-SameKeys t u order_id s =
    rw s.0 (stop_from-SameKeys t u (hash (length u) order_id) order_id (length u) 0 s)

pub SameKeys-IsPlaced : (t u : List OrderRecord) → SameKeys t u → IsPlaced t → IsPlaced u
SameKeys-IsPlaced t u s p i h used =
    rw (← stop-SameKeys t u (get_or u i blank).order_id s, ← (s.1 i).1)
      (p i (rw s.0 h) ((s.1 i).0 ∙ used))

module _ (t : List OrderRecord) (i : ℕ) (r : OrderRecord) where
  -- A record that keeps the slot's use and order changes no key.
  pub SameKeys-set :
      r.occupied ≡ (get_or t i blank).occupied
      → r.order_id ≡ (get_or t i blank).order_id
      → i < length t
      → SameKeys t (set t i r)
  SameKeys-set used same h = (
    sym (length-set t i r),
    λ j. elim (Bool-cases (i == j)) [
      | inl e ↦
          let here : i ≡ j = ground arith in
          rw (← here, get_or-set_self t i r blank h) (sym used, sym same)
      | inr ne ↦ rw (get_or-set_ne t i j r blank (ground arith)) (refl, refl)
    ],
  )

  module _ (unused : (get_or t i blank).occupied ≡ false) (h : i < length t)
      (used : r.occupied ≡ true) where
    -- A write into a free slot does not disturb a probe that stopped at another order.
    stop_from-set_match :
        (start order_id rounds probe j : ℕ)
        → stop_from t start order_id rounds probe ≡ match j
        → stop_from (set t i r) start order_id rounds probe ≡ match j
    unfolding stop_from
    stop_from-set_match start order_id zero probe j e = cc
    stop_from-set_match start order_id (suc rounds) probe j e =
        let at = slot_index (length t) start probe in
        rw (length-set t i r) (elim (Bool-cases (i == at)) [
          | inl here ↦ let here' : i ≡ at = ground arith in absurd (cc (rw (← here', unused) at e))
          | inr ne ↦
              rw (get_or-set_ne t i at r blank (ground arith))
                (ground (arith, stop_from-set_match start order_id rounds (probe + 1) j))
        ])

    -- The probe that stopped at the free slot now finds the order there.
    stop_from-set_free :
        (start rounds probe : ℕ)
        → stop_from t start r.order_id rounds probe ≡ free i
        → stop_from (set t i r) start r.order_id rounds probe ≡ match i
    unfolding stop_from
    stop_from-set_free start zero probe e = cc
    stop_from-set_free start (suc rounds) probe e =
        let at = slot_index (length t) start probe in
        rw (length-set t i r) (elim (Bool-cases (i == at)) [
          | inl here ↦
              let here' : i ≡ at = ground arith in
              rw (← here', get_or-set_self t i r blank h, used) (ground arith)
          | inr ne ↦
              rw (get_or-set_ne t i at r blank (ground arith))
                (ground (arith, stop_from-set_free start rounds (probe + 1)))
        ])

    pub stop-set_match :
        (order_id j : ℕ) → stop t order_id ≡ match j → stop (set t i r) order_id ≡ match j
    unfolding stop
    stop-set_match order_id j e =
        rw (length-set t i r)
          (stop_from-set_match (hash (length t) order_id) order_id (length t) 0 j e)

    pub stop-set_free : stop t r.order_id ≡ free i → stop (set t i r) r.order_id ≡ match i
    unfolding stop
    stop-set_free e =
        rw (length-set t i r) (stop_from-set_free (hash (length t) r.order_id) (length t) 0 e)

    pub IsPlaced-set_free : stop t r.order_id ≡ free i → IsPlaced t → IsPlaced (set t i r)
    IsPlaced-set_free e p j hj u = elim (Bool-cases (i == j)) [
      | inl same ↦
          let here : i ≡ j = ground arith in
          rw (← here, get_or-set_self t i r blank h) (stop-set_free e)
      | inr ne ↦
          let away = get_or-set_ne t i j r blank (ground arith) in
          rw away (
            stop-set_match (get_or t j blank).order_id j
              (p j (rw (length-set t i r) at hj) (rw away at u)))
    ]

-- A slot where a probe stops lies in the table, whose capacity is a power of two.
abbrev pub InRange : ℕ → Stop → Type 0
InRange n (free i) = i < n
InRange n (match i) = i < n
InRange n full = Unit

stop_from-InRange :
    (k : ℕ) (t : List OrderRecord) (start order_id rounds probe : ℕ)
    → length t ≡ 2 ^ k
    → InRange (length t) (stop_from t start order_id rounds probe)
unfolding stop_from
stop_from-InRange k t start order_id zero probe e = tt
stop_from-InRange k t start order_id (suc rounds) probe e =
    let i = slot_index (length t) start probe in
    let inside = slot_index-lt k (length t) start probe e in
    elim (Bool-cases (get_or t i blank).occupied) [
      | inr unused ↦ rw unused inside
      | inl used ↦ rw used (elim (Bool-cases ((get_or t i blank).order_id == order_id)) [
        | inl same ↦ rw same inside
        | inr other ↦ rw other (stop_from-InRange k t start order_id rounds (probe + 1) e)
      ])
    ]

pub stop-InRange :
    (k : ℕ) (t : List OrderRecord) (order_id : ℕ)
    → length t ≡ 2 ^ k
    → InRange (length t) (stop t order_id)
unfolding stop
stop-InRange k t order_id e = stop_from-InRange k t _ order_id (length t) 0 e

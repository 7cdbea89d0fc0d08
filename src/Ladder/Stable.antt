-- ===== src/Ladder/Stable.antt =====
-- A delta keeps a ladder a ladder, and so keeps the array one that shows a ladder; by price, the
-- ladder is a map in which a delta changes one entry.
use quant_feed_handler.Base.{
  ℕ, zero, suc, ◌≤◌, ◌<◌, List, [], ◌∷◌, Bool, true, false, ◌≡◌, refl, Option, none, some, length,
  take, length-take, Bool-cases, inl, inr, if◌then◌else◌, arith,
}
use quant_feed_handler.Base.Int.{ℤ, pos, leb_ℤ, eqb_ℤ, eq_of_parts}
use quant_feed_handler.Ladder.{PriceLevel, beats, adjust, exhausted, fresh_level, apply_delta}
use quant_feed_handler.Ladder.Spec.{IsLive, AllBehind, IsLadder, pad, apply}
use quant_feed_handler.Ladder.Search.{beats_trans}
use quant_feed_handler.Ladder.Refine.{apply_delta-refines}

-- The array holds a ladder of at most `depth` levels and empty slots behind it.
pub record IsShown (asc : Bool) (depth : ℕ) (levels : List PriceLevel) : Type 0 where
  pub rungs : List PriceLevel
  pub ladder : IsLadder asc rungs
  pub fits : length rungs ≤ depth
  pub shown : levels ≡ pad depth rungs

fresh-IsLive :
    (price qty_delta order_delta : ℤ)
    → leb_ℤ qty_delta (pos 0) ≡ false
    → IsLive (fresh_level price qty_delta order_delta)
fresh-IsLive price qty_delta order_delta h = (refl, ground arith, ground arith)

adjust-IsLive :
    (l : PriceLevel) (qty_delta order_delta : ℤ)
    → l.active ≡ true
    → exhausted (adjust l qty_delta order_delta) ≡ false
    → IsLive (adjust l qty_delta order_delta)
adjust-IsLive l qty_delta order_delta live h = (live, ground arith, ground arith)

module _ (asc : Bool) where
  beats_of_differ : (p q : ℤ) → eqb_ℤ p q ≡ false → beats asc q p ≡ false → beats asc p q ≡ true
  beats_of_differ p q differ h =
      elim asc as (λ a. beats a q p ≡ false → beats a p q ≡ true) [
        | true ↦ λ k. ground arith
        | false ↦ λ k. ground arith
      ]
        h

  AllBehind-trans :
      (p q : ℤ) (ls : List PriceLevel)
      → beats asc p q ≡ true
      → AllBehind asc q ls
      → AllBehind asc p ls
  AllBehind-trans p q [] h k = tt
  AllBehind-trans p q (l ∷ ls) h k =
      (beats_trans asc p q l.price h k.0, AllBehind-trans p q ls h k.1)

  pub IsLadder-take : (n : ℕ) (ls : List PriceLevel) → IsLadder asc ls → IsLadder asc (take n ls)
  IsLadder-take zero ls h = tt
  IsLadder-take (suc n) [] h = tt
  IsLadder-take (suc n) (l ∷ ls) h = (h.0, AllBehind-take n ls h.1, IsLadder-take n ls h.2)
    where
      AllBehind-take :
          (k : ℕ) (xs : List PriceLevel)
          → AllBehind asc l.price xs
          → AllBehind asc l.price (take k xs)
      AllBehind-take zero xs b = tt
      AllBehind-take (suc k) [] b = tt
      AllBehind-take (suc k) (x ∷ xs) b = (b.0, AllBehind-take k xs b.1)

  module _ (price qty_delta order_delta : ℤ) where
    AllBehind-apply :
        (p : ℤ) (ls : List PriceLevel)
        → AllBehind asc p ls
        → beats asc p price ≡ true
        → AllBehind asc p (apply asc price qty_delta order_delta ls)
    unfolding apply
    AllBehind-apply p [] h b = elim (Bool-cases (leb_ℤ qty_delta (pos 0))) [
      | inl e ↦ rw e tt
      | inr e ↦ rw e (b, tt)
    ]
    AllBehind-apply p (l ∷ ls) h b = elim (Bool-cases (eqb_ℤ l.price price)) [
      | inl same ↦ rw same (elim (Bool-cases (exhausted (adjust l qty_delta order_delta))) [
        | inl gone ↦ rw gone h.1
        | inr stays ↦ rw stays h
      ])
      | inr differ ↦ rw differ (elim (Bool-cases (beats asc price l.price)) [
        | inl before ↦
            rw before
              (elim (Bool-cases (leb_ℤ qty_delta (pos 0))) [ inl e ↦ rw e h | inr e ↦ rw e (b, h) ])
        | inr behind ↦ rw behind (h.0, AllBehind-apply p ls h.1 b)
      ])
    ]

    -- An abstract delta keeps the levels live, positive and strictly sorted.
    pub apply-IsLadder :
        (ls : List PriceLevel)
        → IsLadder asc ls
        → IsLadder asc (apply asc price qty_delta order_delta ls)
    unfolding apply
    apply-IsLadder [] h = elim (Bool-cases (leb_ℤ qty_delta (pos 0))) [
      | inl e ↦ rw e tt
      | inr e ↦ rw e (fresh-IsLive price qty_delta order_delta e, tt, tt)
    ]
    apply-IsLadder (l ∷ ls) h = elim (Bool-cases (eqb_ℤ l.price price)) [
      | inl same ↦ rw same (elim (Bool-cases (exhausted (adjust l qty_delta order_delta))) [
        | inl gone ↦ rw gone h.2
        | inr stays ↦ rw stays (adjust-IsLive l qty_delta order_delta h.0.0 stays, h.1, h.2)
      ])
      | inr differ ↦ rw differ (elim (Bool-cases (beats asc price l.price)) [
        | inl before ↦ rw before (elim (Bool-cases (leb_ℤ qty_delta (pos 0))) [
          | inl e ↦ rw e h
          | inr e ↦ rw e (
            fresh-IsLive price qty_delta order_delta e,
            (before, AllBehind-trans price l.price ls before h.1),
            h,
          )
        ])
        | inr behind ↦ rw behind (
          h.0,
          AllBehind-apply l.price ls h.1 (beats_of_differ l.price price differ behind),
          apply-IsLadder ls h.2,
        )
      ])
    ]

    -- `applyDelta` keeps an array that shows a ladder one that shows a ladder.
    pub apply_delta-IsShown :
        (depth : ℕ) (levels : List PriceLevel)
        → 0 < depth
        → IsShown asc depth levels
        → IsShown asc depth (apply_delta levels price qty_delta order_delta asc)
    apply_delta-IsShown depth levels some_depth s = record {
      rungs = take depth (apply asc price qty_delta order_delta s.rungs);
      ladder = IsLadder-take depth _ (apply-IsLadder s.rungs s.ladder);
      fits = omega (arith, length-take depth (apply asc price qty_delta order_delta s.rungs));
      shown = rw s.shown (
          apply_delta-refines asc price qty_delta order_delta depth s.rungs s.ladder s.fits
            some_depth);
    }

-- The level of a ladder at a price.
unfoldable pub level_at : ℤ → List PriceLevel → Option PriceLevel
level_at p [] = none
level_at p (l ∷ ls) = if eqb_ℤ l.price p then some l else level_at p ls

-- What a delta leaves at its own price, from what was there.
abbrev pub changed : ℤ → ℤ → ℤ → Option PriceLevel → Option PriceLevel
changed price qty_delta order_delta none =
    if leb_ℤ qty_delta (pos 0) then none else some (fresh_level price qty_delta order_delta)
changed price qty_delta order_delta (some l) =
    if exhausted (adjust l qty_delta order_delta)
    then none
    else some (adjust l qty_delta order_delta)

differ_of_beats : (asc : Bool) (p q : ℤ) → beats asc p q ≡ true → eqb_ℤ q p ≡ false
differ_of_beats true p q h = ground arith
differ_of_beats false p q h = ground arith

differ_congr : (p q r : ℤ) → eqb_ℤ p q ≡ true → eqb_ℤ q r ≡ false → eqb_ℤ p r ≡ false
differ_congr p q r e d = ground arith

level_at-behind :
    (asc : Bool) (p q : ℤ) (ls : List PriceLevel)
    → AllBehind asc p ls
    → eqb_ℤ p q ≡ true
    → level_at q ls ≡ none
unfolding level_at
level_at-behind asc p q [] h e = refl
level_at-behind asc p q (l ∷ ls) h e =
    let differ : eqb_ℤ l.price q ≡ false = ground (arith, differ_of_beats asc p l.price h.0) in
    rw differ (level_at-behind asc p q ls h.1 e)

module _ (asc : Bool) (price qty_delta order_delta : ℤ) where
  level_at-apply_self :
      (ls : List PriceLevel)
      → IsLadder asc ls
      → level_at price (apply asc price qty_delta order_delta ls)
        ≡ changed price qty_delta order_delta (level_at price ls)
  unfolding level_at apply
  level_at-apply_self [] h = ground arith
  level_at-apply_self (l ∷ ls) h = elim (Bool-cases (eqb_ℤ l.price price)) [
    | inl same ↦ rw same (elim (Bool-cases (exhausted (adjust l qty_delta order_delta))) [
      | inl gone ↦ rw gone (level_at-behind asc l.price price ls h.1 same)
      | inr stays ↦ rw stays (rw same)
    ])
    | inr differ ↦ rw differ (elim (Bool-cases (beats asc price l.price)) [
      | inl before ↦
          let absent =
            level_at-behind asc price price ls (AllBehind-trans asc price l.price ls before h.1)
              (ground arith) in
          let here : eqb_ℤ price price ≡ true = ground arith in
          rw (before, absent)
            (elim (Bool-cases (leb_ℤ qty_delta (pos 0))) [
              | inl e ↦ rw e (rw (differ, absent))
              | inr e ↦ rw e (rw here)
            ])
      | inr behind ↦ rw behind (rw differ (level_at-apply_self ls h.2))
    ])
  ]

  level_at-apply_other :
      (p : ℤ) (ls : List PriceLevel)
      → eqb_ℤ price p ≡ false
      → level_at p (apply asc price qty_delta order_delta ls) ≡ level_at p ls
  unfolding level_at apply
  level_at-apply_other p [] d = elim (Bool-cases (leb_ℤ qty_delta (pos 0))) [
    | inl e ↦ rw e
    | inr e ↦ rw e (rw d)
  ]
  level_at-apply_other p (l ∷ ls) d = elim (Bool-cases (eqb_ℤ l.price price)) [
    | inl same ↦
        let other = differ_congr l.price price p same d in
        rw (same, other)
          (elim (Bool-cases (exhausted (adjust l qty_delta order_delta))) [
            | inl gone ↦ rw gone
            | inr stays ↦ rw stays (rw other)
          ])
    | inr differ ↦ rw differ (elim (Bool-cases (beats asc price l.price)) [
      | inl before ↦
          rw before
            (elim (Bool-cases (leb_ℤ qty_delta (pos 0))) [ inl e ↦ rw e | inr e ↦ rw e (rw d) ])
      | inr behind ↦ rw behind (rw (level_at-apply_other p ls d))
    ])
  ]

  -- A delta changes the entry at its own price as `changed` says, and no other entry.
  pub level_at-apply :
      (p : ℤ) (ls : List PriceLevel)
      → IsLadder asc ls
      → level_at p (apply asc price qty_delta order_delta ls) ≡ (
          if eqb_ℤ price p
          then changed price qty_delta order_delta (level_at price ls)
          else level_at p ls)
  level_at-apply p ls h = elim (Bool-cases (eqb_ℤ price p)) [
    | inl same ↦
        let here : price ≡ p = eq_of_parts price p (ground arith) in
        rw (same, ← here) (level_at-apply_self ls h)
    | inr differ ↦ rw differ (level_at-apply_other p ls differ)
  ]

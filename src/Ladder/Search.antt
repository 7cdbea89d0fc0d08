-- ===== src/Ladder/Search.antt =====
-- Where `applyDelta` finds a price, and what the abstract ladder does there.
use quant_feed_handler.Base.{
  ℕ, zero, suc, ◌+◌, List, [], ◌∷◌, ◌++◌, Bool, true, false, ◌≡◌, refl, ap, ◌⊎◌, inl, inr, none,
  some, length, replicate, Bool-cases, if◌then◌else◌, arith,
}
use quant_feed_handler.Base.Int.{ℤ, pos, leb_ℤ, eqb_ℤ}
use quant_feed_handler.Ladder.{
  PriceLevel, empty_level, beats, adjust, exhausted, fresh_level, find_level, find_free,
}
use quant_feed_handler.Ladder.Spec.{AllBehind, IsLadder, apply}

pub beats_asymm : (asc : Bool) (p q : ℤ) → beats asc p q ≡ true → beats asc q p ≡ false
beats_asymm true p q h = ground arith
beats_asymm false p q h = ground arith

pub beats_trans :
    (asc : Bool) (p q r : ℤ) → beats asc p q ≡ true → beats asc q r ≡ true → beats asc p r ≡ true
beats_trans true p q r h k = ground arith
beats_trans false p q r h k = ground arith

pub beats-false_of_behind :
    (asc : Bool) (p q r : ℤ) → beats asc p q ≡ true → beats asc r q ≡ false → beats asc r p ≡ false
beats-false_of_behind asc p q r h k = elim (Bool-cases (beats asc r p)) [
  | inl e ↦ absurd (cc (beats_trans asc r p q e h))
  | inr e ↦ e
]

beats_congr :
    (asc : Bool) (p q r : ℤ) → eqb_ℤ q r ≡ true → beats asc p q ≡ true → beats asc r p ≡ false
beats_congr true p q r e h = ground arith
beats_congr false p q r e h = ground arith

pub AllBehind-mid :
    (asc : Bool) (p : ℤ) (xs : List PriceLevel) (l : PriceLevel) (ys : List PriceLevel)
    → AllBehind asc p (xs ++ l ∷ ys)
    → beats asc p l.price ≡ true
AllBehind-mid asc p [] l ys h = h.0
AllBehind-mid asc p (x ∷ xs) l ys h = AllBehind-mid asc p xs l ys h.1

-- Insertion of a level that is not there yet, behind all the levels that it does not beat.
unfoldable pub insert : Bool → PriceLevel → List PriceLevel → List PriceLevel
insert asc new [] = new ∷ []
insert asc new (l ∷ ls) =
    if beats asc new.price l.price then new ∷ l ∷ ls else l ∷ insert asc new ls

module _ (asc : Bool) (price qty_delta order_delta : ℤ) where
  -- the level at the price, with what stands before and behind it
  pub record Found (rungs : List PriceLevel) : Type 0 where
    pub before : List PriceLevel
    pub level : PriceLevel
    pub behind : List PriceLevel
    pub split : rungs ≡ before ++ level ∷ behind
    pub same : eqb_ℤ level.price price ≡ true
    pub finds :
        (i : ℕ) (rest : List PriceLevel)
        → find_level price i (rungs ++ rest) ≡ some (length before + i)
    pub means :
        apply asc price qty_delta order_delta rungs
        ≡ before
          ++ (if exhausted (adjust level qty_delta order_delta)
              then behind
              else adjust level qty_delta order_delta ∷ behind)

  pub record Missing (rungs : List PriceLevel) : Type 0 where
    pub finds : (i n : ℕ) → find_level price i (rungs ++ replicate n empty_level) ≡ none
    pub means : apply asc price qty_delta order_delta rungs ≡ (
        if leb_ℤ qty_delta (pos 0)
        then rungs
        else insert asc (fresh_level price qty_delta order_delta) rungs)

  find-padding : (i n : ℕ) → find_level price i (replicate n empty_level) ≡ none
  unfolding find_level
  find-padding i zero = refl
  find-padding i (suc n) = find-padding (i + 1) n

  Found-here :
      (l : PriceLevel) (ls : List PriceLevel)
      → l.active ≡ true
      → eqb_ℤ l.price price ≡ true
      → Found (l ∷ ls)
  unfolding find_level apply
  Found-here l ls live same = record {
    before = [];
    level = l;
    behind = ls;
    split = refl;
    same = same;
    finds = λ i rest. rw (live, same) (ap some (omega arith));
    means = rw same;
  }

  Found-cons :
      (l : PriceLevel) (ls : List PriceLevel)
      → AllBehind asc l.price ls
      → eqb_ℤ l.price price ≡ false
      → Found ls
      → Found (l ∷ ls)
  unfolding find_level apply
  Found-cons l ls behind other f =
      let first : beats asc l.price f.level.price ≡ true =
        AllBehind-mid asc l.price f.before f.level f.behind (rw f.split at behind) in
      record {
        before = l ∷ f.before;
        level = f.level;
        behind = f.behind;
        split = ap (λ xs. l ∷ xs) f.split;
        same = f.same;
        finds = λ i rest. ground (arith, f.finds (i + 1) rest);
        means =
            rw (other, beats_congr asc l.price f.level.price price f.same first)
              (ap (λ xs. l ∷ xs) f.means);
      }

  Missing-cons :
      (l : PriceLevel) (ls : List PriceLevel)
      → eqb_ℤ l.price price ≡ false
      → Missing ls
      → Missing (l ∷ ls)
  unfolding find_level apply insert
  Missing-cons l ls other m = record {
    finds = λ i n. ground (arith, m.finds (i + 1) n);
    means = rw (other, m.means) (ground arith);
  }

  pub search : (rungs : List PriceLevel) → IsLadder asc rungs → Found rungs ⊎ Missing rungs
  unfolding apply insert
  search [] h = inr (record { finds = find-padding; means = ground arith })
  search (l ∷ ls) h = elim (Bool-cases (eqb_ℤ l.price price)) [
    | inl same ↦ inl (Found-here l ls h.0.0 same)
    | inr other ↦ elim (search ls h.2) [
      | inl f ↦ inl (Found-cons l ls h.1 other f)
      | inr m ↦ inr (Missing-cons l ls other m)
    ]
  ]

-- The first free slot is behind the live levels.
pub find_free-live :
    (asc : Bool) (rungs : List PriceLevel) (i n : ℕ)
    → IsLadder asc rungs
    → find_free i (rungs ++ replicate n empty_level) ≡ length rungs + i
unfolding find_free
find_free-live asc [] i zero h = omega arith
find_free-live asc [] i (suc n) h = omega arith
find_free-live asc (l ∷ ls) i n h = rw h.0.0 (omega (arith, find_free-live asc ls (i + 1) n h.2))

-- ===== src/Book/Top.antt =====
-- What a reader of the arrays and of the getters sees in any book that messages can reach.
use quant_feed_handler.Base.{
  ℕ, zero, suc, ◌≤◌, ◌<◌, ◌^◌, List, [], ◌∷◌, ◌++◌, Bool, true, false, ◌&&◌, ◌||◌, ◌≡◌, refl, sym,
  ◌⊎◌, inl, inr, All, take, get_or, replicate, if◌then◌else◌, arith,
}
use quant_feed_handler.Base.Arrays.{get_or-replicate}
use quant_feed_handler.Base.Int.{ℤ, pos, eqb_ℤ}
use quant_feed_handler.Book.{
  LimitOrderBook, reset, process_all, has_bids, has_asks, best_bid_price, best_ask_price,
}
use quant_feed_handler.Book.Invariant.{IsBook, process_all-IsBook, reset-IsBook}
use quant_feed_handler.Ladder.{PriceLevel, empty_level, beats}
use quant_feed_handler.Ladder.Spec.{IsLive, AllBehind, IsLadder}
use quant_feed_handler.Ladder.Stable.{IsShown}
use quant_feed_handler.Protocol.{WireMessage}

-- The array of one side: asks for true.
abbrev pub side : Bool → LimitOrderBook → List PriceLevel
side asc book = if asc then book.asks else book.bids

abbrev pub level : Bool → LimitOrderBook → ℕ → PriceLevel
level asc book i = get_or (side asc book) i empty_level

abbrev pub has_side : Bool → LimitOrderBook → Bool
has_side asc book = if asc then has_asks book else has_bids book

abbrev pub best_price : Bool → LimitOrderBook → ℤ
best_price asc book = if asc then best_ask_price book else best_bid_price book

-- A live level at a strictly better price than this one.
abbrev pub InFrontOf : Bool → ℤ → PriceLevel → Type 0
InFrontOf asc p l = IsLive l × (beats asc l.price p ≡ true)

-- A level that is no better than this price, or shows nothing.
abbrev pub NoBetter : Bool → ℤ → PriceLevel → Type 0
NoBetter asc p l = (l.active ≡ false) ⊎ (beats asc l.price p ≡ false)

abbrev pub any_active : List PriceLevel → Bool
any_active [] = false
any_active (l ∷ ls) = l.active || any_active ls

-- Some active level stands at the price.
abbrev pub offers : ℤ → List PriceLevel → Bool
offers p [] = false
offers p (l ∷ ls) = l.active && eqb_ℤ l.price p || offers p ls

-- What the getters of a side are to say of its levels.
pub record IsBest (asc has : Bool) (best : ℤ) (levels : List PriceLevel) : Type 0 where
  pub shows : has ≡ any_active levels
  pub bound : All (NoBetter asc best) levels
  pub attained : offers best levels ≡ has
  pub otherwise : (has ≡ true) ⊎ (best ≡ pos 0)

-- The array that the ladder and so many empty slots make.
abbrev shelf : List PriceLevel → ℕ → ℕ → PriceLevel
shelf ls n i = get_or (ls ++ replicate n empty_level) i empty_level

beats_not : (asc : Bool) (p q : ℤ) → beats asc p q ≡ true → beats asc q p ≡ false
beats_not true p q h = ground arith
beats_not false p q h = ground arith

beats_self : (asc : Bool) (p : ℤ) → beats asc p p ≡ false
beats_self true p = ground arith
beats_self false p = ground arith

eqb_self : (p : ℤ) → eqb_ℤ p p ≡ true
eqb_self p = ground arith

none_active : (n : ℕ) → any_active (replicate n empty_level) ≡ false
none_active zero = refl
none_active (suc n) = none_active n

none_offered : (p : ℤ) (n : ℕ) → offers p (replicate n empty_level) ≡ false
none_offered p zero = refl
none_offered p (suc n) = none_offered p n

module _ (asc : Bool) (n : ℕ) where
  shelf-IsLive :
      (ls : List PriceLevel) (i : ℕ)
      → IsLadder asc ls
      → (shelf ls n i).active ≡ true
      → IsLive (shelf ls n i)
  shelf-IsLive [] i h on = absurd (cc (rw (get_or-replicate n i empty_level) at on))
  shelf-IsLive (l ∷ ls) zero h on = h.0
  shelf-IsLive (l ∷ ls) (suc i) h on = shelf-IsLive ls i h.2 on

  shelf-behind :
      (p : ℤ) (ls : List PriceLevel) (i : ℕ)
      → AllBehind asc p ls
      → (shelf ls n i).active ≡ true
      → beats asc p (shelf ls n i).price ≡ true
  shelf-behind p [] i h on = absurd (cc (rw (get_or-replicate n i empty_level) at on))
  shelf-behind p (l ∷ ls) zero h on = h.0
  shelf-behind p (l ∷ ls) (suc i) h on = shelf-behind p ls i h.1 on

  -- What stands in front of an active level.
  shelf-front :
      (ls : List PriceLevel) (j : ℕ)
      → IsLadder asc ls
      → (shelf ls n j).active ≡ true
      → All (InFrontOf asc (shelf ls n j).price) (take j (ls ++ replicate n empty_level))
  shelf-front [] j h on = absurd (cc (rw (get_or-replicate n j empty_level) at on))
  shelf-front (l ∷ ls) zero h on = tt
  shelf-front (l ∷ ls) (suc j) h on =
      ((h.0, shelf-behind l.price ls j h.1 on), shelf-front ls j h.2 on)

  empty-NoBetter : (p : ℤ) (m : ℕ) → All (NoBetter asc p) (replicate m empty_level)
  empty-NoBetter p zero = tt
  empty-NoBetter p (suc m) = (inl refl, empty-NoBetter p m)

  behind-NoBetter :
      (p : ℤ) (ls : List PriceLevel)
      → AllBehind asc p ls
      → All (NoBetter asc p) (ls ++ replicate n empty_level)
  behind-NoBetter p [] h = empty-NoBetter p n
  behind-NoBetter p (l ∷ ls) h = (inr (beats_not asc p l.price h.0), behind-NoBetter p ls h.1)

  -- What the front slot shows is the best of the array.
  shelf-IsBest :
      (ls : List PriceLevel)
      → IsLadder asc ls
      → let front = shelf ls n 0 in
        IsBest asc front.active
          (if front.active then front.price else pos 0)
          (ls ++ replicate n empty_level)
  shelf-IsBest [] h = rw (get_or-replicate n 0 empty_level) (record {
    shows = sym (none_active n);
    bound = empty-NoBetter (pos 0) n;
    attained = none_offered (pos 0) n;
    otherwise = inr refl;
  })
  shelf-IsBest (l ∷ ls) h =
      let on : l.active ≡ true = h.0.0 in
      rw on (record {
        shows = refl;
        bound = (inr (beats_self asc l.price), behind-NoBetter l.price ls h.1);
        attained = rw (eqb_self l.price) refl;
        otherwise = inl refl;
      })

side-IsShown :
    (asc : Bool) (depth : ℕ) (book : LimitOrderBook)
    → IsBook depth book
    → IsShown asc depth (side asc book)
side-IsShown true depth book v = v.asks
side-IsShown false depth book v = v.bids

-- Whatever messages came, malformed ones and those that find the table full included: every active
-- level of either side has a positive quantity and a positive number of orders, and all levels in
-- front of it, if there are any, are active with positive quantities and strictly better prices.
-- The book has at least one level, and the capacity is a power of two up to 2 ^ 63.
pub process_all-sorted :
    (asc : Bool) (depth k j : ℕ) (ms : List WireMessage)
    → 0 < depth
    → 2 ^ k ≤ 2 ^ 63
    → (level asc (process_all (reset depth (2 ^ k)) ms) j).active ≡ true
    → let book = process_all (reset depth (2 ^ k)) ms in
      IsLive (level asc book j)
      × All (InFrontOf asc (level asc book j).price) (take j (side asc book))
process_all-sorted asc depth k j ms some_depth small on =
    let book = process_all (reset depth (2 ^ k)) ms in
    let v =
      process_all-IsBook depth some_depth ms (reset depth (2 ^ k)) (reset-IsBook depth k small) in
    let s = side-IsShown asc depth book v in
    rw s.shown (
      shelf-IsLive asc _ s.rungs j s.ladder (rw s.shown at on),
      shelf-front asc _ s.rungs j s.ladder (rw s.shown at on),
    )

side-IsBest :
    (asc : Bool) (depth : ℕ) (book : LimitOrderBook)
    → IsBook depth book
    → IsBest asc (has_side asc book) (best_price asc book) (side asc book)
unfolding has_bids has_asks best_bid_price best_ask_price
side-IsBest true depth book v = rw v.asks.shown (shelf-IsBest true _ v.asks.rungs v.asks.ladder)
side-IsBest false depth book v = rw v.bids.shown (shelf-IsBest false _ v.bids.rungs v.bids.ladder)

-- In any book that messages can reach, for bids and for asks, whatever the other side holds:
-- `hasBids` or `hasAsks` tells whether some level of the side is active; no active level has a better
-- price than the best price; while there is an active level, one stands at the best price, and
-- otherwise it is 0. The book has at least one level, and the capacity is a power of two up to
-- 2 ^ 63.
pub getters-IsBest :
    (asc : Bool) (depth k : ℕ) (ms : List WireMessage)
    → 0 < depth
    → 2 ^ k ≤ 2 ^ 63
    → let book = process_all (reset depth (2 ^ k)) ms in
      IsBest asc (has_side asc book) (best_price asc book) (side asc book)
getters-IsBest asc depth k ms some_depth small =
    side-IsBest asc depth (process_all (reset depth (2 ^ k)) ms)
      (process_all-IsBook depth some_depth ms (reset depth (2 ^ k)) (reset-IsBook depth k small))

-- ===== src/Ladder/Spec.antt =====
-- The abstract ladder: the live levels of one side, best price first, with no empty slots.
use quant_feed_handler.Base.{
  ℕ, ◌-◌, List, [], ◌∷◌, ◌++◌, Bool, true, ◌≡◌, length, replicate, if◌then◌else◌,
}
use quant_feed_handler.Base.Int.{ℤ, pos, leb_ℤ, eqb_ℤ, ◌<ℤ◌}
use quant_feed_handler.Ladder.{PriceLevel, empty_level, beats, adjust, exhausted, fresh_level}

abbrev pub IsLive : PriceLevel → Type 0
IsLive l = (l.active ≡ true) × (pos 0 <ℤ l.quantity) × (pos 0 <ℤ l.order_count)

-- Every level of the list stands behind the price.
abbrev pub AllBehind : Bool → ℤ → List PriceLevel → Type 0
AllBehind asc p [] = Unit
AllBehind asc p (l ∷ ls) = (beats asc p l.price ≡ true) × AllBehind asc p ls

-- Live levels with positive volume and count, strictly sorted, best first.
abbrev pub IsLadder : Bool → List PriceLevel → Type 0
IsLadder asc [] = Unit
IsLadder asc (l ∷ ls) = IsLive l × AllBehind asc l.price ls × IsLadder asc ls

-- The array that shows a ladder: its levels, then empty slots.
abbrev pub pad : ℕ → List PriceLevel → List PriceLevel
pad depth ls = ls ++ replicate (depth - length ls) empty_level

-- What a delta at a price means for a ladder of any depth.
unfoldable pub apply : Bool → ℤ → ℤ → ℤ → List PriceLevel → List PriceLevel
apply asc price qty_delta order_delta [] =
    if leb_ℤ qty_delta (pos 0) then [] else fresh_level price qty_delta order_delta ∷ []
apply asc price qty_delta order_delta (l ∷ ls) =
    if eqb_ℤ l.price price
    then (if exhausted (adjust l qty_delta order_delta)
        then ls
        else adjust l qty_delta order_delta ∷ ls)
    else (if beats asc price l.price
        then (if leb_ℤ qty_delta (pos 0)
            then l ∷ ls
            else fresh_level price qty_delta order_delta ∷ l ∷ ls)
        else l ∷ apply asc price qty_delta order_delta ls)

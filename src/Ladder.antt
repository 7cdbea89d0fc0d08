-- ===== src/Ladder.antt =====
-- The price-depth array of include/feed_handler/order_book.hpp: `PriceLevel`, `applyDelta` and
-- `removeLevel`. The array is a list, and `Depth` is its length. A write past the end changes
-- nothing; `Depth` is taken to be at least 1 where it matters.
pub mod Spec
pub mod Search
pub mod Bubble
pub mod Remove
pub mod Refine
pub mod Stable
use quant_feed_handler.Base.{
  ℕ, zero, suc, ◌+◌, ◌-◌, List, [], ◌∷◌, Option, none, some, Bool, true, ◌&&◌, ◌||◌, length, get_or,
  set, ◌==◌, if◌then◌else◌,
}
use quant_feed_handler.Base.Int.{ℤ, pos, ◌+ℤ◌, wrap32, ltb_ℤ, leb_ℤ, eqb_ℤ}

pub record PriceLevel : Type 0 where
  pub price : ℤ
  pub quantity : ℤ
  pub order_count : ℤ
  pub active : Bool

abbrev pub empty_level : PriceLevel
empty_level = record { price = pos 0; quantity = pos 0; order_count = pos 0; active = Bool.false }

-- `improves` and `outOfOrder`: does the first price stand before the second on this side?
abbrev pub beats : Bool → ℤ → ℤ → Bool
beats ascending p q = if ascending then ltb_ℤ p q else ltb_ℤ q p

-- Step 1 of `applyDelta`: the first active level at the price. The list is `levels[i..)`.
unfoldable pub find_level : ℤ → ℕ → List PriceLevel → Option ℕ
find_level price i [] = none
find_level price i (l ∷ ls) =
    if l.active && eqb_ℤ l.price price then some i else find_level price (i + 1) ls

-- Step 2: the first inactive slot, `Depth` if there is none.
unfoldable pub find_free : ℕ → List PriceLevel → ℕ
find_free i [] = i
find_free i (l ∷ ls) = if l.active then find_free (i + 1) ls else i

unfoldable pub swap : List PriceLevel → ℕ → ℕ → List PriceLevel
swap levels i j = set (set levels i (get_or levels j empty_level)) j (get_or levels i empty_level)

-- Step 3: the `while (insertPos > 0)` loop, by recursion on `insertPos`.
unfoldable pub bubble : Bool → ℕ → List PriceLevel → List PriceLevel
bubble ascending zero levels = levels
bubble ascending (suc p) levels =
    let rest = bubble ascending p (swap levels (suc p) p) in
    if beats ascending (get_or levels (suc p) empty_level).price (get_or levels p empty_level).price
    then rest
    else levels

-- The loop of `removeLevel`, by recursion on the rounds left.
unfoldable pub shift_left : ℕ → ℕ → List PriceLevel → List PriceLevel
shift_left zero i levels = levels
shift_left (suc n) i levels =
    shift_left n (i + 1) (set levels i (get_or levels (i + 1) empty_level))

unfoldable pub remove_level : List PriceLevel → ℕ → List PriceLevel
remove_level levels idx =
    set (shift_left (length levels - 1 - idx) idx levels) (length levels - 1) empty_level

-- `levels[i].quantity += qtyDelta; levels[i].orderCount += orderDelta`
abbrev pub adjust : PriceLevel → ℤ → ℤ → PriceLevel
adjust l qty_delta order_delta = record l {
  quantity = wrap32 (l.quantity +ℤ qty_delta);
  order_count = wrap32 (l.order_count +ℤ order_delta);
}

abbrev pub exhausted : PriceLevel → Bool
exhausted l = leb_ℤ l.quantity (pos 0) || leb_ℤ l.order_count (pos 0)

-- `PriceLevel{price, qtyDelta, (orderDelta > 0 ? orderDelta : 1), true}`
abbrev pub fresh_level : ℤ → ℤ → ℤ → PriceLevel
fresh_level p qty_delta order_delta = record {
  price = p;
  quantity = qty_delta;
  order_count = if ltb_ℤ (pos 0) order_delta then order_delta else pos 1;
  active = true;
}

unfoldable pub update_level : List PriceLevel → ℕ → ℤ → ℤ → List PriceLevel
update_level levels i qty_delta order_delta =
    let l = adjust (get_or levels i empty_level) qty_delta order_delta in
    let levels' = set levels i l in if exhausted l then remove_level levels' i else levels'

unfoldable pub place_level : List PriceLevel → ℕ → ℤ → ℤ → ℤ → Bool → List PriceLevel
place_level levels at price qty_delta order_delta ascending =
    bubble ascending at (set levels at (fresh_level price qty_delta order_delta))

unfoldable pub insert_level : List PriceLevel → ℤ → ℤ → ℤ → Bool → List PriceLevel
insert_level levels price qty_delta order_delta ascending =
    let depth = length levels in
    let free = find_free 0 levels in
    if free == depth
    then (if beats ascending price (get_or levels (depth - 1) empty_level).price
        then place_level levels (depth - 1) price qty_delta order_delta ascending
        else levels)
    else place_level levels free price qty_delta order_delta ascending

unfoldable pub apply_delta : List PriceLevel → ℤ → ℤ → ℤ → Bool → List PriceLevel
apply_delta levels price qty_delta order_delta ascending = elim (find_level price 0 levels) [
  | some i ↦ update_level levels i qty_delta order_delta
  | none ↦
      if leb_ℤ qty_delta (pos 0)
      then levels
      else insert_level levels price qty_delta order_delta ascending
]

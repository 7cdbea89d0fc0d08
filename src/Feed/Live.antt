-- ===== src/Feed/Live.antt =====
-- The orders that may still be cancelled have numbers that were given out.
use quant_feed_handler.Base.{
  ℕ, zero, suc, ◌-◌, ◌≤◌, ◌<◌, List, [], ◌∷◌, ◌++◌, length, get_or, set, take, arith,
}
use quant_feed_handler.Feed.{drop_order}

-- Every order that may still be cancelled has a number below the next one.
abbrev pub AllBelow : ℕ → List ℕ → Type 0
AllBelow limit [] = Unit
AllBelow limit (x ∷ xs) = (x < limit) × AllBelow limit xs

pub get_or-AllBelow :
    (limit : ℕ) (xs : List ℕ) (i : ℕ) → 0 < limit → AllBelow limit xs → get_or xs i 0 < limit
get_or-AllBelow limit [] i some_limit h = some_limit
get_or-AllBelow limit (x ∷ xs) zero some_limit h = h.0
get_or-AllBelow limit (x ∷ xs) (suc i) some_limit h = get_or-AllBelow limit xs i some_limit h.1

pub AllBelow-mono : (m n : ℕ) (xs : List ℕ) → m ≤ n → AllBelow m xs → AllBelow n xs
AllBelow-mono m n [] le h = tt
AllBelow-mono m n (x ∷ xs) le h = (omega (arith, h.0), AllBelow-mono m n xs le h.1)

pub AllBelow-snoc : (n x : ℕ) (xs : List ℕ) → x < n → AllBelow n xs → AllBelow n (xs ++ x ∷ [])
AllBelow-snoc n x [] lt h = (lt, tt)
AllBelow-snoc n x (y ∷ xs) lt h = (h.0, AllBelow-snoc n x xs lt h.1)

AllBelow-take : (n k : ℕ) (xs : List ℕ) → AllBelow n xs → AllBelow n (take k xs)
AllBelow-take n zero xs h = tt
AllBelow-take n (suc k) [] h = tt
AllBelow-take n (suc k) (x ∷ xs) h = (h.0, AllBelow-take n k xs h.1)

AllBelow-set : (n : ℕ) (xs : List ℕ) (i x : ℕ) → x < n → AllBelow n xs → AllBelow n (set xs i x)
AllBelow-set n [] i x lt h = tt
AllBelow-set n (y ∷ xs) zero x lt h = (lt, h.1)
AllBelow-set n (y ∷ xs) (suc i) x lt h = (h.0, AllBelow-set n xs i x lt h.1)

pub drop_order-AllBelow :
    (n : ℕ) (xs : List ℕ) (i : ℕ) → 0 < n → AllBelow n xs → AllBelow n (drop_order xs i)
unfolding drop_order
drop_order-AllBelow n xs i some_n h =
    AllBelow-take n (length xs - 1) _
      (AllBelow-set n xs i _ (get_or-AllBelow n xs (length xs - 1) some_n h) h)

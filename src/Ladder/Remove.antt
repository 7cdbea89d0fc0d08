-- ===== src/Ladder/Remove.antt =====
-- `removeLevel` closes the gap and frees the last slot.
use mathlib.Core.List.{append_assoc}
use quant_feed_handler.Base.{
  ℕ, suc, ◌+◌, ◌-◌, List, [], ◌∷◌, ◌++◌, ◌≡◌, refl, sym, length, get_or, set, length-append, arith,
}
use quant_feed_handler.Base.Arrays.{
  rev_onto, get_or-rev_onto, set-rev_onto, rev_onto-rev_onto, length-rev_onto,
}
use quant_feed_handler.Ladder.{PriceLevel, empty_level, shift_left, remove_level}

shift_left-suc :
    (n i : ℕ) (levels : List PriceLevel)
    → shift_left (suc n) i levels
      ≡ shift_left n (i + 1) (set levels i (get_or levels (i + 1) empty_level))
unfolding shift_left
shift_left-suc n i levels = refl

shift_left-rev_onto :
    (xs : List PriceLevel) (l : PriceLevel) (ys : List PriceLevel) (i : ℕ)
    → i ≡ length xs
    → set (shift_left (length ys) i (rev_onto xs (l ∷ ys))) (length xs + length ys) empty_level
      ≡ rev_onto xs (ys ++ empty_level ∷ [])
unfolding shift_left rev_onto
shift_left-rev_onto xs l [] i e =
    set-rev_onto xs (l ∷ []) 0 (length xs + 0) empty_level (omega arith)
shift_left-rev_onto xs l (y ∷ ys) i e =
    let index : length xs + suc (length ys) ≡ suc (length xs) + length ys = omega arith in
    rw
      (
        shift_left-suc,
        get_or-rev_onto xs (l ∷ y ∷ ys) 1 (i + 1) empty_level (omega arith),
        set-rev_onto xs (l ∷ y ∷ ys) 0 i y (omega arith),
        index,
      )
      (shift_left-rev_onto (y ∷ xs) y ys (i + 1) (omega arith))

pub remove_level-append :
    (xs : List PriceLevel) (l : PriceLevel) (ys : List PriceLevel)
    → remove_level (xs ++ l ∷ ys) (length xs) ≡ xs ++ ys ++ empty_level ∷ []
unfolding remove_level rev_onto
remove_level-append xs l ys =
    let size : length (xs ++ l ∷ ys) ≡ suc (length xs + length ys) =
      omega (arith, length-append xs (l ∷ ys)) in
    let rounds : suc (length xs + length ys) - 1 - length xs ≡ length ys = omega arith in
    let last : suc (length xs + length ys) - 1 ≡ length xs + length ys = omega arith in
    let back : length (rev_onto xs []) ≡ length xs = omega (arith, length-rev_onto xs []) in
    let moved = shift_left-rev_onto (rev_onto xs []) l ys (length xs) (sym back) in
    rw (size, rounds, last, append_assoc)
      (rw (rev_onto-rev_onto xs [] (l ∷ ys), rev_onto-rev_onto xs [] (ys ++ empty_level ∷ []), back)
        at moved)

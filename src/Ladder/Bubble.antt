-- ===== src/Ladder/Bubble.antt =====
-- The insertion sort of `applyDelta`: bubbling a new last level up is sorted insertion.
use quant_feed_handler.Base.{
  suc, List, [], ◌∷◌, ◌++◌, Bool, false, ◌≡◌, refl, ap, sym, ◌∙◌, inl, inr, length, set, Bool-cases,
  if◌then◌else◌, arith,
}
use mathlib.Core.List.{append-nil}
use quant_feed_handler.Base.Arrays.{
  rev_onto, get_or-rev_onto, set-rev_onto, rev_onto-rev_onto, length-rev_onto, rev_onto-append,
}
use quant_feed_handler.Ladder.{PriceLevel, empty_level, beats, swap, bubble}
use quant_feed_handler.Ladder.Spec.{IsLadder}
use quant_feed_handler.Ladder.Search.{insert, beats-false_of_behind}

module _ (asc : Bool) where
  -- What `bubble` does, seen from the new level: the levels before it in reverse.
  sift : List PriceLevel → PriceLevel → List PriceLevel → List PriceLevel
  sift [] new rest = new ∷ rest
  sift (y ∷ ys) new rest =
      if beats asc new.price y.price then sift ys new (y ∷ rest) else rev_onto ys (y ∷ new ∷ rest)

  swap-rev_onto :
      (ys : List PriceLevel) (y new : PriceLevel) (rest : List PriceLevel)
      → set (set (rev_onto ys (y ∷ new ∷ rest)) (suc (length ys)) y) (length ys) new
        ≡ rev_onto ys (new ∷ y ∷ rest)
  swap-rev_onto ys y new rest =
      rw (set-rev_onto ys (y ∷ new ∷ rest) 1 (suc (length ys)) y (omega arith))
        (set-rev_onto ys (y ∷ y ∷ rest) 0 (length ys) new (omega arith))

  bubble-sift :
      (ys : List PriceLevel) (new : PriceLevel) (rest : List PriceLevel)
      → bubble asc (length ys) (rev_onto ys (new ∷ rest)) ≡ sift ys new rest
  unfolding bubble swap sift rev_onto
  bubble-sift [] new rest = refl
  bubble-sift (y ∷ ys) new rest =
      rw
        (
          get_or-rev_onto ys (y ∷ new ∷ rest) 0 (length ys) empty_level (omega arith),
          get_or-rev_onto ys (y ∷ new ∷ rest) 1 (suc (length ys)) empty_level (omega arith),
          swap-rev_onto ys y new rest,
          bubble-sift ys new (y ∷ rest),
        )
        refl

  -- The level beats none of the list.
  abbrev BeatsNone : PriceLevel → List PriceLevel → Type 0
  BeatsNone new [] = Unit
  BeatsNone new (l ∷ ls) = (beats asc new.price l.price ≡ false) × BeatsNone new ls

  insert-skip :
      (new : PriceLevel) (ys zs zs' : List PriceLevel)
      → BeatsNone new ys
      → insert asc new zs ≡ zs'
      → insert asc new (rev_onto ys zs) ≡ rev_onto ys zs'
  unfolding rev_onto insert
  insert-skip new [] zs zs' h e = e
  insert-skip new (y ∷ ys) zs zs' h e =
      insert-skip new ys (y ∷ zs) (y ∷ zs') h.1 (rw h.0 (ap (λ ls. y ∷ ls) e))

  IsLadder-rev_onto : (ys zs : List PriceLevel) → IsLadder asc (rev_onto ys zs) → IsLadder asc zs
  unfolding rev_onto
  IsLadder-rev_onto [] zs h = h
  IsLadder-rev_onto (y ∷ ys) zs h = (IsLadder-rev_onto ys (y ∷ zs) h).2

  BeatsNone-of_head :
      (new : PriceLevel) (ys : List PriceLevel) (y : PriceLevel) (rest : List PriceLevel)
      → IsLadder asc (rev_onto ys (y ∷ rest))
      → beats asc new.price y.price ≡ false
      → BeatsNone new ys
  unfolding rev_onto
  BeatsNone-of_head new [] y rest h e = tt
  BeatsNone-of_head new (z ∷ ys) y rest h e =
      let front = (IsLadder-rev_onto ys (z ∷ y ∷ rest) h).1.0 in
      let e' = beats-false_of_behind asc z.price y.price new.price front e in
      (e', BeatsNone-of_head new ys z (y ∷ rest) h e')

  sift-insert :
      (ys : List PriceLevel) (new : PriceLevel) (rest ps : List PriceLevel)
      → IsLadder asc (rev_onto ys rest)
      → insert asc new rest ≡ new ∷ rest
      → sift ys new (rest ++ ps) ≡ insert asc new (rev_onto ys rest) ++ ps
  unfolding sift rev_onto insert
  sift-insert [] new rest ps h e = ap (λ ls. ls ++ ps) (sym e)
  sift-insert (y ∷ ys) new rest ps h e = elim (Bool-cases (beats asc new.price y.price)) [
    | inl b ↦ rw b (sift-insert ys new (y ∷ rest) ps h (rw b))
    | inr b ↦
        rw
          (
            b,
            insert-skip new ys (y ∷ rest) (y ∷ new ∷ rest) (BeatsNone-of_head new ys y rest h b)
                (rw (b, e)),
          )
          (rev_onto-append ys (y ∷ new ∷ rest) ps)
  ]

  -- Bubbling a level that stands behind a ladder inserts it in order.
  pub bubble-insert :
      (xs : List PriceLevel) (new : PriceLevel) (ps : List PriceLevel)
      → IsLadder asc xs
      → bubble asc (length xs) (xs ++ new ∷ ps) ≡ insert asc new xs ++ ps
  unfolding rev_onto insert
  bubble-insert xs new ps h =
      let back : length (rev_onto xs []) ≡ length xs = omega (arith, length-rev_onto xs []) in
      let sifted =
        sift-insert (rev_onto xs []) new [] ps (rw (rev_onto-rev_onto xs [] [], append-nil xs) h)
          refl in
      let bubbled = bubble-sift (rev_onto xs []) new ps in
      rw (rev_onto-rev_onto xs [] (new ∷ ps), back) at bubbled
      ∙ sifted
      ∙ rw (rev_onto-rev_onto xs [] [], append-nil xs) refl

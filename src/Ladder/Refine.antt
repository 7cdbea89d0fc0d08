-- ===== src/Ladder/Refine.antt =====
-- `applyDelta` on the array is the abstract `apply` on the ladder that the array shows, cut to the
-- depth of the book.
use mathlib.Core.Path.{subst}
use mathlib.Core.List.{append-nil, append_assoc}
use native.Mathlib.Decide.{dec_lt}
use quant_feed_handler.Base.{
  some, none, ℕ, suc, ◌+◌, ◌-◌, ◌≤◌, ◌<◌, List, [], ◌∷◌, ◌++◌, Bool, true, false, ◌≡◌, refl, ap,
  sym, ◌∙◌, inl, inr, length, take, replicate, length-append, length-replicate, length-take,
  Bool-cases, ◌==◌, if◌then◌else◌, arith,
}
use quant_feed_handler.Base.Int.{ℤ, pos, leb_ℤ}
use quant_feed_handler.Base.Arrays.{
  get_or-append, set-append, take_all, take-append_left, replicate-snoc, Snoc-view,
}
use quant_feed_handler.Ladder.{
  PriceLevel, empty_level, find_level, beats, adjust, exhausted, fresh_level, update_level,
  place_level, insert_level, find_free, apply_delta,
}
use quant_feed_handler.Ladder.Spec.{AllBehind, IsLadder, pad, apply}
use quant_feed_handler.Ladder.Search.{
  search, insert, beats-false_of_behind, AllBehind-mid, find_free-live,
}
use quant_feed_handler.Ladder.Bubble.{bubble-insert}
use quant_feed_handler.Ladder.Remove.{remove_level-append}

pub length-pad :
    (depth : ℕ) (rungs : List PriceLevel) → length rungs ≤ depth → length (pad depth rungs) ≡ depth
length-pad depth rungs fits = omega (
  arith,
  length-append rungs (replicate (depth - length rungs) empty_level),
  length-replicate (depth - length rungs) empty_level,
)

pub length-insert :
    (asc : Bool) (new : PriceLevel) (ls : List PriceLevel)
    → length (insert asc new ls) ≡ suc (length ls)
unfolding insert
length-insert asc new [] = refl
length-insert asc new (l ∷ ls) = ground (arith, length-insert asc new ls)

module _ (asc : Bool) where
  IsLadder-init :
      (xs : List PriceLevel) (w : PriceLevel) → IsLadder asc (xs ++ w ∷ []) → IsLadder asc xs
  IsLadder-init [] w h = tt
  IsLadder-init (x ∷ xs) w h = (h.0, AllBehind-init xs h.1, IsLadder-init xs w h.2)
    where
      AllBehind-init :
          (ys : List PriceLevel) → AllBehind asc x.price (ys ++ w ∷ []) → AllBehind asc x.price ys
      AllBehind-init [] k = tt
      AllBehind-init (y ∷ ys) k = (k.0, AllBehind-init ys k.1)

  insert-snoc :
      (new : PriceLevel) (xs : List PriceLevel) (w : PriceLevel)
      → beats asc new.price w.price ≡ true
      → insert asc new (xs ++ w ∷ []) ≡ insert asc new xs ++ w ∷ []
  unfolding insert
  insert-snoc new [] w h = rw h
  insert-snoc new (x ∷ xs) w h = elim (Bool-cases (beats asc new.price x.price)) [
    | inl b ↦ rw b
    | inr b ↦ rw b (ap (λ l. x ∷ l) (insert-snoc new xs w h))
  ]

  insert-last :
      (new : PriceLevel) (xs : List PriceLevel) (w : PriceLevel)
      → IsLadder asc (xs ++ w ∷ [])
      → beats asc new.price w.price ≡ false
      → insert asc new (xs ++ w ∷ []) ≡ (xs ++ w ∷ []) ++ new ∷ []
  unfolding insert
  insert-last new [] w h e = rw e
  insert-last new (x ∷ xs) w h e =
      let first = AllBehind-mid asc x.price xs w [] h.1 in
      rw (beats-false_of_behind asc x.price w.price new.price first e)
        (ap (λ l. x ∷ l) (insert-last new xs w h.2 e))

-- One slot less in use is one slot more of padding.
pad-remove :
    (depth : ℕ) (xs : List PriceLevel) (ys : List PriceLevel)
    → suc (length xs + length ys) ≤ depth
    → xs ++ (ys ++ replicate (depth - suc (length xs + length ys)) empty_level) ++ empty_level ∷ []
      ≡ pad depth (xs ++ ys)
pad-remove depth xs ys fits =
    let n = depth - suc (length xs + length ys) in
    let e : depth - length (xs ++ ys) ≡ suc n = omega (arith, length-append xs ys) in
    rw (e, append_assoc, append_assoc, append_assoc) (rw replicate-snoc)

module _ (asc : Bool) (price qty_delta order_delta : ℤ) (depth : ℕ) where
  update_level-append :
      (xs : List PriceLevel) (l : PriceLevel) (rest : List PriceLevel)
      → update_level (xs ++ l ∷ rest) (length xs) qty_delta order_delta ≡ (
          if exhausted (adjust l qty_delta order_delta)
          then xs ++ rest ++ empty_level ∷ []
          else xs ++ adjust l qty_delta order_delta ∷ rest)
  unfolding update_level
  update_level-append xs l rest =
      let new = adjust l qty_delta order_delta in
      rw (
        get_or-append xs l rest empty_level,
        set-append xs l rest new,
        remove_level-append xs new rest,
      )

  update_level-pad :
      (xs : List PriceLevel) (l : PriceLevel) (ys : List PriceLevel)
      → length (xs ++ l ∷ ys) ≤ depth
      → update_level (pad depth (xs ++ l ∷ ys)) (length xs) qty_delta order_delta
        ≡ pad depth (
            xs
            ++ (if exhausted (adjust l qty_delta order_delta)
                then ys
                else adjust l qty_delta order_delta ∷ ys))
  update_level-pad xs l ys fits =
      let new = adjust l qty_delta order_delta in
      let size : length (xs ++ l ∷ ys) ≡ suc (length xs + length ys) =
        omega (arith, length-append xs (l ∷ ys)) in
      let size' : length (xs ++ new ∷ ys) ≡ suc (length xs + length ys) =
        omega (arith, length-append xs (new ∷ ys)) in
      let n = depth - suc (length xs + length ys) in
      let e = update_level-append xs l (ys ++ replicate n empty_level) in
      rw (size, append_assoc, e)
        (elim (Bool-cases (exhausted new)) [
          | inl gone ↦ rw gone (pad-remove depth xs ys (rw size at fits))
          | inr stays ↦ rw (stays, size') (sym (append_assoc xs (new ∷ ys) _))
        ])

  place_level-free :
      (xs ps : List PriceLevel) (old : PriceLevel) (at : ℕ)
      → at ≡ length xs
      → IsLadder asc xs
      → place_level (xs ++ old ∷ ps) at price qty_delta order_delta asc
        ≡ insert asc (fresh_level price qty_delta order_delta) xs ++ ps
  unfolding place_level
  place_level-free xs ps old at e h =
      rw (e, set-append xs old ps (fresh_level price qty_delta order_delta))
        (bubble-insert asc xs (fresh_level price qty_delta order_delta) ps h)

  insert_level-room :
      (rungs : List PriceLevel)
      → IsLadder asc rungs
      → length rungs < depth
      → insert_level (pad depth rungs) price qty_delta order_delta asc
        ≡ pad depth (insert asc (fresh_level price qty_delta order_delta) rungs)
  unfolding insert_level
  insert_level-room rungs h room =
      let new = fresh_level price qty_delta order_delta in
      let n = depth - suc (length rungs) in
      let gap : depth - length rungs ≡ suc n = omega arith in
      let gap' : depth - length (insert asc new rungs) ≡ n =
        omega (arith, length-insert asc new rungs) in
      let size = length-pad depth rungs (omega arith) in
      let free = find_free-live asc rungs 0 (depth - length rungs) h in
      let differ : length rungs + 0 == depth ≡ false = ground arith in
      rw (free, size, differ, gap, gap')
        (place_level-free rungs (replicate n empty_level) empty_level (length rungs + 0)
          (omega arith) h)

  insert_level-full :
      (xs : List PriceLevel) (worst : PriceLevel)
      → IsLadder asc (xs ++ worst ∷ [])
      → length (xs ++ worst ∷ []) ≡ depth
      → insert_level (xs ++ worst ∷ []) price qty_delta order_delta asc
        ≡ take depth (insert asc (fresh_level price qty_delta order_delta) (xs ++ worst ∷ []))
  unfolding insert_level
  insert_level-full xs worst h full =
      let new = fresh_level price qty_delta order_delta in
      let size = length-append xs (worst ∷ []) in
      let last : depth - 1 ≡ length xs = omega arith in
      let free : find_free 0 (xs ++ worst ∷ []) ≡ depth =
        rw (append-nil (xs ++ worst ∷ [])) at (find_free-live asc (xs ++ worst ∷ []) 0 0 h)
        ∙ omega arith in
      let same : depth == depth ≡ true = ground arith in
      rw (free, full, same, last, get_or-append xs worst [] empty_level)
        (elim (Bool-cases (beats asc price worst.price)) [
          | inl better ↦ rw (
            better,
            place_level-free xs [] worst (length xs) refl (IsLadder-init asc xs worst h),
            append-nil,
            insert-snoc asc new xs worst better,
            take-append_left depth (insert asc new xs) (worst ∷ [])
                (omega (arith, length-insert asc new xs)),
          )
          | inr worse ↦ rw (
            worse,
            insert-last asc new xs worst h worse,
            take-append_left depth (xs ++ worst ∷ []) (new ∷ []) full,
          )
        ])

  insert_level-pad_full :
      (rungs : List PriceLevel)
      → IsLadder asc rungs
      → length rungs ≡ depth
      → 0 < depth
      → insert_level (pad depth rungs) price qty_delta order_delta asc
        ≡ pad depth (take depth (insert asc (fresh_level price qty_delta order_delta) rungs))
  insert_level-pad_full [] h full some_depth = absurd (omega arith)
  insert_level-pad_full (r ∷ rs) h full some_depth =
      let new = fresh_level price qty_delta order_delta in
      let view = Snoc-view r rs in
      let size : length (take depth (insert asc new (r ∷ rs))) ≡ depth =
        omega
          (arith, length-take depth (insert asc new (r ∷ rs)), length-insert asc new (r ∷ rs)) in
      let none_free : depth - depth ≡ 0 = omega arith in
      let cut =
        insert_level-full view.init view.last (subst (IsLadder asc) view.snoc h)
          (sym (ap length view.snoc) ∙ full) in
      rw (full, size, none_free, append-nil, append-nil) (rw (← view.snoc) at cut)

  insert_level-pad :
      (rungs : List PriceLevel)
      → IsLadder asc rungs
      → length rungs ≤ depth
      → 0 < depth
      → insert_level (pad depth rungs) price qty_delta order_delta asc
        ≡ pad depth (take depth (insert asc (fresh_level price qty_delta order_delta) rungs))
  insert_level-pad rungs h fits some_depth =
      let new = fresh_level price qty_delta order_delta in
      elim (dec_lt (length rungs) depth) [
        | yes room ↦ rw (
          insert_level-room rungs h room,
          take_all depth (insert asc new rungs) (omega (arith, length-insert asc new rungs)),
        )
        | no none_left ↦
            let full : length rungs ≡ depth = omega arith in
            insert_level-pad_full rungs h full some_depth
      ]

  -- On an array that shows a ladder, `applyDelta` shows the ladder after the abstract delta, cut
  -- to the depth of the book.
  apply_delta-found :
      (levels : List PriceLevel) (i : ℕ)
      → find_level price 0 levels ≡ some i
      → apply_delta levels price qty_delta order_delta asc
        ≡ update_level levels i qty_delta order_delta
  unfolding apply_delta
  apply_delta-found levels i e = rw (e, apply_delta)

  apply_delta-missing :
      (levels : List PriceLevel)
      → find_level price 0 levels ≡ none
      → apply_delta levels price qty_delta order_delta asc ≡ (
          if leb_ℤ qty_delta (pos 0)
          then levels
          else insert_level levels price qty_delta order_delta asc)
  unfolding apply_delta
  apply_delta-missing levels e = rw (e, apply_delta)

  length-update :
      (xs ys : List PriceLevel) (l : PriceLevel) (b : Bool) (l' : PriceLevel)
      → length (xs ++ l ∷ ys) ≤ depth
      → length (xs ++ (if b then ys else l' ∷ ys)) ≤ depth
  length-update xs ys l b l' fits =
      ground (arith, length-append xs (l ∷ ys), length-append xs ys, length-append xs (l' ∷ ys))

  -- On an array of `depth` levels, at least one, that shows a sorted ladder of live levels, the code
  -- computes what the abstract delta does to the ladder, cut to the depth.
  pub apply_delta-refines :
      (rungs : List PriceLevel)
      → IsLadder asc rungs
      → length rungs ≤ depth
      → 0 < depth
      → apply_delta (pad depth rungs) price qty_delta order_delta asc
        ≡ pad depth (take depth (apply asc price qty_delta order_delta rungs))
  apply_delta-refines rungs h fits some_depth =
      elim (search asc price qty_delta order_delta rungs h) [
        | inl f ↦
            let new = adjust f.level qty_delta order_delta in
            let fits' : length (f.before ++ f.level ∷ f.behind) ≤ depth = rw f.split at fits in
            let means : take depth (apply asc price qty_delta order_delta rungs)
                ≡ f.before ++ (if exhausted new then f.behind else new ∷ f.behind) =
              rw (
                f.means,
                take_all depth _
                    (length-update f.before f.behind f.level (exhausted new) new fits'),
              ) in
            let at : length f.before + 0 ≡ length f.before = omega arith in
            let shown : pad depth rungs ≡ pad depth (f.before ++ f.level ∷ f.behind) =
              ap (pad depth) f.split in
            rw
              (
                apply_delta-found (pad depth rungs) (length f.before + 0) (f.finds 0 _),
                means,
                at,
                shown,
              )
              (update_level-pad f.before f.level f.behind fits')
        | inr m ↦
            rw (apply_delta-missing (pad depth rungs) (m.finds 0 (depth - length rungs)), m.means)
              (elim (Bool-cases (leb_ℤ qty_delta (pos 0))) [
                | inl none_added ↦ rw (none_added, take_all depth rungs fits)
                | inr added ↦ rw added (insert_level-pad rungs h fits some_depth)
              ])
      ]

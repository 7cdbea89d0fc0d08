-- ===== src/Base/Arrays.antt =====
-- Arrays seen as a part before an index, the entry there and the rest: the forms in which the
-- in-place loops are described.
use Prim.Native.Nat.{ℕ, zero, suc, ◌+◌, ◌≤◌, ◌<◌}
use mathlib.Core.Path.{◌≡◌, refl, ap}
use mathlib.Core.Logic.{◌≢◌}
use mathlib.Core.List.{List, [], ◌∷◌, ◌++◌}
use native.Mathlib.Omega.{arith}
use quant_feed_handler.Base.Lists.{length, get_or, set, take, replicate}

module _ {ℓ} {A : Type ℓ} where
  -- The first list reversed, in front of the second.
  unfoldable pub rev_onto : List A → List A → List A
  rev_onto [] ys = ys
  rev_onto (x ∷ xs) ys = rev_onto xs (x ∷ ys)

  pub get_or-rev_onto :
      (xs zs : List A) (k n : ℕ) (d : A)
      → n ≡ length xs + k
      → get_or (rev_onto xs zs) n d ≡ get_or zs k d
  unfolding rev_onto
  get_or-rev_onto [] zs k n d e = let e' : n ≡ k = omega arith in rw e'
  get_or-rev_onto (x ∷ xs) zs k n d e = get_or-rev_onto xs (x ∷ zs) (suc k) n d (omega arith)

  pub set-rev_onto :
      (xs zs : List A) (k n : ℕ) (v : A)
      → n ≡ length xs + k
      → set (rev_onto xs zs) n v ≡ rev_onto xs (set zs k v)
  unfolding rev_onto
  set-rev_onto [] zs k n v e = let e' : n ≡ k = omega arith in rw e'
  set-rev_onto (x ∷ xs) zs k n v e = set-rev_onto xs (x ∷ zs) (suc k) n v (omega arith)

  pub rev_onto-rev_onto :
      (xs ys zs : List A) → rev_onto (rev_onto xs ys) zs ≡ rev_onto ys (xs ++ zs)
  unfolding rev_onto
  rev_onto-rev_onto [] ys zs = refl
  rev_onto-rev_onto (x ∷ xs) ys zs = rev_onto-rev_onto xs (x ∷ ys) zs

  pub length-rev_onto : (xs ys : List A) → length (rev_onto xs ys) ≡ length xs + length ys
  unfolding rev_onto
  length-rev_onto [] ys = omega arith
  length-rev_onto (x ∷ xs) ys = omega (arith, length-rev_onto xs (x ∷ ys))

  pub rev_onto-append : (ys zs ps : List A) → rev_onto ys (zs ++ ps) ≡ rev_onto ys zs ++ ps
  unfolding rev_onto
  rev_onto-append [] zs ps = refl
  rev_onto-append (y ∷ ys) zs ps = rev_onto-append ys (y ∷ zs) ps

  pub get_or-append :
      (xs : List A) (y : A) (ys : List A) (d : A) → get_or (xs ++ y ∷ ys) (length xs) d ≡ y
  get_or-append [] y ys d = refl
  get_or-append (x ∷ xs) y ys d = get_or-append xs y ys d

  pub get_or-append_left :
      (xs ys : List A) (i : ℕ) (d : A) → i < length xs → get_or (xs ++ ys) i d ≡ get_or xs i d
  get_or-append_left [] ys i d h = absurd (omega arith)
  get_or-append_left (x ∷ xs) ys zero d h = refl
  get_or-append_left (x ∷ xs) ys (suc i) d h = get_or-append_left xs ys i d (omega arith)

  pub set-append :
      (xs : List A) (y : A) (ys : List A) (v : A) → set (xs ++ y ∷ ys) (length xs) v ≡ xs ++ v ∷ ys
  set-append [] y ys v = refl
  set-append (x ∷ xs) y ys v = ap (λ l. x ∷ l) (set-append xs y ys v)

  pub take_all : (n : ℕ) (xs : List A) → length xs ≤ n → take n xs ≡ xs
  take_all zero [] h = refl
  take_all zero (x ∷ xs) h = absurd (omega arith)
  take_all (suc n) [] h = refl
  take_all (suc n) (x ∷ xs) h = ap (λ l. x ∷ l) (take_all n xs (omega arith))

  pub take-append_left : (n : ℕ) (xs ys : List A) → length xs ≡ n → take n (xs ++ ys) ≡ xs
  take-append_left zero [] ys h = refl
  take-append_left zero (x ∷ xs) ys h = absurd (omega arith)
  take-append_left (suc n) [] ys h = absurd (omega arith)
  take-append_left (suc n) (x ∷ xs) ys h = ap (λ l. x ∷ l) (take-append_left n xs ys (omega arith))

  pub replicate-snoc : (n : ℕ) (a : A) → replicate n a ++ a ∷ [] ≡ a ∷ replicate n a
  replicate-snoc zero a = refl
  replicate-snoc (suc n) a = ap (λ l. a ∷ l) (replicate-snoc n a)

  pub get_or-set_self :
      (xs : List A) (i : ℕ) (v d : A) → i < length xs → get_or (set xs i v) i d ≡ v
  get_or-set_self [] i v d h = absurd (omega arith)
  get_or-set_self (x ∷ xs) zero v d h = refl
  get_or-set_self (x ∷ xs) (suc i) v d h = get_or-set_self xs i v d (omega arith)

  pub get_or-set_ne :
      (xs : List A) (i j : ℕ) (v d : A) → i ≢ j → get_or (set xs i v) j d ≡ get_or xs j d
  get_or-set_ne [] i j v d h = refl
  get_or-set_ne (x ∷ xs) zero zero v d h = absurd (h refl)
  get_or-set_ne (x ∷ xs) zero (suc j) v d h = refl
  get_or-set_ne (x ∷ xs) (suc i) zero v d h = refl
  get_or-set_ne (x ∷ xs) (suc i) (suc j) v d h = get_or-set_ne xs i j v d (λ e. h (ap suc e))

  pub get_or-replicate : (n i : ℕ) (a : A) → get_or (replicate n a) i a ≡ a
  get_or-replicate zero i a = refl
  get_or-replicate (suc n) zero a = refl
  get_or-replicate (suc n) (suc i) a = get_or-replicate n i a

  -- A list that is not empty has a last entry.
  pub record Snoc (xs : List A) : Type ℓ where
    pub init : List A
    pub last : A
    pub snoc : xs ≡ init ++ last ∷ []

  pub Snoc-view : (x : A) (xs : List A) → Snoc (x ∷ xs)
  Snoc-view x [] = record { init = []; last = x; snoc = refl }
  Snoc-view x (y ∷ xs) =
      let s = Snoc-view y xs in
      record { init = x ∷ s.init; last = s.last; snoc = ap (λ l. x ∷ l) s.snoc }

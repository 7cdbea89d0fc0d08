-- ===== src/Latency/Places.antt =====
-- Where the percentiles of sorted samples stand, and that the rank of `percentile` finds them there.
use quant_feed_handler.Base.{
  ℕ, suc, ◌-◌, ◌^◌, ◌≤◌, ◌<◌, ◌⊎◌, List, [], ◌∷◌, true, false, ◌≡◌, refl, ap, ap₂, ◌∙◌, inl, inr,
  map, length, get_or, All, arith,
}
use quant_feed_handler.Base.Int.{ℤ, pos}
use quant_feed_handler.Latency.{Doubles, rank_of, interpolated, value_at}

-- Where a percentile stands among the sorted samples: at one of them, or at this weight on the way
-- to the next one.
pub data Place (d : Doubles) : Type 0 where
  exactly : ℕ → Place d
  between : ℕ → d.Double → Place d

module _ (d : Doubles) where
  abbrev pub read_off : List ℤ → Place d → d.Double
  read_off sorted (exactly k) = d.of_ns (get_or sorted k (pos 0))
  read_off sorted (between k weight) =
      d.plus (d.times (d.of_ns (get_or sorted k (pos 0))) (d.minus (d.of_size 1) weight))
        (d.times (d.of_ns (get_or sorted (suc k) (pos 0))) weight)

  -- The hundredth part of `p` of the way from the first of `n` samples to the last.
  abbrev pub way : d.Double → ℕ → d.Double
  way p n = d.times (d.over p (d.of_size 100)) (d.of_size (n - 1))

  -- The least sample for at most 0, the greatest for at least 100, and what is that part of the way
  -- otherwise.
  abbrev pub IsPlace : ℕ → d.Double → Place d → Type 0
  IsPlace n p (exactly k) =
      ((d.is_at_most_zero p ≡ true) × (k ≡ 0))
      ⊎ (((d.is_at_most_zero p ≡ false) × (d.is_at_least_hundred p ≡ true) × (k ≡ n - 1))
          ⊎ ((d.is_at_most_zero p ≡ false)
              × (d.is_at_least_hundred p ≡ false)
              × (k < n)
              × (way p n ≡ d.of_size k)))
  IsPlace n p (between k weight) =
      (d.is_at_most_zero p ≡ false)
      × (d.is_at_least_hundred p ≡ false)
      × (suc k < n)
      × (d.floor (way p n) ≡ d.of_size k)
      × (d.ceil (way p n) ≡ d.of_size (suc k))
      × (weight ≡ d.minus (way p n) (d.of_size k))

  -- Conversions, differences and roundings are exact on whole numbers below 2 ^ 53, and a weight of
  -- nothing leaves the first of two samples.
  pub record Exact : Type 0 where
    pub back : (n : ℕ) → n < 2 ^ 53 → d.to_size (d.of_size n) ≡ n
    pub one_less :
        (n : ℕ) → 1 ≤ n → n < 2 ^ 53 → d.minus (d.of_size n) (d.of_size 1) ≡ d.of_size (n - 1)
    pub floors : (n : ℕ) → n < 2 ^ 53 → d.floor (d.of_size n) ≡ d.of_size n
    pub ceils : (n : ℕ) → n < 2 ^ 53 → d.ceil (d.of_size n) ≡ d.of_size n
    pub nothing_left : (n : ℕ) → n < 2 ^ 53 → d.minus (d.of_size n) (d.of_size n) ≡ d.of_size 0
    pub weightless :
        (ns other : ℤ)
        → d.plus
            (d.times (d.of_ns ns) (d.minus (d.of_size 1) (d.of_size 0)))
            (d.times (d.of_ns other) (d.of_size 0))
          ≡ d.of_ns ns

module _ (d : Doubles) (sort : List ℤ → List ℤ) where
  interpolated-exactly :
      (samples : List ℤ) (rank : d.Double) (k : ℕ)
      → Exact d
      → k < 2 ^ 53
      → rank ≡ d.of_size k
      → interpolated d sort rank samples ≡ d.of_ns (get_or samples k (pos 0))
  unfolding interpolated
  interpolated-exactly samples rank k x small whole =
      rw
        (
          whole,
          interpolated,
          x.floors k small,
          x.ceils k small,
          x.back k small,
          x.nothing_left k small,
        )
        (x.weightless _ _)

  interpolated-between :
      (samples : List ℤ) (rank weight : d.Double) (k : ℕ)
      → Exact d
      → suc k < 2 ^ 53
      → d.floor rank ≡ d.of_size k
      → d.ceil rank ≡ d.of_size (suc k)
      → weight ≡ d.minus rank (d.of_size k)
      → interpolated d sort rank samples ≡ read_off d samples (between k weight)
  unfolding interpolated
  interpolated-between samples rank weight k x small down up part =
      rw (interpolated, down, up, x.back k (omega arith), x.back (suc k) small, part) refl

  -- The code's rank is the part of the way.
  rank_of-way :
      (p : d.Double) (n : ℕ) → Exact d → 1 ≤ n → n < 2 ^ 53 → rank_of d sort p n ≡ way d p n
  unfolding rank_of
  rank_of-way p n x some_sample small =
      ap (d.times (d.over p (d.of_size 100))) (x.one_less n some_sample small)

  value_at-place :
      (p : d.Double) (place : Place d) (samples : List ℤ)
      → Exact d
      → 1 ≤ length samples
      → length samples < 2 ^ 53
      → IsPlace d (length samples) p place
      → value_at d sort p samples ≡ read_off d samples place
  unfolding value_at
  value_at-place p (exactly k) samples x some_sample small h = elim h [
    | inl low ↦ rw (low.0, low.1) refl
    | inr more ↦ elim more [
      | inl high ↦ rw (high.0, high.1, high.2) refl
      | inr whole ↦
          let rank = rank_of-way p (length samples) x some_sample small in
          let inside = whole.2 in
          rw (whole.0, whole.1)
            (interpolated-exactly samples (rank_of d sort p (length samples)) k x
              (omega (arith, inside)) (rank ∙ whole.3))
    ]
  ]
  value_at-place p (between k weight) samples x some_sample small h =
      let rank = rank_of-way p (length samples) x some_sample small in
      let inside = h.2 in
      rw (h.0, h.1, rank)
        (interpolated-between samples (way d p (length samples)) weight k x (omega (arith, inside))
          h.3 h.4 h.5)

  pub values-places :
      (asked : List (d.Double × Place d)) (samples : List ℤ) (n : ℕ)
      → length samples ≡ n
      → Exact d
      → 1 ≤ n
      → n < 2 ^ 53
      → All (λ a. IsPlace d n a.0 a.1) asked
      → map (λ p. value_at d sort p samples) (map (λ a. a.0) asked)
        ≡ map (λ a. read_off d samples a.1) asked
  values-places [] samples n size x some_sample small h = refl
  values-places ((p, place) ∷ asked) samples n size x some_sample small h =
      ap₂ (λ v (l : List d.Double). v ∷ l)
        (value_at-place p place samples x (omega (arith, size)) (omega (arith, size)) (rw size h.0))
        (values-places asked samples n size x some_sample small h.1)

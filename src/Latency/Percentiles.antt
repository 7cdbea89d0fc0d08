-- ===== src/Latency/Percentiles.antt =====
-- What the percentiles are, of samples that were all recorded before, and of later ones.
use mathlib.Core.List.{append_assoc, append-nil}
use quant_feed_handler.Base.{
  suc, ◌-◌, ◌^◌, ◌<◌, List, [], ◌∷◌, ◌++◌, Bool, true, false, ◌≡◌, refl, sym, ap, ap₂, ◌∙◌, inl,
  inr, map, length, length-append, get_or, All, Bool-cases, if◌then◌else◌, arith,
}
use quant_feed_handler.Base.Arrays.{get_or-append}
use quant_feed_handler.Base.Int.{ℤ, pos, ◌≤ℤ◌, ltb_ℤ, eq_of_parts}
use quant_feed_handler.Feed.{is_empty}
use quant_feed_handler.Latency.{
  LatencyTracker, Doubles, new_tracker, record_ns, record_samples, min_element, min_ns,
  sort_samples, value_at, percentile, percentiles,
}
use quant_feed_handler.Latency.Places.{Place, read_off, IsPlace, Exact, values-places}

abbrev pub Ascending : List ℤ → Type 0
Ascending [] = Unit
Ascending (x ∷ xs) = All (λ y. x ≤ℤ y) xs × Ascending xs

-- What the code relies on: the result ascends, and has the same entries.
pub record Sorts (sort : List ℤ → List ℤ) : Type 1 where
  pub ascends : (xs : List ℤ) → Ascending (sort xs)
  pub size : (xs : List ℤ) → length (sort xs) ≡ length xs
  pub keeps : (P : ℤ → Type 0) (xs : List ℤ) → All P xs → All P (sort xs)
  pub reflects : (P : ℤ → Type 0) (xs : List ℤ) → All P (sort xs) → All P xs

record_samples_all :
    (t : LatencyTracker) (samples : List ℤ)
    → record_samples t samples ≡ record { samples_ns = t.samples_ns ++ samples; sorted = t.sorted }
unfolding record_samples record_ns
record_samples_all t [] =
    ap (λ l. record { samples_ns = l; sorted = t.sorted }) (sym (append-nil t.samples_ns))
record_samples_all t (ns ∷ samples) =
    record_samples_all (record_ns t ns) samples
    ∙ ap (λ l. record { samples_ns = l; sorted = t.sorted })
        (append_assoc t.samples_ns (ns ∷ []) samples)

min_element_lower :
    (x : ℤ) (xs : List ℤ) (least : ℤ)
    → least ≡ min_element x xs
    → (least ≤ℤ x) × All (λ y. least ≤ℤ y) xs
unfolding min_element
min_element_lower x [] least e = (let same : least ≡ x = e in rw same (omega arith), tt)
min_element_lower x (y ∷ ys) least e = elim (Bool-cases (ltb_ℤ y x)) [
  | inl less ↦
      let rest = min_element_lower y ys least (rw less at e) in
      let below = rest.0 in (ground (arith, below, less), (below, rest.1))
  | inr more ↦
      let rest = min_element_lower x ys least (rw more at e) in
      let below = rest.0 in (below, (ground (arith, below, more), rest.1))
]

-- It is one of them.
min_element_one : (P : ℤ → Type 0) (x : ℤ) (xs : List ℤ) → P x → All P xs → P (min_element x xs)
unfolding min_element
min_element_one P x [] h all = h
min_element_one P x (y ∷ ys) h all =
    min_element_one P (if ltb_ℤ y x then y else x) ys
      (elim (Bool-cases (ltb_ℤ y x)) [ inl less ↦ rw less all.0 | inr more ↦ rw more h ]) all.1

first_least : (xs : List ℤ) → Ascending xs → All (λ y. get_or xs 0 (pos 0) ≤ℤ y) xs
first_least [] a = tt
first_least (x ∷ xs) a = (omega arith, a.0)

some_left : (xs : List ℤ) → 0 < length xs → is_empty xs ≡ false
some_left [] h = absurd (omega arith)
some_left (x ∷ xs) h = refl

module _ (d : Doubles) (sort : List ℤ → List ℤ) where
  -- Once the flag is set, a percentile only reads.
  percentile-sorted :
      (p : d.Double) (samples : List ℤ)
      → 0 < length samples
      → percentile d sort p (record { samples_ns = samples; sorted = true })
        ≡ (value_at d sort p samples, record { samples_ns = samples; sorted = true })
  unfolding percentile sort_samples
  percentile-sorted p samples some_sample = rw (some_left samples some_sample) refl

  percentiles-sorted :
      (ps : List d.Double) (samples : List ℤ)
      → 0 < length samples
      → percentiles d sort ps (record { samples_ns = samples; sorted = true })
        ≡ map (λ p. value_at d sort p samples) ps
  unfolding percentiles
  percentiles-sorted [] samples some_sample = refl
  percentiles-sorted (p ∷ ps) samples some_sample =
      let e = percentile-sorted p samples some_sample in
      ap₂ (λ v (l : List d.Double). v ∷ l) (ap (λ r. r.0) e)
        (ap (λ r. percentiles d sort ps r.1) e ∙ percentiles-sorted ps samples some_sample)

  percentile-first :
      (p : d.Double) (samples : List ℤ)
      → 0 < length samples
      → percentile d sort p (record { samples_ns = samples; sorted = false })
        ≡ (value_at d sort p (sort samples), record { samples_ns = sort samples; sorted = true })
  unfolding percentile sort_samples
  percentile-first p samples some_sample = rw (some_left samples some_sample) refl

  -- The least of the samples stands first when they are sorted.
  first-min_element :
      (x : ℤ) (xs : List ℤ) → Sorts sort → get_or (sort (x ∷ xs)) 0 (pos 0) ≡ min_element x xs
  first-min_element x xs s =
      let first = get_or (sort (x ∷ xs)) 0 (pos 0) in
      let least = min_element x xs in
      let bound =
        s.reflects (λ y. first ≤ℤ y) (x ∷ xs) (first_least (sort (x ∷ xs)) (s.ascends _)) in
      let up : first ≤ℤ least = min_element_one (λ y. first ≤ℤ y) x xs bound.0 bound.1 in
      let low = s.keeps (λ y. least ≤ℤ y) (x ∷ xs) (min_element_lower x xs least refl) in
      let down : least ≤ℤ first = first_of (sort (x ∷ xs)) (λ y. least ≤ℤ y) (s.size _) low in
      eq_of_parts first least (omega (arith, up, down))
    where
      first_of :
          (ys : List ℤ) (P : ℤ → Type 0)
          → length ys ≡ length (x ∷ xs)
          → All P ys
          → P (get_or ys 0 (pos 0))
      first_of [] P e all = absurd (omega (arith, e))
      first_of (y ∷ ys) P e all = all.0

  -- When the samples were all recorded before, every percentile, however many are asked for one
  -- after the other, is read off the sorted samples at its place: the first for at most 0, the last
  -- for at least 100, and otherwise the sample that is `p / 100` of the way from the first to the
  -- last, or the mean of its neighbours that is weighted by the distance to the lower one. The first
  -- of the sorted samples is `minNs`. There is a sample and there are fewer than 2 ^ 53, the
  -- library's sort gives the same entries in ascending order, and its arithmetic is exact on whole
  -- numbers of that size.
  pub percentiles-recorded :
      (x : ℤ) (xs : List ℤ) (asked : List (d.Double × Place d))
      → Sorts sort
      → Exact d
      → suc (length xs) < 2 ^ 53
      → All (λ a. IsPlace d (suc (length xs)) a.0 a.1) asked
      → let t = record_samples new_tracker (x ∷ xs) in
        let sorted = sort (x ∷ xs) in
        (percentiles d sort (map (λ a. a.0) asked) t ≡ map (λ a. read_off d sorted a.1) asked)
        × (d.of_ns (get_or sorted 0 (pos 0)) ≡ min_ns d sort t)
  unfolding percentiles min_ns
  percentiles-recorded x xs asked s exact small places =
      let all = record_samples_all new_tracker (x ∷ xs) in
      let size = s.size (x ∷ xs) in
      let some_sorted : 0 < length (sort (x ∷ xs)) = omega (arith, size) in
      rw all (
        in_turn (map (λ a. a.0) asked) some_sorted
            ∙ values-places d sort asked (sort (x ∷ xs)) (suc (length xs)) size exact (omega arith)
                small places,
        ap d.of_ns (first-min_element x xs s),
      )
    where
      in_turn :
          (ps : List d.Double)
          → 0 < length (sort (x ∷ xs))
          → percentiles d sort ps (record { samples_ns = x ∷ xs; sorted = false })
            ≡ map (λ p. value_at d sort p (sort (x ∷ xs))) ps
      in_turn [] some_sorted = refl
      in_turn (p ∷ ps) some_sorted =
          let e = percentile-first p (x ∷ xs) (omega arith) in
          ap₂ (λ v (l : List d.Double). v ∷ l) (ap (λ r. r.0) e)
            (ap (λ r. percentiles d sort ps r.1) e
              ∙ percentiles-sorted ps (sort (x ∷ xs)) some_sorted)

  -- Whatever the flag was, it is set then.
  sets_flag :
      (p : d.Double) (samples : List ℤ) (flag : Bool)
      → 0 < length samples
      → (u : List ℤ) × ((percentile d sort p (record { samples_ns = samples; sorted = flag })).1
          ≡ record { samples_ns = u; sorted = true })
  sets_flag p samples true some_sample =
      (samples, ap (λ r. r.1) (percentile-sorted p samples some_sample))
  sets_flag p samples false some_sample =
      (sort samples, ap (λ r. r.1) (percentile-first p samples some_sample))

  value_at-last :
      (q : d.Double) (u : List ℤ) (ns : ℤ)
      → d.is_at_most_zero q ≡ false
      → d.is_at_least_hundred q ≡ true
      → value_at d sort q (u ++ ns ∷ []) ≡ d.of_ns ns
  unfolding value_at
  value_at-last q u ns no_zero hundred =
      let size = length-append u (ns ∷ []) in
      let last : length (u ++ ns ∷ []) - 1 ≡ length u = omega (arith, size) in
      rw (no_zero, hundred, last) (ap d.of_ns (get_or-append u ns [] (pos 0)))

  -- A sample that is recorded after a percentile was asked for is never sorted in: the next
  -- percentile of at least 100 is that sample, be it the greatest or not. There was a sample before,
  -- and what is at least 100 is not at most 0.
  pub percentile-record_ns :
      (t : LatencyTracker) (p q : d.Double) (ns : ℤ)
      → 0 < length t.samples_ns
      → d.is_at_most_zero q ≡ false
      → d.is_at_least_hundred q ≡ true
      → (percentile d sort q (record_ns (percentile d sort p t).1 ns)).0 ≡ d.of_ns ns
  unfolding record_ns
  percentile-record_ns t p q ns some_sample no_zero hundred =
      let set = sets_flag p t.samples_ns t.sorted some_sample in
      let u = set.0 in
      let size = length-append u (ns ∷ []) in
      ap (λ (x : LatencyTracker). (percentile d sort q (record_ns x ns)).0) set.1
      ∙ ap (λ r. r.0) (percentile-sorted q (u ++ ns ∷ []) (omega (arith, size)))
      ∙ value_at-last q u ns no_zero hundred

-- ===== src/Latency.antt =====
-- `LatencyTracker` of include/feed_handler/latency_tracker.hpp. A sample is a signed number of
-- nanoseconds. What the code does with floating-point numbers is a parameter, as is `std::sort`.
pub mod Places
pub mod Percentiles
use quant_feed_handler.Base.{
  ℕ, ◌-◌, List, [], ◌∷◌, ◌++◌, Bool, true, false, length, get_or, if◌then◌else◌,
}
use quant_feed_handler.Base.Int.{ℤ, pos, ltb_ℤ}
use quant_feed_handler.Feed.{is_empty}

pub record LatencyTracker : Type 0 where
  pub samples_ns : List ℤ
  pub sorted : Bool

-- `double` and its operations; `of_size` and `of_ns` convert a `size_t` and a sample, and `of_size`
-- stands for literals too. `to_size` converts back.
pub record Doubles : Type 1 where
  pub Double : Type 0
  pub zero_ns : Double
  pub of_ns : ℤ → Double
  pub is_at_most_zero : Double → Bool
  pub is_at_least_hundred : Double → Bool
  pub of_size : ℕ → Double
  pub to_size : Double → ℕ
  pub floor : Double → Double
  pub ceil : Double → Double
  pub plus : Double → Double → Double
  pub minus : Double → Double → Double
  pub times : Double → Double → Double
  pub over : Double → Double → Double

abbrev pub new_tracker : LatencyTracker
new_tracker = record { samples_ns = []; sorted = false }

unfoldable pub reset_samples : LatencyTracker → LatencyTracker
reset_samples t = record t { samples_ns = [] }

unfoldable pub record_ns : LatencyTracker → ℤ → LatencyTracker
record_ns t ns = record t { samples_ns = t.samples_ns ++ ns ∷ [] }

unfoldable pub record_samples : LatencyTracker → List ℤ → LatencyTracker
record_samples t [] = t
record_samples t (ns ∷ samples) = record_samples (record_ns t ns) samples

unfoldable pub count : LatencyTracker → ℕ
count t = length t.samples_ns

-- `std::min_element`: the first one that no other is below.
unfoldable pub min_element : ℤ → List ℤ → ℤ
min_element x [] = x
min_element x (y ∷ ys) = min_element (if ltb_ℤ y x then y else x) ys

module _ (d : Doubles) (sort : List ℤ → List ℤ) where
  unfoldable pub min_ns : LatencyTracker → d.Double
  min_ns t = elim (t.samples_ns) [ [] ↦ d.zero_ns | ◌∷◌ x xs ↦ d.of_ns (min_element x xs) ]

  unfoldable pub sort_samples : LatencyTracker → LatencyTracker
  sort_samples t = if t.sorted then t else record { samples_ns = sort t.samples_ns; sorted = true }

  unfoldable pub rank_of : d.Double → ℕ → d.Double
  rank_of p n = d.times (d.over p (d.of_size 100)) (d.minus (d.of_size n) (d.of_size 1))

  -- Between two neighbouring samples.
  unfoldable pub interpolated : d.Double → List ℤ → d.Double
  interpolated rank samples =
      let lower = d.to_size (d.floor rank) in
      let upper = d.to_size (d.ceil rank) in
      let weight = d.minus rank (d.of_size lower) in
      d.plus (d.times (d.of_ns (get_or samples lower (pos 0))) (d.minus (d.of_size 1) weight))
        (d.times (d.of_ns (get_or samples upper (pos 0))) weight)

  -- What `percentile` reads off the samples.
  unfoldable pub value_at : d.Double → List ℤ → d.Double
  value_at p samples =
      let n = length samples in
      if d.is_at_most_zero p
      then d.of_ns (get_or samples 0 (pos 0))
      else if d.is_at_least_hundred p
      then d.of_ns (get_or samples (n - 1) (pos 0))
      else interpolated (rank_of p n) samples

  unfoldable pub percentile : d.Double → LatencyTracker → d.Double × LatencyTracker
  percentile p t =
      if is_empty t.samples_ns
      then (d.zero_ns, t)
      else (value_at p (sort_samples t).samples_ns, sort_samples t)

  -- One call after the other, as `printSummary` makes them.
  unfoldable pub percentiles : List d.Double → LatencyTracker → List d.Double
  percentiles [] t = []
  percentiles (p ∷ ps) t = (percentile p t).0 ∷ percentiles ps (percentile p t).1

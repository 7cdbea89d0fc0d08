-- ===== src/Tests/Latency.antt =====
-- The latency tracker with an insertion sort, and with hundredths for floating-point numbers; and
-- the latency window of the stream server.
use quant_feed_handler.Base.{
  ℕ, suc, ◌+◌, ◌-◌, ◌*◌, ◌/◌, ◌==◌, leb, get_or, List, [], ◌∷◌, false, ◌≡◌, refl, inl, inr, map,
  length, All, Bool-cases, if◌then◌else◌, arith,
}
use quant_feed_handler.Base.Int.{ℤ, pos, pos_part, ◌≤ℤ◌, ltb_ℤ}
use quant_feed_handler.Latency.{
  LatencyTracker, Doubles, new_tracker, record_ns, record_samples, min_element, min_ns,
  sort_samples, rank_of, interpolated, value_at, percentile, percentiles,
}
use quant_feed_handler.Latency.Percentiles.{
  Ascending, Sorts, percentiles-recorded, percentile-record_ns,
}
use quant_feed_handler.Latency.Places.{Exact, Place, exactly, between, IsPlace, read_off}
use quant_feed_handler.Server.Window.{
  no_latencies, record_latencies, Recent, record_latencies-Recent,
}

abbrev place : ℤ → List ℤ → List ℤ
place x [] = x ∷ []
place x (y ∷ ys) = let rest = place x ys in if ltb_ℤ y x then y ∷ rest else x ∷ y ∷ ys

abbrev place_all : List ℤ → List ℤ
place_all [] = []
place_all (x ∷ xs) = place x (place_all xs)

place-All : (P : ℤ → Type 0) (x : ℤ) (xs : List ℤ) → P x → All P xs → All P (place x xs)
place-All P x [] h all = (h, tt)
place-All P x (y ∷ ys) h all = elim (Bool-cases (ltb_ℤ y x)) [
  | inl after ↦ rw after (all.0, place-All P x ys h all.1)
  | inr before ↦ rw before (h, all)
]

All-place : (P : ℤ → Type 0) (x : ℤ) (xs : List ℤ) → All P (place x xs) → P x × All P xs
All-place P x [] all = (all.0, tt)
All-place P x (y ∷ ys) all = elim (Bool-cases (ltb_ℤ y x)) [
  | inl after ↦
      let here = rw after at all in let rest = All-place P x ys here.1 in (rest.0, (here.0, rest.1))
  | inr before ↦ let here = rw before at all in (here.0, here.1)
]

All-above : (x y : ℤ) (xs : List ℤ) → x ≤ℤ y → All (λ z. y ≤ℤ z) xs → All (λ z. x ≤ℤ z) xs
All-above x y [] le all = tt
All-above x y (z ∷ zs) le all =
    let next = all.0 in (omega (arith, le, next), All-above x y zs le all.1)

place-Ascending : (x : ℤ) (xs : List ℤ) → Ascending xs → Ascending (place x xs)
place-Ascending x [] a = (tt, tt)
place-Ascending x (y ∷ ys) a = elim (Bool-cases (ltb_ℤ y x)) [
  | inl after ↦ rw after (place-All (λ z. y ≤ℤ z) x ys (ground arith) a.0, place-Ascending x ys a.1)
  | inr before ↦ let le : x ≤ℤ y = ground arith in rw before ((le, All-above x y ys le a.0), a)
]

length-place : (x : ℤ) (xs : List ℤ) → length (place x xs) ≡ suc (length xs)
length-place x [] = refl
length-place x (y ∷ ys) =
    let rest = length-place x ys in
    elim (Bool-cases (ltb_ℤ y x)) [
      | inl after ↦ rw after (omega (arith, rest))
      | inr before ↦ rw before refl
    ]

place_all-Sorts : Sorts place_all
place_all-Sorts = record { ascends = ascends; size = size; keeps = keeps; reflects = reflects }
  where
    ascends : (xs : List ℤ) → Ascending (place_all xs)
    ascends [] = tt
    ascends (x ∷ xs) = place-Ascending x (place_all xs) (ascends xs)

    size : (xs : List ℤ) → length (place_all xs) ≡ length xs
    size [] = refl
    size (x ∷ xs) =
        let here = length-place x (place_all xs) in let rest = size xs in omega (arith, here, rest)

    keeps : (P : ℤ → Type 0) (xs : List ℤ) → All P xs → All P (place_all xs)
    keeps P [] all = tt
    keeps P (x ∷ xs) all = place-All P x (place_all xs) all.0 (keeps P xs all.1)

    reflects : (P : ℤ → Type 0) (xs : List ℤ) → All P (place_all xs) → All P xs
    reflects P [] all = tt
    reflects P (x ∷ xs) all =
        let here = All-place P x (place_all xs) all in (here.0, reflects P xs here.1)

-- Hundredths in place of floating-point numbers.
abbrev hundredths : Doubles
hundredths = record {
  Double = ℕ;
  zero_ns = 0;
  of_ns = λ ns. pos_part ns * 100;
  is_at_most_zero = λ p. p == 0;
  is_at_least_hundred = λ p. leb 10000 p;
  of_size = λ n. n * 100;
  to_size = λ x. x / 100;
  floor = λ x. x / 100 * 100;
  ceil = λ x. (x + 99) / 100 * 100;
  plus = λ x y. x + y;
  minus = λ x y. x - y;
  times = λ x y. x * y / 100;
  over = λ x y. x * 100 / y;
}

hundredths-Exact : Exact hundredths
hundredths-Exact = record {
  back = λ n h. omega arith;
  one_less = λ n h small. omega arith;
  floors = λ n h. omega arith;
  ceils = λ n h. omega arith;
  nothing_left = λ n h. omega arith;
  weightless = λ ns other. omega arith;
}

abbrev later : List ℤ
later = pos 10 ∷ pos 20 ∷ []

program : Unit {0}
unfolding record_ns record_samples min_element min_ns sort_samples rank_of interpolated value_at
    percentile percentiles record_latencies
program = tt

-- The least, the median, the greatest, and half way between the first two.
abbrev asked : List (ℕ × Place hundredths)
asked = (0, exactly 0) ∷ (5000, exactly 1) ∷ (10000, exactly 2) ∷ (2500, between 0 50) ∷ []

abbrev sorted : List ℤ
sorted = place_all (pos 30 ∷ later)

asked_test :
    percentiles hundredths place_all
      (map (λ a. a.0) asked)
      (record_samples new_tracker (pos 30 ∷ later))
    ≡ 1000 ∷ 2000 ∷ 3000 ∷ 1500 ∷ []
unfolding program
asked_test = refl

asked-Places : All (λ a. IsPlace hundredths 3 a.0 a.1) asked
asked-Places = (
  inl (refl, refl),
  (
    inr (inr (refl, refl, omega arith, refl)),
    (inr (inl (refl, refl, refl)), ((refl, refl, omega arith, refl, refl, refl), tt)),
  ),
)

percentiles-recorded_example :
    let t = record_samples new_tracker (pos 30 ∷ later) in
    (percentiles hundredths place_all (map (λ a. a.0) asked) t
      ≡ map (λ a. read_off hundredths sorted a.1) asked)
    × (pos_part (get_or sorted 0 (pos 0)) * 100 ≡ min_ns hundredths place_all t)
percentiles-recorded_example =
    percentiles-recorded hundredths place_all (pos 30) later asked place_all-Sorts hundredths-Exact
      (omega arith) asked-Places

abbrev three : LatencyTracker
three = record { samples_ns = pos 30 ∷ later; sorted = false }

percentile-record_ns_example :
    (percentile hundredths place_all 10000
      (record_ns (percentile hundredths place_all 5000 three).1 (pos 5))).0
    ≡ 500
percentile-record_ns_example =
    percentile-record_ns hundredths place_all three 5000 10000 (pos 5) (omega arith) refl refl

record_latencies-Recent_example :
    Recent (pos 30 ∷ later) (record_latencies no_latencies (pos 30 ∷ later))
record_latencies-Recent_example = record_latencies-Recent (pos 30 ∷ later)

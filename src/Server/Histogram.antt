-- ===== src/Server/Histogram.antt =====
-- The latency histogram that `snapshotThreadFunc` in src/stream_server.cpp fills from a copy of the
-- samples. A sample is a signed number of nanoseconds, a counter a `uint64_t`.
use quant_feed_handler.Base.{
  ℕ, suc, ◌+◌, ◌^◌, ◌<◌, List, [], ◌∷◌, ◌≡◌, refl, ap, ◌∙◌, inl, inr, length, Bool-cases,
  if◌then◌else◌, arith,
}
use quant_feed_handler.Base.Int.{ℤ, pos, leb_ℤ}
use quant_feed_handler.Table.{add64}

pub record Buckets : Type 0 where
  pub bucket_100ns : ℕ
  pub bucket_250ns : ℕ
  pub bucket_500ns : ℕ
  pub bucket_1us : ℕ
  pub bucket_2_5us : ℕ
  pub bucket_5us : ℕ
  pub bucket_10us : ℕ
  pub bucket_25us : ℕ
  pub bucket_50us : ℕ
  pub bucket_100us : ℕ
  pub bucket_inf : ℕ

abbrev pub no_samples : Buckets
no_samples = record {
  bucket_100ns = 0;
  bucket_250ns = 0;
  bucket_500ns = 0;
  bucket_1us = 0;
  bucket_2_5us = 0;
  bucket_5us = 0;
  bucket_10us = 0;
  bucket_25us = 0;
  bucket_50us = 0;
  bucket_100us = 0;
  bucket_inf = 0;
}

-- `if (ns <= limit) ++counter`
abbrev pub tick : ℕ → ℤ → ℕ → ℕ
tick limit ns counter = if leb_ℤ ns (pos limit) then add64 counter 1 else counter

-- One round of the loop over the samples.
unfoldable pub observe : Buckets → ℤ → Buckets
observe b ns = record {
  bucket_100ns = tick 100 ns b.bucket_100ns;
  bucket_250ns = tick 250 ns b.bucket_250ns;
  bucket_500ns = tick 500 ns b.bucket_500ns;
  bucket_1us = tick 1000 ns b.bucket_1us;
  bucket_2_5us = tick 2500 ns b.bucket_2_5us;
  bucket_5us = tick 5000 ns b.bucket_5us;
  bucket_10us = tick 10000 ns b.bucket_10us;
  bucket_25us = tick 25000 ns b.bucket_25us;
  bucket_50us = tick 50000 ns b.bucket_50us;
  bucket_100us = tick 100000 ns b.bucket_100us;
  bucket_inf = add64 b.bucket_inf 1;
}

unfoldable pub observe_all : Buckets → List ℤ → Buckets
observe_all b [] = b
observe_all b (ns ∷ samples) = observe_all (observe b ns) samples

-- How many samples are at most the limit.
abbrev pub count_at_most : ℕ → List ℤ → ℕ
count_at_most limit [] = 0
count_at_most limit (ns ∷ samples) =
    let rest = count_at_most limit samples in if leb_ℤ ns (pos limit) then suc rest else rest

-- One counter by itself.
abbrev tick_all : ℕ → ℕ → List ℤ → ℕ
tick_all limit counter [] = counter
tick_all limit counter (ns ∷ samples) = tick_all limit (tick limit ns counter) samples

abbrev count_all : ℕ → List ℤ → ℕ
count_all counter [] = counter
count_all counter (ns ∷ samples) = count_all (add64 counter 1) samples

tick_all-count :
    (limit counter : ℕ) (samples : List ℤ)
    → counter + length samples < 2 ^ 64
    → tick_all limit counter samples ≡ counter + count_at_most limit samples
tick_all-count limit counter [] small = omega arith
tick_all-count limit counter (ns ∷ samples) small = elim (Bool-cases (leb_ℤ ns (pos limit))) [
  | inl below ↦ rw below (
      let rest = tick_all-count limit (add64 counter 1) samples (omega arith) in
      omega (arith, rest))
  | inr above ↦ rw above (tick_all-count limit counter samples (omega arith))
]

count_all-length :
    (counter : ℕ) (samples : List ℤ)
    → counter + length samples < 2 ^ 64
    → count_all counter samples ≡ counter + length samples
count_all-length counter [] small = omega arith
count_all-length counter (ns ∷ samples) small =
    let rest = count_all-length (add64 counter 1) samples (omega arith) in omega (arith, rest)

observe_all-counters :
    (b : Buckets) (samples : List ℤ)
    → observe_all b samples ≡ record {
      bucket_100ns = tick_all 100 b.bucket_100ns samples;
      bucket_250ns = tick_all 250 b.bucket_250ns samples;
      bucket_500ns = tick_all 500 b.bucket_500ns samples;
      bucket_1us = tick_all 1000 b.bucket_1us samples;
      bucket_2_5us = tick_all 2500 b.bucket_2_5us samples;
      bucket_5us = tick_all 5000 b.bucket_5us samples;
      bucket_10us = tick_all 10000 b.bucket_10us samples;
      bucket_25us = tick_all 25000 b.bucket_25us samples;
      bucket_50us = tick_all 50000 b.bucket_50us samples;
      bucket_100us = tick_all 100000 b.bucket_100us samples;
      bucket_inf = count_all b.bucket_inf samples;
    }
unfolding observe observe_all
observe_all-counters b [] = refl
observe_all-counters b (ns ∷ samples) = observe_all-counters (observe b ns) samples

-- What a bucket with a limit has counted.
tally :
    (limit : ℕ) (samples : List ℤ) (field : Buckets → ℕ)
    → length samples < 2 ^ 64
    → field (observe_all no_samples samples) ≡ tick_all limit 0 samples
    → field (observe_all no_samples samples) ≡ count_at_most limit samples
tally limit samples field small e =
    let sum = tick_all-count limit 0 samples (omega arith) in omega (arith, e, sum)

-- Every bucket counts the samples that are at most its limit, those of the smaller buckets
-- included, and the last one counts all samples. There are fewer than 2 ^ 64 samples.
pub observe_all-count :
    (samples : List ℤ)
    → length samples < 2 ^ 64
    → let b = observe_all no_samples samples in
      (b.bucket_100ns ≡ count_at_most 100 samples)
      × (b.bucket_250ns ≡ count_at_most 250 samples)
      × (b.bucket_500ns ≡ count_at_most 500 samples)
      × (b.bucket_1us ≡ count_at_most 1000 samples)
      × (b.bucket_2_5us ≡ count_at_most 2500 samples)
      × (b.bucket_5us ≡ count_at_most 5000 samples)
      × (b.bucket_10us ≡ count_at_most 10000 samples)
      × (b.bucket_25us ≡ count_at_most 25000 samples)
      × (b.bucket_50us ≡ count_at_most 50000 samples)
      × (b.bucket_100us ≡ count_at_most 100000 samples)
      × (b.bucket_inf ≡ length samples)
observe_all-count samples small =
    let e = observe_all-counters no_samples samples in
    (
      tally 100 samples (λ b. b.bucket_100ns) small (ap (λ (b : Buckets). b.bucket_100ns) e),
      tally 250 samples (λ b. b.bucket_250ns) small (ap (λ (b : Buckets). b.bucket_250ns) e),
      tally 500 samples (λ b. b.bucket_500ns) small (ap (λ (b : Buckets). b.bucket_500ns) e),
      tally 1000 samples (λ b. b.bucket_1us) small (ap (λ (b : Buckets). b.bucket_1us) e),
      tally 2500 samples (λ b. b.bucket_2_5us) small (ap (λ (b : Buckets). b.bucket_2_5us) e),
      tally 5000 samples (λ b. b.bucket_5us) small (ap (λ (b : Buckets). b.bucket_5us) e),
      tally 10000 samples (λ b. b.bucket_10us) small (ap (λ (b : Buckets). b.bucket_10us) e),
      tally 25000 samples (λ b. b.bucket_25us) small (ap (λ (b : Buckets). b.bucket_25us) e),
      tally 50000 samples (λ b. b.bucket_50us) small (ap (λ (b : Buckets). b.bucket_50us) e),
      tally 100000 samples (λ b. b.bucket_100us) small (ap (λ (b : Buckets). b.bucket_100us) e),
      ap (λ (b : Buckets). b.bucket_inf) e ∙ count_all-length 0 samples (omega arith) ∙ omega arith,
    )

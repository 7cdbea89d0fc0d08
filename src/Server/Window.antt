-- ===== src/Server/Window.antt =====
-- The latency samples that `consumerThreadFunc` in src/stream_server.cpp hands to the snapshots: it
-- collects them in batches of 1,000.
use mathlib.Core.List.{append_assoc, append-nil}
use quant_feed_handler.Base.{
  ℕ, ◌≤◌, ◌<◌, List, [], ◌∷◌, ◌++◌, ◌≡◌, ◌⊎◌, refl, sym, ap, ◌∙◌, inl, inr, length, length-append,
  length-drop, take, drop, take-append-drop, ltb, leb, Bool-cases, if◌then◌else◌, arith,
}
use quant_feed_handler.Base.Int.{ℤ}

abbrev pub latency_window : ℕ
latency_window = 200000

pub record Samples : Type 0 where
  pub latency_samples : List ℤ
  pub local_latency_buffer : List ℤ

abbrev pub no_latencies : Samples
no_latencies = record { latency_samples = []; local_latency_buffer = [] }

-- The hand-over of the batch: a window that is full gives up as many samples as come in.
unfoldable pub hand_over : List ℤ → List ℤ → List ℤ
hand_over window batch =
    if ltb latency_window (length window)
    then drop (length batch) window ++ batch
    else window ++ batch

-- A sample is recorded.
unfoldable pub record_latency : Samples → ℤ → Samples
record_latency s ns =
    let batch = s.local_latency_buffer ++ ns ∷ [] in
    if leb 1000 (length batch)
    then record { latency_samples = hand_over s.latency_samples batch; local_latency_buffer = [] }
    else record s { local_latency_buffer = batch }

unfoldable pub record_latencies : Samples → List ℤ → Samples
record_latencies s [] = s
record_latencies s (ns ∷ samples) = record_latencies (record_latency s ns) samples

-- The samples of the window and of the batch are the last ones of all samples so far, the lists
-- keep within their bounds, and nothing is forgotten before the window is full.
pub record Recent (all : List ℤ) (s : Samples) : Type 0 where
  pub forgotten : List ℤ
  pub kept : forgotten ++ s.latency_samples ++ s.local_latency_buffer ≡ all
  pub window_fits : length s.latency_samples ≤ 201000
  pub batch_fits : length s.local_latency_buffer < 1000
  pub none_early : (latency_window < length s.latency_samples) ⊎ (forgotten ≡ [])

split_window : (f w b : List ℤ) (n : ℕ) → f ++ take n w ++ (drop n w ++ b) ++ [] ≡ f ++ w ++ b
split_window f w b n =
    append-nil (f ++ take n w ++ (drop n w ++ b))
    ∙ sym (append_assoc (f ++ take n w) (drop n w) b)
    ∙ ap (λ l. l ++ b) (append_assoc f (take n w) (drop n w))
    ∙ ap (λ l. f ++ l ++ b) (take-append-drop n w)

record_latency-Recent :
    (all : List ℤ) (s : Samples) (ns : ℤ)
    → Recent all s
    → Recent (all ++ ns ∷ []) (record_latency s ns)
unfolding record_latency hand_over
record_latency-Recent all s ns v =
    let f = v.forgotten in
    let w = s.latency_samples in
    let batch = s.local_latency_buffer ++ ns ∷ [] in
    let grown = length-append s.local_latency_buffer (ns ∷ []) in
    let fits = v.batch_fits in
    let window = v.window_fits in
    let longer : f ++ w ++ batch ≡ all ++ ns ∷ [] =
      sym (append_assoc (f ++ w) s.local_latency_buffer (ns ∷ []))
      ∙ ap (λ l. l ++ ns ∷ []) v.kept in
    elim (Bool-cases (leb 1000 (length batch))) [
      | inr more ↦ rw more (record {
        forgotten = f;
        kept = longer;
        window_fits = window;
        batch_fits = ground arith;
        none_early = v.none_early;
      })
      | inl full ↦
          let thousand : length batch ≡ 1000 = ground (arith, grown, fits) in
          rw full (elim (Bool-cases (ltb latency_window (length w))) [
            | inl over ↦
                let rest = length-append (drop (length batch) w) batch in
                let size = length-drop (length batch) w in
                let long : latency_window < length w = ground arith in
                rw over (record {
                  forgotten = f ++ take (length batch) w;
                  kept = split_window f w batch (length batch) ∙ longer;
                  window_fits = omega (arith, rest, size, thousand, window, long);
                  batch_fits = omega arith;
                  none_early = inl (omega (arith, rest, size, thousand, long));
                })
            | inr room ↦
                let rest = length-append w batch in
                let short : length w ≤ latency_window = ground arith in
                rw room (record {
                  forgotten = f;
                  kept = append-nil (f ++ (w ++ batch)) ∙ sym (append_assoc f w batch) ∙ longer;
                  window_fits = omega (arith, rest, thousand, short);
                  batch_fits = omega arith;
                  none_early = elim v.none_early [
                    | inl long ↦ inl (omega (arith, rest, long))
                    | inr nothing ↦ inr nothing
                  ];
                })
          ])
    ]

record_latencies_from :
    (samples all : List ℤ) (s : Samples)
    → Recent all s
    → Recent (all ++ samples) (record_latencies s samples)
unfolding record_latencies
record_latencies_from [] all s v = rw (append-nil all) v
record_latencies_from (ns ∷ samples) all s v =
    let next = record_latency-Recent all s ns v in
    let rest = record_latencies_from samples (all ++ ns ∷ []) (record_latency s ns) next in
    rw (append_assoc all (ns ∷ []) samples) at rest

-- However many samples are recorded: the window never holds more than 201,000 samples and a batch
-- fewer than 1,000, the two hold the last samples that were recorded, in their order, and nothing is
-- forgotten before the window has more than 200,000 samples.
pub record_latencies-Recent :
    (samples : List ℤ) → Recent samples (record_latencies no_latencies samples)
record_latencies-Recent samples = record_latencies_from samples [] no_latencies (record {
  forgotten = [];
  kept = refl;
  window_fits = omega arith;
  batch_fits = omega arith;
  none_early = inr refl;
})

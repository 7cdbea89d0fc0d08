-- ===== src/Arbitrator/Order.antt =====
-- The order of the messages that the arbitrator hands on.
use quant_feed_handler.Base.{
  ℕ, zero, suc, ◌+◌, ◌^◌, ◌<◌, List, [], ◌∷◌, Option, none, some, ◌≡◌, refl, ap, ap₂, ◌∙◌, map,
  length, arith,
}
use quant_feed_handler.Arbitrator.{
  DualFeedArbitrator, ingest, try_drain_buffered, Event, ingests, drains, handle, deliver,
  delivered, final,
}
use quant_feed_handler.Protocol.{WireMessage, seq_no}

-- So many consecutive numbers.
abbrev pub count_up : ℕ → ℕ → List ℕ
count_up start zero = []
count_up start (suc n) = start ∷ count_up (suc start) n

pub length-count_up : (start n : ℕ) → length (count_up start n) ≡ n
length-count_up start zero = refl
length-count_up start (suc n) = ap suc (length-count_up (suc start) n)

-- One call hands on the expected message and moves past it, or hands on nothing.
abbrev Advances : DualFeedArbitrator → Option WireMessage × DualFeedArbitrator → Type 0
Advances a (none, b) = b.expected_seq_no ≡ a.expected_seq_no
Advances a (some m, b) =
    (seq_no m ≡ a.expected_seq_no) × (b.expected_seq_no ≡ suc a.expected_seq_no)

handle-Advances :
    (a : DualFeedArbitrator) (e : Event) → suc a.expected_seq_no < 2 ^ 64 → Advances a (handle a e)
unfolding handle ingest try_drain_buffered
handle-Advances a (ingests source m) small = ground arith
handle-Advances a drains small = ground arith

deliver_step :
    (a : DualFeedArbitrator) (r : Option WireMessage × DualFeedArbitrator) (es : List Event)
    → suc a.expected_seq_no + length es < 2 ^ 64
    → Advances a r
    → ((b : DualFeedArbitrator)
        → b.expected_seq_no + length es < 2 ^ 64
        → (map seq_no (delivered b es) ≡ count_up b.expected_seq_no (length (delivered b es)))
          × ((final b es).expected_seq_no ≡ b.expected_seq_no + length (delivered b es)))
    → (map seq_no (deliver r.0 (delivered r.1 es))
        ≡ count_up a.expected_seq_no (length (deliver r.0 (delivered r.1 es))))
      × ((final r.1 es).expected_seq_no
          ≡ a.expected_seq_no + length (deliver r.0 (delivered r.1 es)))
deliver_step a (none, b) es small adv rest =
    let h = rest b (omega (arith, adv)) in
    (h.0 ∙ ap (λ n. count_up n (length (delivered b es))) adv, omega (arith, adv, h.1))
deliver_step a (some m, b) es small (here, next) rest =
    let h = rest b (omega (arith, next)) in
    (
      ap₂ (λ x (l : List ℕ). x ∷ l) here
          (h.0 ∙ ap (λ n. count_up n (length (delivered b es))) next),
      omega (arith, next, h.1),
    )

-- Whatever arrives from either feed, in whatever order and with whatever drains between, the
-- messages handed on have consecutive sequence numbers from the expected one, none twice and none
-- missing, and the next expected number is the one after the last. The counter does not reach
-- 2 ^ 64.
pub delivered_in_order :
    (a : DualFeedArbitrator) (es : List Event)
    → a.expected_seq_no + length es < 2 ^ 64
    → (map seq_no (delivered a es) ≡ count_up a.expected_seq_no (length (delivered a es)))
      × ((final a es).expected_seq_no ≡ a.expected_seq_no + length (delivered a es))
unfolding delivered final
delivered_in_order a [] small = (refl, omega arith)
delivered_in_order a (e ∷ es) small =
    deliver_step a (handle a e) es (omega arith) (handle-Advances a e (omega arith))
      (λ b. delivered_in_order b es)

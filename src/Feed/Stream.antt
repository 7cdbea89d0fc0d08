-- ===== src/Feed/Stream.antt =====
-- What every message of a stream is, from what every round does.
use quant_feed_handler.Base.{
  ℕ, suc, ◌+◌, ◌^◌, ◌<◌, List, [], ◌∷◌, true, ◌≡◌, refl, ap, ap₂, ◌∙◌, map, length, All, arith,
}
use quant_feed_handler.Arbitrator.Order.{count_up}
use quant_feed_handler.Feed.{stream}
use quant_feed_handler.Protocol.{WireMessage, seq_no, is_valid}
use quant_feed_handler.Validator.Written.{Good}

abbrev pub AllValid : List WireMessage → Type 0
AllValid [] = Unit
AllValid (m ∷ ms) = (is_valid m ≡ true) × AllValid ms

module _ {D S : Type 0} where
  -- A round's law: from a state that is ready, draws within their ranges give a valid message of
  -- the state's sequence number, and a state that is ready for the next number.
  pub record Generator (round : D → S → WireMessage × S) : Type 1 where
    pub number : S → ℕ
    pub IsDraw : D → Type 0
    pub IsReady : S → Type 0
    pub good :
        (d : D) (s : S)
        → IsDraw d
        → IsReady s
        → suc (number s) < 2 ^ 64
        → Good (number s) (round d s).0
    pub next : (d : D) (s : S) → suc (number s) < 2 ^ 64 → number (round d s).1 ≡ suc (number s)
    pub ready : (d : D) (s : S) → IsReady s → suc (number s) < 2 ^ 64 → IsReady (round d s).1

  module _ {round : D → S → WireMessage × S} (g : Generator round) where
    pub stream-AllValid :
        (ds : List D) (s : S)
        → All g.IsDraw ds
        → g.IsReady s
        → suc (g.number s) + length ds < 2 ^ 64
        → AllValid (stream round ds s)
          × (map seq_no (stream round ds s) ≡ count_up (g.number s) (length ds))
    unfolding stream
    stream-AllValid [] s all r small = (tt, refl)
    stream-AllValid (d ∷ ds) s all r small =
        let good = g.good d s all.0 r (omega arith) in
        let next = g.next d s (omega arith) in
        let rest =
          stream-AllValid ds (round d s).1 all.1 (g.ready d s r (omega arith))
            (omega (arith, next)) in
        (
          (good.1, rest.0),
          ap₂ (λ x (l : List ℕ). x ∷ l) good.0 (rest.1 ∙ ap (λ n. count_up n (length ds)) next),
        )

-- What every round's message is, every message of the stream is.
pub stream-All :
    {D S : Type 0} (round : D → S → WireMessage × S) (P : WireMessage → Type 0)
    → ((d : D) (s : S) → P (round d s).0)
    → (ds : List D) (s : S) → All P (stream round ds s)
unfolding stream
stream-All round P h [] s = tt
stream-All round P h (d ∷ ds) s = (h d s, stream-All round P h ds (round d s).1)

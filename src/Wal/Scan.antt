-- ===== src/Wal/Scan.antt =====
-- The records of a journal by their index, the scan of `open` and the loop of `recover` over them.
use quant_feed_handler.Base.{
  ℕ, zero, suc, ◌+◌, ◌*◌, ◌<◌, List, [], ◌∷◌, ◌++◌, true, false, ◌≡◌, ◌≢◌, refl, sym, ap, ◌∙◌,
  length, take, replicate, ◌==◌, arith,
}
use mathlib.Core.List.{append_assoc}
use mathlib.Core.Path.{subst}
use quant_feed_handler.Book.{LimitOrderBook, process_message, process_all}
use quant_feed_handler.Protocol.{WireMessage, size_of_wire, msg_type}
use quant_feed_handler.Wal.{record_at, append_offset, is_known, replay}
use quant_feed_handler.Wal.Log.{
  flatten, AreRecords, length-flatten, record_at-skip, record_at-head, drop-append_left,
}

-- The records from an index on.
abbrev Holds : List ℕ → ℕ → List WireMessage → Type 0
Holds bytes i [] = Unit
Holds bytes i (m ∷ ms) = (record_at bytes i ≡ m) × Holds bytes (suc i) ms

Holds-skip :
    (m : WireMessage) (bytes : List ℕ) (i : ℕ) (ms : List WireMessage)
    → length m ≡ size_of_wire
    → Holds bytes i ms
    → Holds (m ++ bytes) (suc i) ms
Holds-skip m bytes i [] len h = tt
Holds-skip m bytes i (k ∷ ms) len h =
    (record_at-skip m bytes i len ∙ h.0, Holds-skip m bytes (suc i) ms len h.1)

pub Holds-flatten :
    (ms : List WireMessage) (rest : List ℕ) → AreRecords ms → Holds (flatten ms ++ rest) 0 ms
Holds-flatten [] rest h = tt
Holds-flatten (m ∷ ms) rest h =
    subst (λ bytes. Holds bytes 0 (m ∷ ms)) (sym (append_assoc m (flatten ms) rest))
      (
        record_at-head m (flatten ms ++ rest) h.0,
        Holds-skip m (flatten ms ++ rest) 0 ms h.0 (Holds-flatten ms rest h.2),
      )

-- The scan stops at the end of the log.
pub append_offset-Holds :
    (bytes : List ℕ) (i left : ℕ) (ms : List WireMessage)
    → Holds bytes i ms
    → AreRecords ms
    → length ms < left
    → msg_type (record_at bytes (i + length ms)) ≡ 0
    → append_offset bytes i left ≡ (i + length ms) * size_of_wire
unfolding append_offset
append_offset-Holds bytes i zero ms h are room ending = absurd (omega arith)
append_offset-Holds bytes i (suc left) [] h are room ending =
    let e : i + 0 ≡ i = omega arith in
    let here : (msg_type (record_at bytes i) == 0) ≡ true =
      (let h0 : msg_type (record_at bytes i) ≡ 0 = rw e at ending in rw h0) in
    rw (here, e)
append_offset-Holds bytes i (suc left) (m ∷ ms) h are room ending =
    let e : i + suc (length ms) ≡ suc i + length ms = omega arith in
    let next : i + 1 ≡ suc i = omega arith in
    let other : (msg_type (record_at bytes i) == 0) ≡ false =
      (let typed : msg_type (record_at bytes i) ≢ 0 = rw (h.0) (are.1) in ground arith) in
    rw (other, next, e)
      (append_offset-Holds bytes (suc i) left ms h.1 are.2 (omega arith) (rw e at ending))

-- A journal holding known messages replays them all, in their order.
abbrev pub AllKnown : List WireMessage → Type 0
AllKnown [] = Unit
AllKnown (m ∷ ms) = (is_known m ≡ true) × AllKnown ms

pub replay-Holds :
    (bytes : List ℕ) (i replayed : ℕ) (ms : List WireMessage) (book : LimitOrderBook)
    → Holds bytes i ms
    → AllKnown ms
    → replay bytes i (length ms) replayed book ≡ (replayed + length ms, process_all book ms)
unfolding replay process_all
replay-Holds bytes i replayed [] book h known =
    let e : replayed + 0 ≡ replayed = omega arith in rw e
replay-Holds bytes i replayed (m ∷ ms) book h known =
    let next : i + 1 ≡ suc i = omega arith in
    let e : replayed + suc (length ms) ≡ replayed + 1 + length ms = omega arith in
    rw (h.0, known.0, next, e)
      (replay-Holds bytes (suc i) (replayed + 1) ms (process_message book m) h.1 known.1)

abbrev pub AreSized : List WireMessage → Type 0
AreSized [] = Unit
AreSized (m ∷ ms) = (length m ≡ size_of_wire) × AreSized ms

pub AreRecords-AllKnown : (ms : List WireMessage) → AreSized ms → AllKnown ms → AreRecords ms
AreRecords-AllKnown [] len known = tt
AreRecords-AllKnown (m ∷ ms) len known =
    (len.0, ground (arith, known), AreRecords-AllKnown ms len.1 known.1)

zeros-msg_type : (n : ℕ) → msg_type (take size_of_wire (replicate n 0)) ≡ 0
zeros-msg_type zero = refl
zeros-msg_type (suc n) = refl

-- The record behind the log is empty.
ending-Logged :
    (ms : List WireMessage) (n : ℕ)
    → AreRecords ms
    → msg_type (record_at (flatten ms ++ replicate n 0) (length ms)) ≡ 0
ending-Logged ms n are =
    let flat = length-flatten ms are in
    let e : length ms * size_of_wire ≡ length ms * size_of_wire + 0 = omega arith in
    rw e (
      rw (drop-append_left (length ms * size_of_wire) 0 (flatten ms) (replicate n 0) flat)
        (zeros-msg_type n))

pub scan-flatten :
    (ms : List WireMessage) (n left : ℕ)
    → AreRecords ms
    → length ms < left
    → append_offset (flatten ms ++ replicate n 0) 0 left ≡ length ms * size_of_wire
scan-flatten ms n left are room =
    let e : 0 + length ms ≡ length ms = omega arith in
    let scan =
      append_offset-Holds (flatten ms ++ replicate n 0) 0 left ms (Holds-flatten ms _ are) are
        room in
    scan (
      subst (λ k. msg_type (record_at (flatten ms ++ replicate n 0) k) ≡ 0) (sym e)
        (ending-Logged ms n are))
    ∙ ap (λ k. k * size_of_wire) e

-- The scan finds no end among records that are all in use.
append_offset-full :
    (bytes : List ℕ) (i : ℕ) (ms : List WireMessage)
    → Holds bytes i ms
    → AreRecords ms
    → append_offset bytes i (length ms) ≡ 0
unfolding append_offset
append_offset-full bytes i [] h are = refl
append_offset-full bytes i (m ∷ ms) h are =
    let next : i + 1 ≡ suc i = omega arith in
    let other : (msg_type (record_at bytes i) == 0) ≡ false =
      (let typed : msg_type (record_at bytes i) ≢ 0 = rw (h.0) (are.1) in ground arith) in
    rw (other, next) (append_offset-full bytes (suc i) ms h.1 are.2)

pub scan-full :
    (ms : List WireMessage) (n : ℕ)
    → AreRecords ms
    → append_offset (flatten ms ++ replicate n 0) 0 (length ms) ≡ 0
scan-full ms n are = append_offset-full _ 0 ms (Holds-flatten ms _ are) are

-- ===== src/Arbitrator/Reorder.antt =====
-- The arbitrator implements a reorder buffer with no slots, while messages arrive less than a
-- buffer's length ahead.
use quant_feed_handler.Base.{
  ℕ, suc, ◌+◌, ◌%◌, ◌^◌, ◌≤◌, ◌<◌, List, [], ◌∷◌, none, some, true, false, ◌&&◌, ◌≡◌, ◌≢◌, refl,
  sym, ap, ap₂, ◌∙◌, inl, inr, length, get_or, set, length-set, length-replicate, ltb, ◌==◌,
  Bool-cases, if◌then◌else◌, arith,
}
use native.Mathlib.Decide.{dec_le}
use native.Mathlib.Nat.{mod-lt}
use quant_feed_handler.Base.Arrays.{get_or-set_self, get_or-set_ne, get_or-replicate}
use quant_feed_handler.Arbitrator.{
  FeedSource, GapBufferEntry, vacant, DualFeedArbitrator, reset, ingest, slot_of,
  try_drain_buffered, Event, ingests, drains, handle, deliver, delivered,
}
use quant_feed_handler.Protocol.{WireMessage, seq_no}
use quant_feed_handler.Table.{add64}
use quant_feed_handler.Arbitrator.Slots.{
  ReorderBuffer, accept, release, answer, answered, InWindow, reading, held, AllBelow, Buffers,
  Agrees, slots-ne, slot_of-set, set-AllBelow,
}

module _ (n : ℕ) (a : DualFeedArbitrator) (s : ReorderBuffer) (v : Buffers n a s) where
  -- Nothing in the buffer is beyond the window.
  held-beyond : (q : ℕ) → s.next + n ≤ q → held a q ≡ none
  held-beyond q h =
      let i = q % length a.gap_buffer in
      elim (Bool-cases (get_or a.gap_buffer i vacant).active) [
        | inl on ↦ let below = v.bounded i on in rw on (ground arith)
        | inr off ↦ rw off
      ]

  held_after : (q : ℕ) → s.next ≤ q → held a q ≡ s.waiting q
  held_after q lo = elim (dec_le (s.next + n) q) [
    | yes beyond ↦ held-beyond q beyond ∙ sym (v.no_more q beyond)
    | no inside ↦ v.holds q lo (omega arith)
  ]

  keep-Agrees :
      (m : WireMessage)
      → s.next < seq_no m
      → seq_no m < s.next + n
      → (b : DualFeedArbitrator) → b.expected_seq_no ≡ a.expected_seq_no
      → b.gap_buffer
        ≡ set a.gap_buffer (seq_no m % length a.gap_buffer) (record { msg = m; active = true })
      → Buffers n b (record s { waiting = λ q. if q == seq_no m then some m else s.waiting q })
  keep-Agrees m lo hi b same buf =
      let entry : GapBufferEntry = record { msg = m; active = true } in
      let i = seq_no m % n in
      let inside : i < n = mod-lt (seq_no m) v.some_slot in
      record {
        slots = rw buf (length-set a.gap_buffer _ entry ∙ v.slots);
        some_slot = v.some_slot;
        next = same ∙ v.next;
        holds = λ q q_lo q_hi. elim (Bool-cases (q == seq_no m)) [
          | inl here ↦
              let here' : q ≡ seq_no m = ground arith in
              let slot : slot_of b q ≡ entry =
                slot_of-set n a.gap_buffer b (seq_no m) q entry v.slots buf
                ∙ rw here' (get_or-set_self a.gap_buffer i entry vacant (rw v.slots inside)) in
              let same_no : (seq_no m == q) ≡ true = ground arith in rw (slot, here, same_no)
          | inr other ↦
              let apart : i ≢ q % n =
                slots-ne n s.next (seq_no m) q (omega arith) hi q_lo q_hi (ground arith) in
              let slot : slot_of b q ≡ slot_of a q =
                slot_of-set n a.gap_buffer b (seq_no m) q entry v.slots buf
                ∙ get_or-set_ne a.gap_buffer i (q % n) entry vacant apart
                ∙ rw v.slots in
              rw (slot, other) (v.holds q q_lo q_hi)
        ];
        no_more =
            λ q h. (let other : (q == seq_no m) ≡ false = ground arith in rw other (v.no_more q h));
        bounded =
            rw (buf, v.slots)
              (set-AllBelow _ a.gap_buffer i entry (rw v.slots inside) (λ on. hi) v.bounded);
      }

  -- The next number has gone out, from the buffer or from a feed.
  advance-Buffers :
      (b : DualFeedArbitrator)
      → b.expected_seq_no ≡ suc a.expected_seq_no
      → length b.gap_buffer ≡ n
      → ((q : ℕ) → s.next < q → reading (slot_of b q) q ≡ held a q)
      → AllBelow (s.next + n) b.gap_buffer
      → Buffers n b (record s { next = suc s.next })
  advance-Buffers b next len keeps below = record {
    slots = len;
    some_slot = v.some_slot;
    next = next ∙ ap suc v.next;
    holds = λ q lo hi. keeps q lo ∙ held_after q (omega arith);
    no_more = λ q h. v.no_more q (omega arith);
    bounded = λ i on. (let h = below i on in omega (arith, h));
  }

  same-Buffers :
      (b : DualFeedArbitrator)
      → b.expected_seq_no ≡ s.next
      → b.gap_buffer ≡ a.gap_buffer
      → Buffers n b s
  same-Buffers b next buf = record {
    slots = rw buf v.slots;
    some_slot = v.some_slot;
    next = next;
    holds = rw buf v.holds;
    no_more = v.no_more;
    bounded = rw buf v.bounded;
  }

  -- Taking the next message out of its slot hides no other.
  taken-held :
      (b : DualFeedArbitrator) (q : ℕ)
      → s.next < q
      → seq_no (slot_of a s.next).msg ≡ s.next
      → b.gap_buffer
        ≡ set a.gap_buffer
            (s.next % length a.gap_buffer)
            (record (slot_of a s.next) { active = false })
      → reading (slot_of b q) q ≡ held a q
  taken-held b q lo here buf =
      let entry : GapBufferEntry = record (slot_of a s.next) { active = false } in
      let inside : s.next % n < n = mod-lt s.next v.some_slot in
      let slot = slot_of-set n a.gap_buffer b s.next q entry v.slots buf in
      elim (Bool-cases (s.next % n == q % n)) [
        | inl same ↦
            let same' : q % n ≡ s.next % n = ground arith in
            let off : slot_of b q ≡ entry =
              slot
              ∙ rw same'
                  (get_or-set_self a.gap_buffer (s.next % n) entry vacant (rw v.slots inside)) in
            let old : slot_of a q ≡ slot_of a s.next = rw (v.slots, same') in
            let other : (seq_no (slot_of a s.next).msg == q) ≡ false = ground arith in
            rw (off, old, other) (ground arith)
        | inr apart ↦
            let kept : slot_of b q ≡ slot_of a q =
              slot
              ∙ get_or-set_ne a.gap_buffer _ (q % n) entry vacant (ground arith)
              ∙ rw v.slots in
            rw kept
      ]

  accept-Agrees :
      (source : FeedSource) (m : WireMessage)
      → suc a.expected_seq_no < 2 ^ 64
      → seq_no m < s.next + n
      → Agrees n (ingest a source m) (accept s m)
  unfolding ingest accept
  accept-Agrees source m small hi = elim (Bool-cases (ltb (seq_no m) s.next)) [
    | inl old ↦ rw (v.next, old) (record { same = refl; after = same-Buffers _ refl refl })
    | inr e ↦
        rw (v.next, e)
          (elim (Bool-cases (seq_no m == s.next)) [
            | inl here ↦ rw here (record {
              same = refl;
              after =
                  advance-Buffers _ (let next = v.next in omega (arith, next)) v.slots (λ q h. refl)
                    v.bounded;
            })
            | inr ahead ↦ rw ahead (record {
              same = refl;
              after = keep-Agrees m (ground arith) hi _ (sym v.next) refl;
            })
          ])
  ]

  release-Agrees : suc a.expected_seq_no < 2 ^ 64 → Agrees n (try_drain_buffered a) (release s)
  unfolding try_drain_buffered release
  release-Agrees small =
      let e = held_after s.next (omega arith) in
      elim (Bool-cases ((slot_of a s.next).active && (seq_no (slot_of a s.next).msg == s.next))) [
        | inr idle ↦
            let nothing : s.waiting s.next ≡ none = sym e ∙ rw idle in
            rw (v.next, idle, nothing, release)
              (record { same = refl; after = same-Buffers _ refl refl })
        | inl ready ↦
            let out : s.waiting s.next ≡ some (slot_of a s.next).msg = sym e ∙ rw ready in
            let here : seq_no (slot_of a s.next).msg ≡ s.next = ground arith in
            let inside : s.next % length a.gap_buffer < length a.gap_buffer =
              mod-lt s.next (rw v.slots v.some_slot) in
            let b : DualFeedArbitrator = record a {
              gap_buffer =
                  set a.gap_buffer (s.next % length a.gap_buffer)
                    (record (slot_of a s.next) { active = false });
              expected_seq_no = add64 s.next 1;
            } in
            rw (v.next, ready, out, release)
              (record {
                same = refl;
                after =
                    advance-Buffers b (let next = v.next in omega (arith, next))
                      (length-set a.gap_buffer _ _ ∙ v.slots) (λ q lo. taken-held b q lo here refl)
                      (set-AllBelow _ a.gap_buffer _ _ inside (λ off. absurd (cc off)) v.bounded);
              })
      ]

next-accept : (s : ReorderBuffer) (m : WireMessage) → (accept s m).1.next ≤ suc s.next
unfolding accept
next-accept s m = ground arith

next-release : (s : ReorderBuffer) → (release s).1.next ≤ suc s.next
unfolding release
next-release s = ground arith

-- From an arbitrator that corresponds to a reorder buffer with no slots, as long as every message
-- arrives less than the length of the gap buffer ahead of the expected number, any calls hand on
-- exactly the messages that the reorder buffer hands on: none is overwritten before its turn. The
-- expected number does not reach 2 ^ 64.
pub delivered-answered :
    (es : List Event) (n : ℕ) (a : DualFeedArbitrator) (s : ReorderBuffer)
    → Buffers n a s
    → InWindow n s es
    → s.next + length es < 2 ^ 64
    → delivered a es ≡ answered s es
unfolding delivered answered InWindow handle answer
delivered-answered [] n a s v w small = refl
delivered-answered (ingests source m ∷ es) n a s v w small =
    let next = v.next in
    let g = accept-Agrees n a s v source m (omega (arith, next)) w.0 in
    ap₂ deliver g.same (
      delivered-answered es n (ingest a source m).1 (accept s m).1 g.after w.1
        (let h = next-accept s m in omega (arith, h)))
delivered-answered (drains ∷ es) n a s v w small =
    let next = v.next in
    let g = release-Agrees n a s v (omega (arith, next)) in
    ap₂ deliver g.same (
      delivered-answered es n (try_drain_buffered a).1 (release s).1 g.after w
        (let h = next-release s in omega (arith, h)))

abbrev pub nothing_waits : ReorderBuffer
nothing_waits = record { next = 1; waiting = λ q. none }

pub reset-Buffers : (n : ℕ) → 0 < n → Buffers n (reset n) nothing_waits
unfolding reset
reset-Buffers n some_slot = record {
  slots = length-replicate n vacant;
  some_slot = some_slot;
  next = refl;
  holds = λ q lo hi. rw (get_or-replicate n _ vacant);
  no_more = λ q h. refl;
  bounded = λ i on. absurd (cc (rw (get_or-replicate n i vacant) at on));
}

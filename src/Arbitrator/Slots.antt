-- ===== src/Arbitrator/Slots.antt =====
-- A reorder buffer with no slots, and how the slots of the arbitrator correspond to it.
use quant_feed_handler.Base.{
  ℕ, suc, ◌+◌, ◌%◌, ◌≤◌, ◌<◌, List, [], ◌∷◌, Option, none, some, true, ◌&&◌, ◌≡◌, ◌≢◌, sym, ap, ap₂,
  ◌∙◌, inl, inr, length, get_or, set, length-set, ltb, ◌==◌, Bool-cases, if◌then◌else◌, arith,
}
use native.Mathlib.Decide.{dec_le}
use quant_feed_handler.Base.Arrays.{get_or-set_self, get_or-set_ne}
use quant_feed_handler.Base.Window.{mod-ne}
use quant_feed_handler.Arbitrator.{
  GapBufferEntry, vacant, DualFeedArbitrator, slot_of, Event, ingests, drains, deliver,
}
use quant_feed_handler.Protocol.{WireMessage, seq_no}

-- The next number to hand on, and the messages that wait, by their numbers.
pub record ReorderBuffer : Type 0 where
  pub next : ℕ
  pub waiting : ℕ → Option WireMessage

unfoldable pub accept : ReorderBuffer → WireMessage → Option WireMessage × ReorderBuffer
accept s m =
    if ltb (seq_no m) s.next
    then (none, s)
    else if seq_no m == s.next
    then (some m, record s { next = suc s.next })
    else (none, record s { waiting = λ q. if q == seq_no m then some m else s.waiting q })

-- A message that has waited for its turn goes out.
unfoldable pub release : ReorderBuffer → Option WireMessage × ReorderBuffer
release s = elim (s.waiting s.next) [
  | none ↦ (none, s)
  | some m ↦ (some m, record s { next = suc s.next })
]

unfoldable pub answer : ReorderBuffer → Event → Option WireMessage × ReorderBuffer
answer s (ingests source m) = accept s m
answer s drains = release s

unfoldable pub answered : ReorderBuffer → List Event → List WireMessage
answered s [] = []
answered s (e ∷ es) = deliver (answer s e).0 (answered (answer s e).1 es)

-- Every message arrives less than `n` ahead of the next number.
unfoldable pub InWindow : ℕ → ReorderBuffer → List Event → Type 0
InWindow n s [] = Unit
InWindow n s (drains ∷ es) = InWindow n (answer s drains).1 es
InWindow n s (ingests source m ∷ es) =
    (seq_no m < s.next + n) × InWindow n (answer s (ingests source m)).1 es

-- What an entry holds for a number.
abbrev pub reading : GapBufferEntry → ℕ → Option WireMessage
reading entry q = if entry.active && (seq_no entry.msg == q) then some entry.msg else none

abbrev pub held : DualFeedArbitrator → ℕ → Option WireMessage
held a q = reading (slot_of a q) q

-- Every active entry has a number below the limit.
abbrev pub AllBelow : ℕ → List GapBufferEntry → Type 0
AllBelow limit xs =
    (i : ℕ) → (get_or xs i vacant).active ≡ true → seq_no (get_or xs i vacant).msg < limit

pub record Buffers (n : ℕ) (a : DualFeedArbitrator) (s : ReorderBuffer) : Type 0 where
  pub slots : length a.gap_buffer ≡ n
  pub some_slot : 0 < n
  pub next : a.expected_seq_no ≡ s.next
  pub holds : (q : ℕ) → s.next ≤ q → q < s.next + n → held a q ≡ s.waiting q
  pub no_more : (q : ℕ) → s.next + n ≤ q → s.waiting q ≡ none
  pub bounded : AllBelow (s.next + n) a.gap_buffer

-- Same answer, and states that correspond again.
pub record Agrees (n : ℕ) (r : Option WireMessage × DualFeedArbitrator)
    (t : Option WireMessage × ReorderBuffer) : Type 0 where
  pub same : r.0 ≡ t.0
  pub after : Buffers n r.1 t.1

-- Two numbers of the window have different slots.
pub slots-ne : (n e p q : ℕ) → e ≤ p → p < e + n → e ≤ q → q < e + n → q ≢ p → p % n ≢ q % n
slots-ne n e p q p_lo p_hi q_lo q_hi d = elim (dec_le p q) [
  | yes h ↦ mod-ne p q n (grind arith) (omega arith)
  | no h ↦ λ same. mod-ne q p n (omega arith) (omega arith) (sym same)
]

-- The slots after a write to one.
pub slot_of-set :
    (n : ℕ) (xs : List GapBufferEntry) (b : DualFeedArbitrator) (p q : ℕ) (entry : GapBufferEntry)
    → length xs ≡ n
    → b.gap_buffer ≡ set xs (p % length xs) entry
    → slot_of b q ≡ get_or (set xs (p % n) entry) (q % n) vacant
slot_of-set n xs b p q entry len buf =
    let size : length b.gap_buffer ≡ n = ap length buf ∙ length-set xs _ entry ∙ len in
    ap₂ (λ (l : List GapBufferEntry) k. get_or l (q % k) vacant)
      (buf ∙ ap (λ k. set xs (p % k) entry) len) size

pub set-AllBelow :
    (limit : ℕ) (xs : List GapBufferEntry) (i : ℕ) (entry : GapBufferEntry)
    → i < length xs
    → (entry.active ≡ true → seq_no entry.msg < limit)
    → AllBelow limit xs
    → AllBelow limit (set xs i entry)
set-AllBelow limit xs i entry inside below v = λ j on. (elim (Bool-cases (i == j)) [
  | inl here ↦
      let here' : j ≡ i = ground arith in
      let slot : get_or (set xs i entry) j vacant ≡ entry =
        rw here' (get_or-set_self xs i entry vacant inside) in
      rw slot (below (rw slot at on))
  | inr other ↦
      let slot = get_or-set_ne xs i j entry vacant (ground arith) in rw slot (v j (rw slot at on))
])

-- ===== src/Wal/Log.antt =====
-- The journal holds a sequence of records.
use quant_feed_handler.Base.{
  ℕ, zero, suc, ◌+◌, ◌-◌, ◌*◌, ◌^◌, ◌≤◌, ◌<◌, List, [], ◌∷◌, ◌++◌, some, true, false, ◌≡◌, ◌≢◌,
  refl, sym, ap, ap₂, ◌∙◌, length, length-append, take, drop, replicate, ltb, arith,
}
use mathlib.Core.List.{append-nil, append_assoc}
use quant_feed_handler.Base.Arrays.{take-append_left}
use quant_feed_handler.Protocol.{WireMessage, size_of_wire, msg_type}
use quant_feed_handler.Table.{add64}
use quant_feed_handler.Wal.{WalJournal, record_at, copy_to, append}

abbrev pub flatten : List WireMessage → List ℕ
flatten [] = []
flatten (m ∷ ms) = m ++ flatten ms

-- Whole records with a type.
abbrev pub AreRecords : List WireMessage → Type 0
AreRecords [] = Unit
AreRecords (m ∷ ms) = (length m ≡ size_of_wire) × (msg_type m ≢ 0) × AreRecords ms

-- The mapping begins with these records, and zeros follow them.
pub record Logged (ms : List WireMessage) (j : WalJournal) : Type 0 where
  pub bytes : List ℕ
  pub mapped : j.mapped ≡ some bytes
  pub rest : ℕ
  pub content : bytes ≡ flatten ms ++ replicate rest 0
  pub size : length (flatten ms) + rest ≡ j.max_size_bytes
  pub small : j.max_size_bytes + size_of_wire < 2 ^ 64
  pub offset : j.write_offset_bytes ≡ length ms * size_of_wire
  pub records : AreRecords ms

pub length-flatten :
    (ms : List WireMessage) → AreRecords ms → length (flatten ms) ≡ length ms * size_of_wire
length-flatten [] h = refl
length-flatten (m ∷ ms) h =
    let rest = length-flatten ms h.2 in omega (arith, length-append m (flatten ms), h.0, rest)

pub drop-append_left {ℓ} :
    {A : Type ℓ} (n k : ℕ) (xs ys : List A) → length xs ≡ n → drop (n + k) (xs ++ ys) ≡ drop k ys
drop-append_left zero k [] ys h = let e : 0 + k ≡ k = omega arith in rw e
drop-append_left zero k (x ∷ xs) ys h = absurd (omega arith)
drop-append_left (suc n) k [] ys h = absurd (omega arith)
drop-append_left (suc n) k (x ∷ xs) ys h =
    let e : suc n + k ≡ suc (n + k) = omega arith in rw e (drop-append_left n k xs ys (omega arith))

drop-replicate {ℓ} : {A : Type ℓ} (k n : ℕ) (a : A) → drop k (replicate n a) ≡ replicate (n - k) a
drop-replicate zero n a = let e : n - 0 ≡ n = omega arith in rw e
drop-replicate (suc k) zero a = let e : 0 - suc k ≡ 0 = omega arith in rw e
drop-replicate (suc k) (suc n) a =
    let e : suc n - suc k ≡ n - k = omega arith in rw e (drop-replicate k n a)

flatten-snoc : (ms : List WireMessage) (m : WireMessage) → flatten (ms ++ m ∷ []) ≡ flatten ms ++ m
flatten-snoc [] m = append-nil m
flatten-snoc (k ∷ ms) m = ap (λ l. k ++ l) (flatten-snoc ms m) ∙ sym (append_assoc k (flatten ms) m)

AreRecords-snoc :
    (ms : List WireMessage) (m : WireMessage)
    → AreRecords ms
    → length m ≡ size_of_wire
    → msg_type m ≢ 0
    → AreRecords (ms ++ m ∷ [])
AreRecords-snoc [] m h len known = (len, known, tt)
AreRecords-snoc (k ∷ ms) m h len known = (h.0, h.1, AreRecords-snoc ms m h.2 len known)

-- The records of a log by their index.
pub record_at-skip :
    (m : WireMessage) (bytes : List ℕ) (i : ℕ)
    → length m ≡ size_of_wire
    → record_at (m ++ bytes) (suc i) ≡ record_at bytes i
record_at-skip m bytes i h =
    let e : suc i * size_of_wire ≡ size_of_wire + i * size_of_wire = omega arith in
    rw e (ap (take size_of_wire) (drop-append_left size_of_wire (i * size_of_wire) m bytes h))

pub record_at-head :
    (m : WireMessage) (bytes : List ℕ) → length m ≡ size_of_wire → record_at (m ++ bytes) 0 ≡ m
record_at-head m bytes h = take-append_left size_of_wire m bytes h

-- Writing behind the records.
copy_to-end :
    (xs m : List ℕ) (rest : ℕ)
    → copy_to (xs ++ replicate rest 0) (length xs) m ≡ xs ++ m ++ replicate (rest - length m) 0
copy_to-end xs m rest =
    ap₂ (λ (l r : List ℕ). l ++ m ++ r) (take-append_left (length xs) xs (replicate rest 0) refl)
      (drop-append_left (length xs) (length m) xs (replicate rest 0) refl
        ∙ drop-replicate (length m) rest 0)

-- While a record fits, `append` adds it to the log.
pub append-Logged :
    (ms : List WireMessage) (j : WalJournal) (m : WireMessage)
    → Logged ms j
    → length m ≡ size_of_wire
    → msg_type m ≢ 0
    → suc (length ms) * size_of_wire ≤ j.max_size_bytes
    → ((append j m).0 ≡ true) × Logged (ms ++ m ∷ []) (append j m).1
unfolding append
append-Logged ms j m v len known room =
    let flat = length-flatten ms v.records in
    let offset = v.offset in
    let size = v.size in
    let small = v.small in
    let at_end : j.write_offset_bytes ≡ length (flatten ms) = omega (arith, flat, offset) in
    let fits : ltb j.max_size_bytes (add64 j.write_offset_bytes size_of_wire) ≡ false =
      ground (arith, offset, small) in
    rw (v.mapped, append, fits)
      (
        refl,
        record {
          bytes = copy_to v.bytes j.write_offset_bytes m;
          mapped = refl;
          rest = v.rest - size_of_wire;
          content =
              ap₂ (λ b o. copy_to b o m) v.content at_end
              ∙ copy_to-end (flatten ms) m v.rest
              ∙ ap₂ (λ (l : List ℕ) k. l ++ replicate (v.rest - k) 0) (sym (flatten-snoc ms m)) len;
          size =
              (let rest = v.rest in
                omega (
                  arith,
                  size,
                  offset,
                  flat,
                  len,
                  length-append (flatten ms) m,
                  ap length (flatten-snoc ms m),
                ));
          small = small;
          offset = omega (arith, offset, small, length-append ms (m ∷ []));
          records = AreRecords-snoc ms m v.records len known;
        },
      )

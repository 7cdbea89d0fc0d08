-- ===== src/Replay/Capture.antt =====
-- Capture files: what is read of them, and that nothing of a complete file is lost.
use quant_feed_handler.Base.{
  ℕ, zero, suc, ◌+◌, ◌-◌, ◌≤◌, ◌<◌, ◌^◌, List, [], ◌∷◌, ◌++◌, Option, none, some, true, false, ◌≡◌,
  refl, sym, ◌∙◌, ap, inl, inr, map, length, length-append, length-drop, take, drop, All, ltb, leb,
  Bool-cases, if◌then◌else◌, arith,
}
use quant_feed_handler.Base.Arrays.{take-append_left}
use quant_feed_handler.Protocol.{WireMessage, le_bytes}
use quant_feed_handler.Protocol.Roundtrip.{of_le-le_bytes}
use quant_feed_handler.Arbitrator.Order.{count_up}
use quant_feed_handler.Validator.{validate_and_parse}
use quant_feed_handler.Validator.Line.{zeroed}
use quant_feed_handler.Replay.{
  packet_header, when_valid, first_of, scan, frame_message, push_found, push_later, or_nothing,
  read_packets, read_capture,
}

-- A packet of a capture: the time it came and its bytes.
pub record Frame : Type 0 where
  pub ts_sec : ℕ
  pub ts_usec : ℕ
  pub bytes : List ℕ

-- The packet in the file, all of its bytes included.
unfoldable pub packet : Frame → List ℕ → List ℕ
packet f rest =
    le_bytes 4 f.ts_sec
    ++ le_bytes 4 f.ts_usec
    ++ le_bytes 4 (length f.bytes)
    ++ le_bytes 4 (length f.bytes)
    ++ f.bytes
    ++ rest

unfoldable pub packets : List Frame → List ℕ
packets [] = []
packets (f ∷ fs) = packet f (packets fs)

-- A file with the magic number, the other 20 bytes of the global header, and the packets.
unfoldable pub capture : List ℕ → List Frame → List ℕ
capture settings fs = le_bytes 4 2712847316 ++ settings ++ packets fs

-- What the validator takes at an offset, up to the end of the frame.
abbrev pub at_offset : List ℕ → ℕ → Option WireMessage
at_offset bytes offset =
    when_valid (validate_and_parse (some (drop offset bytes)) (length (drop offset bytes)) zeroed)

-- The offsets that leave the size of an add or more: `0`, `1` and so on up to `length bytes - 34`.
abbrev pub offsets : List ℕ → List ℕ
offsets bytes = count_up 0 (suc (length bytes) - 34)

-- The first that is there, if any, in front of the rest.
abbrev pub first_taken : List (Option WireMessage) → List WireMessage → List WireMessage
first_taken [] rest = rest
first_taken (none ∷ os) rest = first_taken os rest
first_taken (some m ∷ os) rest = m ∷ rest

-- Of each frame the message at the first of the offsets at which there is one.
unfoldable pub taken_from : List Frame → List WireMessage
taken_from [] = []
taken_from (f ∷ fs) = first_taken (map (at_offset f.bytes) (offsets f.bytes)) (taken_from fs)

at_offset-cons :
    (b : ℕ) (bs : List ℕ) (start n : ℕ)
    → map (at_offset (b ∷ bs)) (count_up (suc start) n) ≡ map (at_offset bs) (count_up start n)
at_offset-cons b bs start zero = refl
at_offset-cons b bs start (suc n) =
    ap (λ l. at_offset bs start ∷ l) (at_offset-cons b bs (suc start) n)

push_found-first_of :
    (o next : Option WireMessage) (os : List (Option WireMessage)) (rest : List WireMessage)
    → push_found next rest ≡ first_taken os rest
    → push_found (first_of o next) rest ≡ first_taken (o ∷ os) rest
push_found-first_of none next os rest h = h
push_found-first_of (some m) next os rest h = refl

push_found-scan :
    (bytes : List ℕ) (rest : List WireMessage)
    → push_found (scan bytes) rest ≡ first_taken (map (at_offset bytes) (offsets bytes)) rest
unfolding scan
push_found-scan [] rest = refl
push_found-scan (b ∷ bs) rest = elim (Bool-cases (leb 34 (length (b ∷ bs)))) [
  | inl fits ↦
      let more : suc (length (b ∷ bs)) - 34 ≡ suc (suc (length bs) - 34) = ground arith in
      rw (fits, more)
        (push_found-first_of (at_offset (b ∷ bs) 0) (scan bs) _ rest (
          push_found-scan bs rest
          ∙ ap (λ os. first_taken os rest) (sym (at_offset-cons b bs 0 (suc (length bs) - 34)))))
  | inr short ↦
      let no_more : suc (length (b ∷ bs)) - 34 ≡ 0 = ground arith in rw (short, no_more) refl
]

push_found-frame_message :
    (bytes : List ℕ) (rest : List WireMessage)
    → push_found (frame_message bytes) rest
      ≡ first_taken (map (at_offset bytes) (offsets bytes)) rest
unfolding frame_message
push_found-frame_message bytes rest = elim (Bool-cases (leb 34 (length bytes))) [
  | inl fits ↦ rw fits (push_found-scan bytes rest)
  | inr short ↦ let no_more : suc (length bytes) - 34 ≡ 0 = ground arith in rw (short, no_more) refl
]

drop-append {ℓ} : {A : Type ℓ} (n : ℕ) (xs ys : List A) → length xs ≡ n → drop n (xs ++ ys) ≡ ys
drop-append zero [] ys h = refl
drop-append zero (x ∷ xs) ys h = absurd (omega arith)
drop-append (suc n) [] ys h = absurd (omega arith)
drop-append (suc n) (x ∷ xs) ys h = drop-append n xs ys (omega arith)

packet-incl_len :
    (f : Frame) (rest : List ℕ)
    → length f.bytes < 2 ^ 32
    → (packet_header (packet f rest)).incl_len ≡ length f.bytes
unfolding packet packet_header
packet-incl_len f rest small = of_le-le_bytes 4 (length f.bytes) small

drop-packet : (f : Frame) (rest : List ℕ) → drop 16 (packet f rest) ≡ f.bytes ++ rest
unfolding packet
drop-packet f rest = refl

length-packet :
    (f : Frame) (rest : List ℕ) → length (packet f rest) ≡ 16 + length f.bytes + length rest
unfolding packet
length-packet f rest = let e = length-append f.bytes rest in omega (arith, e)

abbrev pub FitsFrame : Frame → Type 0
FitsFrame f = length f.bytes < 2 ^ 32

-- The loop over the packets with a round for each of them, and one for the end of the file.
read_packets-packets :
    (n : ℕ) (fs : List Frame)
    → All FitsFrame fs
    → length fs < n
    → read_packets n (packets fs) ≡ some (taken_from fs)
unfolding read_packets packets taken_from
read_packets-packets zero fs fit enough = absurd (omega arith)
read_packets-packets (suc n) [] fit enough = refl
read_packets-packets (suc n) (f ∷ fs) fit enough =
    let size = length-packet f (packets fs) in
    let append = length-append f.bytes (packets fs) in
    let whole : ltb (length (packet f (packets fs))) 16 ≡ false = ground (arith, size) in
    let there : ltb (length (f.bytes ++ packets fs)) (length f.bytes) ≡ false =
      ground (arith, append) in
    rw
      (
        packet-incl_len f (packets fs) fit.0,
        drop-packet f (packets fs),
        whole,
        there,
        take-append_left (length f.bytes) f.bytes (packets fs) refl,
        drop-append (length f.bytes) f.bytes (packets fs) refl,
      )
      (ap (push_later (frame_message f.bytes)) (read_packets-packets n fs fit.1 (omega arith))
        ∙ ap some (push_found-frame_message f.bytes (taken_from fs)))

length-packets : (fs : List Frame) → length fs ≤ length (packets fs)
unfolding packets
length-packets [] = omega arith
length-packets (f ∷ fs) =
    let size = length-packet f (packets fs) in
    let rest = length-packets fs in omega (arith, size, rest)

-- Of a capture that holds frames of less than 2 ^ 32 bytes, `read_capture` takes from each frame, in
-- their order, the message at the first offset that the validator accepts, of the offsets that
-- leave at least 34 bytes; it takes nothing from a frame without such an offset, so not a
-- cancellation or an execution that starts later. The other fields of the headers do not matter.
pub read_capture-capture :
    (settings : List ℕ) (fs : List Frame)
    → length settings ≡ 20
    → All FitsFrame fs
    → read_capture (capture settings fs) ≡ taken_from fs
unfolding read_capture capture
read_capture-capture settings fs whole fit =
    let body = settings ++ packets fs in
    let sizes = length-append settings (packets fs) in
    let counts = length-packets fs in
    let file = le_bytes 4 2712847316 ++ body in
    let headed : leb 24 (length file) ≡ true = ground (arith, sizes, whole) in
    let skipped : drop 20 body ≡ packets fs = drop-append 20 settings (packets fs) whole in
    rw (headed, skipped)
      (ap or_nothing
        (read_packets-packets (suc (length file)) fs fit (omega (arith, sizes, counts))))

-- What is left behind a header and its packet.
rest_shorter :
    (bytes : List ℕ) (len : ℕ)
    → ltb (length bytes) 16 ≡ false
    → length (drop len (drop 16 bytes)) + 16 ≤ length bytes
rest_shorter bytes len header =
    let first = length-drop 16 bytes in
    let rest = length-drop len (drop 16 bytes) in ground (arith, first, rest)

read_packets_fuel :
    (n m : ℕ) (bytes : List ℕ)
    → length bytes < n
    → length bytes < m
    → read_packets n bytes ≡ read_packets m bytes
unfolding read_packets
read_packets_fuel zero m bytes hn hm = absurd (omega arith)
read_packets_fuel (suc n) zero bytes hn hm = absurd (omega arith)
read_packets_fuel (suc n) (suc m) bytes hn hm =
    let len = (packet_header bytes).incl_len in
    let pkt_data = drop 16 bytes in
    elim (Bool-cases (ltb (length bytes) 16)) [
      | inl cut ↦ rw cut refl
      | inr header ↦
          let short = rest_shorter bytes len header in
          rw header (
            ap
              (λ l.
                if ltb (length pkt_data) len
                then some []
                else push_later (frame_message (take len pkt_data)) l)
              (read_packets_fuel n m (drop len pkt_data) (omega (arith, short))
                (omega (arith, short))))
    ]

read_packets-ends :
    (n : ℕ) (bytes : List ℕ)
    → length bytes < n
    → (ms : List WireMessage) × (read_packets n bytes ≡ some ms)
unfolding read_packets
read_packets-ends zero bytes h = absurd (omega arith)
read_packets-ends (suc n) bytes h =
    let len = (packet_header bytes).incl_len in
    let pkt_data = drop 16 bytes in
    elim (Bool-cases (ltb (length bytes) 16)) [
      | inl cut ↦ rw cut ([], refl)
      | inr header ↦ rw header (elim (Bool-cases (ltb (length pkt_data) len)) [
        | inl cut ↦ rw cut ([], refl)
        | inr whole ↦
            let short = rest_shorter bytes len header in
            let rest = read_packets-ends n (drop len pkt_data) (omega (arith, short)) in
            rw whole (
              push_found (frame_message (take len pkt_data)) rest.0,
              ap (push_later (frame_message (take len pkt_data))) rest.1,
            )
      ])
    ]

-- The loop over the packets ends on every file: with more fuel than there are bytes the fuel does
-- not run out, and the amount makes no difference to the result.
pub read_packets-fuel :
    (fuel : ℕ) (bytes : List ℕ)
    → length bytes < fuel
    → (ms : List WireMessage) × (read_packets fuel bytes ≡ some ms)
      × (read_packets (suc (length bytes)) bytes ≡ some ms)
read_packets-fuel fuel bytes enough =
    let least = read_packets-ends (suc (length bytes)) bytes (omega arith) in
    (
      least.0,
      read_packets_fuel fuel (suc (length bytes)) bytes enough (omega arith) ∙ least.1,
      least.1,
    )

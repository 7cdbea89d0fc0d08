-- ===== src/Replay/Datagrams.antt =====
-- What the replayer sends, and what a receiver makes of it.
use quant_feed_handler.Base.{
  ℕ, zero, suc, ◌≤◌, List, [], ◌∷◌, ◌++◌, Option, none, some, false, ◌≡◌, ◌≢◌, refl, ap, ◌∙◌, inl,
  inr, length, length-append, length-take, take, drop, All, ltb, leb, ◌==◌, ◌&&◌, ◌||◌, Bool-cases,
  arith,
}
use quant_feed_handler.Protocol.{WireMessage, msg_type, size_of_add, size_of_wire, expected_size}
use quant_feed_handler.Replay.{
  packet_header, when_valid, first_of, scan, frame_message, push_found, push_later, or_nothing,
  read_packets, magic_number, read_capture, found_messages, datagram,
}
use quant_feed_handler.Validator.{
  ValidationResult, valid, truncated_header, unknown_message_type, length_mismatch, invalid_side,
  invalid_price, invalid_quantity, sequence_out_of_order, validate_and_parse, copied, check_fields,
}
use quant_feed_handler.Validator.Accept.{msg_type-copied}
use quant_feed_handler.Validator.Line.{zeroed}

-- A receiver of the datagram accepts it, and has the message then.
abbrev pub Arrives : WireMessage → Type 0
Arrives m = validate_and_parse (some (datagram m)) (length (datagram m)) zeroed ≡ (valid, m)

-- A message that fills what its type needs, followed by zeros.
pub record IsPadded (m : WireMessage) : Type 0 where
  required : expected_size (msg_type m) ≢ 0
  long : expected_size (msg_type m) ≤ length m
  padded : copied m (expected_size (msg_type m)) zeroed ≡ m

pub IsPadded-as :
    (m : WireMessage) (type k : ℕ)
    → msg_type m ≡ type
    → expected_size type ≡ k
    → k ≢ 0
    → k ≤ length m
    → copied m k zeroed ≡ m
    → IsPadded m
IsPadded-as m type k t e some_k long same =
    let size : expected_size (msg_type m) ≡ k = rw t e in
    record { required = rw size some_k; long = rw size long; padded = rw size same }

take-take :
    {A : Type 0} (n : ℕ) (xs ys : List A) → n ≤ length xs → take n (take n xs ++ ys) ≡ take n xs
take-take zero xs ys h = refl
take-take (suc n) [] ys h = absurd (omega arith)
take-take (suc n) (x ∷ xs) ys h = ap (λ l. x ∷ l) (take-take n xs ys (omega arith))

take_idem : {A : Type 0} (n : ℕ) (xs : List A) → take n (take n xs) ≡ take n xs
take_idem zero xs = refl
take_idem (suc n) [] = refl
take_idem (suc n) (x ∷ xs) = ap (λ l. x ∷ l) (take_idem n xs)

msg_type-take : (n : ℕ) (m : List ℕ) → n ≢ 0 → msg_type (take n m) ≡ msg_type m
msg_type-take zero m h = absurd (h refl)
msg_type-take (suc n) [] h = refl
msg_type-take (suc n) (b ∷ bs) h = refl

pub Arrives-IsPadded :
    (m : WireMessage) → IsPadded m → check_fields (msg_type m) m ≡ valid → Arrives m
unfolding validate_and_parse datagram
Arrives-IsPadded m v sound =
    let req = expected_size (msg_type m) in
    let some_req = v.required in
    let d = take req m in
    let type : msg_type d ≡ msg_type m = msg_type-take req m v.required in
    let size : length d ≡ req =
      (let e = length-take req m in let l = v.long in omega (arith, e, l)) in
    let got : ltb (length d) 1 ≡ false = ground (arith, size, some_req) in
    let known : (req == 0) ≡ false = ground (arith, some_req) in
    let enough : ltb (length d) req ≡ false = ground (arith, size) in
    let same : copied d req zeroed ≡ m =
      ap (λ l. l ++ drop req zeroed) (take_idem req m) ∙ v.padded in
    rw (type, got, known, enough, same, sound) refl

module _ (b : ℕ) (bs : List ℕ) where
  abbrev buffer : List ℕ
  buffer = b ∷ bs

  -- An accepted buffer leaves such a message.
  accepted-Arrives :
      (validate_and_parse (some buffer) (length buffer) zeroed).0 ≡ valid
      → Arrives (validate_and_parse (some buffer) (length buffer) zeroed).1
  unfolding validate_and_parse
  accepted-Arrives h =
      let req = expected_size (msg_type buffer) in
      let m = copied buffer req zeroed in
      let got : ltb (length buffer) 1 ≡ false = ground arith in
      elim (Bool-cases (req == 0)) [
        | inl unknown ↦ absurd (cc (rw (got, unknown) at h))
        | inr known ↦ elim (Bool-cases (ltb (length buffer) req)) [
          | inl short ↦ absurd (cc (rw (got, known, short) at h))
          | inr enough ↦
              let some_req : req ≢ 0 = ground arith in
              let within : req ≤ length buffer = ground arith in
              let type : msg_type m ≡ msg_type buffer = msg_type-copied b bs req zeroed some_req in
              let e = length-take req buffer in
              let sum = length-append (take req buffer) (drop req zeroed) in
              let v =
                IsPadded-as m (msg_type buffer) req type refl some_req (omega (arith, e, sum)) (
                  ap (λ l. l ++ drop req zeroed) (take-take req buffer (drop req zeroed) within)) in
              let sound = rw (got, known, enough) at h in
              rw (got, known, enough) (Arrives-IsPadded m v (rw type sound))
        ]
      ]

abbrev Found : Option WireMessage → Type 0
Found none = Unit
Found (some m) = Arrives m

when_valid-Found :
    (p : ValidationResult × WireMessage) → (p.0 ≡ valid → Arrives p.1) → Found (when_valid p)
when_valid-Found (valid, m) h = h refl
when_valid-Found (truncated_header, m) h = tt
when_valid-Found (unknown_message_type, m) h = tt
when_valid-Found (length_mismatch, m) h = tt
when_valid-Found (invalid_side, m) h = tt
when_valid-Found (invalid_price, m) h = tt
when_valid-Found (invalid_quantity, m) h = tt
when_valid-Found (sequence_out_of_order, m) h = tt

first_of-Found : (o other : Option WireMessage) → Found o → Found other → Found (first_of o other)
first_of-Found none other f g = g
first_of-Found (some m) other f g = f

scan-Found : (bytes : List ℕ) → Found (scan bytes)
unfolding scan
scan-Found [] = tt
scan-Found (b ∷ bs) = elim (Bool-cases (leb size_of_add (length (b ∷ bs)))) [
  | inl room ↦
      rw room
        (first_of-Found _ (scan bs) (when_valid-Found _ (accepted-Arrives b bs)) (scan-Found bs))
  | inr short ↦ rw short tt
]

frame_message-Found : (bytes : List ℕ) → Found (frame_message bytes)
unfolding frame_message
frame_message-Found bytes = elim (Bool-cases (leb size_of_wire (length bytes))) [
  | inl room ↦ rw room (scan-Found bytes)
  | inr short ↦ rw short tt
]

push_found-Arrives :
    (o : Option WireMessage) (ms : List WireMessage)
    → Found o
    → All Arrives ms
    → All Arrives (push_found o ms)
push_found-Arrives none ms f g = g
push_found-Arrives (some m) ms f g = (f, g)

push_later-Arrives :
    (o : Option WireMessage) (rest : Option (List WireMessage))
    → Found o
    → All Arrives (or_nothing rest)
    → All Arrives (or_nothing (push_later o rest))
push_later-Arrives o none f g = tt
push_later-Arrives o (some ms) f g = push_found-Arrives o ms f g

read_packets-Arrives : (n : ℕ) (bytes : List ℕ) → All Arrives (or_nothing (read_packets n bytes))
unfolding read_packets
read_packets-Arrives zero bytes = tt
read_packets-Arrives (suc n) bytes =
    let len = (packet_header bytes).incl_len in
    let pkt_data = drop 16 bytes in
    elim (Bool-cases (ltb (length bytes) 16)) [
      | inl cut ↦ rw cut tt
      | inr header ↦ rw header (elim (Bool-cases (ltb (length pkt_data) len)) [
        | inl cut ↦ rw cut tt
        | inr whole ↦ rw whole (
            push_later-Arrives (frame_message (take len pkt_data)) _
              (frame_message-Found (take len pkt_data))
              (read_packets-Arrives n (drop len pkt_data)))
      ])
    ]

pub found_messages-Arrives : (file : Option (List ℕ)) → All Arrives (found_messages file)
unfolding found_messages read_capture
found_messages-Arrives none = tt
found_messages-Arrives (some file) =
    elim (Bool-cases (
      leb 24 (length file)
      && (magic_number file == 2712847316 || magic_number file == 3569595041))) [
        | inl headed ↦ rw headed (read_packets-Arrives (suc (length file)) (drop 24 file))
        | inr other ↦ rw other tt
      ]

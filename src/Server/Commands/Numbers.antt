-- ===== src/Server/Commands/Numbers.antt =====
-- The sequence numbers of the messages that commands push.
use quant_feed_handler.Base.{
  ℕ, suc, ◌+◌, ◌*◌, ◌^◌, ◌≤◌, ◌<◌, List, [], ◌∷◌, ◌++◌, Option, none, some, Bool, true, false, ◌||◌,
  ◌≡◌, refl, inl, inr, length, length-append, drop, All, Bool-cases, if◌then◌else◌, arith,
}
use quant_feed_handler.Base.Texts.{codes}
use quant_feed_handler.Protocol.{WireMessage, seq_no, of_add}
use quant_feed_handler.Server.Commands.{
  Engine, Files, starts_with, take_number, push_wire_message, push_parsed, order_line, load_lines,
  load_opened, trim, example_file, is_order_command, crossing_order, command, when_running,
  commands,
}
use quant_feed_handler.Validator.Line.{
  Text, Library, is_empty, is_ignored, eq_text, zeroed, parse_user_line,
}
use quant_feed_handler.Validator.Parsed.{Fits, Parsed, parse_user_line-Parsed}
use quant_feed_handler.Validator.Written.{seq_no-of_add}

-- Sequence numbers that only grow, from a first one on, all below an end.
abbrev pub GrowsTo : ℕ → List WireMessage → ℕ → Type 0
GrowsTo first [] end = first ≤ end
GrowsTo first (m ∷ ms) end = (first ≤ seq_no m) × GrowsTo (suc (seq_no m)) ms end

GrowsTo-mono : (a b c : ℕ) (ms : List WireMessage) → a ≤ b → GrowsTo b ms c → GrowsTo a ms c
GrowsTo-mono a b c [] le g = omega arith
GrowsTo-mono a b c (m ∷ ms) le g = (let lo = g.0 in omega (arith, lo), g.1)

GrowsTo-append :
    (a b c : ℕ) (ms ns : List WireMessage)
    → GrowsTo a ms b
    → GrowsTo b ns c
    → GrowsTo a (ms ++ ns) c
GrowsTo-append a b c [] ns g h = GrowsTo-mono a b c ns g h
GrowsTo-append a b c (m ∷ ms) ns g h = (g.0, GrowsTo-append (suc (seq_no m)) b c ms ns g.1 h)

-- There are at least as many numbers as messages.
GrowsTo-length : (a b : ℕ) (ms : List WireMessage) → GrowsTo a ms b → a + length ms ≤ b
GrowsTo-length a b [] g = omega arith
GrowsTo-length a b (m ∷ ms) g =
    let lo = g.0 in let rest = GrowsTo-length (suc (seq_no m)) b ms g.1 in omega (arith, lo, rest)

-- The messages that were pushed have growing numbers that were given out on the way, each of them is
-- counted, and no more than so many numbers were given out.
pub record Numbered (cost : ℕ) (e : Engine) (p : List WireMessage × Engine) : Type 0 where
  pub grows : GrowsTo e.user_seq_no p.0 p.1.user_seq_no
  pub counted : p.1.total_ingested ≡ e.total_ingested + length p.0
  pub within : p.1.user_seq_no ≤ e.user_seq_no + cost

-- No more messages than numbers so far.
abbrev pub IsCounting : Engine → Type 0
IsCounting e = e.total_ingested ≤ e.user_seq_no

Numbered-IsCounting :
    (cost : ℕ) (e : Engine) (p : List WireMessage × Engine)
    → IsCounting e
    → Numbered cost e p
    → IsCounting p.1
Numbered-IsCounting cost e p few v =
    let more = GrowsTo-length e.user_seq_no p.1.user_seq_no p.0 v.grows in
    let counted = v.counted in omega (arith, few, more, counted)

-- Two parts, one after the other.
Numbered-append :
    (c d cost : ℕ) (e : Engine) (p q : List WireMessage × Engine)
    → c + d ≤ cost
    → Numbered c e p
    → Numbered d p.1 q
    → Numbered cost e (p.0 ++ q.0, q.1)
Numbered-append c d cost e p q enough v w = record {
  grows = GrowsTo-append _ p.1.user_seq_no _ p.0 q.0 v.grows w.grows;
  counted =
      (let a = v.counted in
        let b = w.counted in let s = length-append p.0 q.0 in omega (arith, a, b, s));
  within = (let a = v.within in let b = w.within in omega (arith, a, b));
}

-- Nothing is pushed, and the numbers stay.
Numbered-nothing :
    (cost : ℕ) (e e' : Engine)
    → e'.user_seq_no ≡ e.user_seq_no
    → e'.total_ingested ≡ e.total_ingested
    → Numbered cost e ([], e')
Numbered-nothing cost e e' same total = record {
  grows = omega (arith, same);
  counted = omega (arith, total);
  within = omega (arith, same);
}

module _ (e : Engine) (few : IsCounting e) (small : suc e.user_seq_no < 2 ^ 64) where
  push-Numbered :
      (m : WireMessage)
      → seq_no m ≡ e.user_seq_no
      → Numbered 1 e (push_wire_message m (take_number e))
  unfolding push_wire_message
  push-Numbered m same = record {
    grows = (omega (arith, same), omega (arith, same));
    counted = omega (arith, few);
    within = omega arith;
  }

  push_parsed-Numbered :
      (p : Bool × WireMessage)
      → Parsed e.user_seq_no p
      → Numbered 1 e (push_parsed p (take_number e))
  unfolding push_parsed
  push_parsed-Numbered (true, m) v = push-Numbered m v.0
  push_parsed-Numbered (false, m) v = record {
    grows = omega arith;
    counted = omega arith;
    within = omega arith;
  }

module _ (lib : Library) (f : Fits lib) where
  order_line-Numbered :
      (line : Text) (e : Engine)
      → IsCounting e
      → suc e.user_seq_no < 2 ^ 64
      → Numbered 1 e (order_line lib line e)
  unfolding order_line
  order_line-Numbered line e few small =
      push_parsed-Numbered e few small (parse_user_line lib line e.user_seq_no zeroed)
        (parse_user_line-Parsed lib f e.user_seq_no (omega arith) line zeroed)

  file_line-Numbered :
      (line : Text) (e : Engine)
      → IsCounting e
      → suc e.user_seq_no < 2 ^ 64
      → Numbered 1 e (if is_ignored line then ([], e) else order_line lib line e)
  file_line-Numbered line e few small = elim (Bool-cases (is_ignored line)) [
    | inl skipped ↦ rw skipped (Numbered-nothing 1 e e refl refl)
    | inr read ↦ rw read (order_line-Numbered line e few small)
  ]

  load_lines-Numbered :
      (lines : List Text) (e : Engine)
      → IsCounting e
      → suc e.user_seq_no + length lines < 2 ^ 64
      → Numbered (length lines) e (load_lines lib lines e)
  unfolding load_lines
  load_lines-Numbered [] e few small = Numbered-nothing 0 e e refl refl
  load_lines-Numbered (line ∷ lines) e few small =
      let p = if is_ignored line then ([], e) else order_line lib line e in
      let v = file_line-Numbered line e few (omega arith) in
      let way = v.within in
      let rest =
        load_lines-Numbered lines p.1 (Numbered-IsCounting 1 e p few v) (omega (arith, way)) in
      Numbered-append 1 (length lines) (suc (length lines)) e p (load_lines lib lines p.1)
        (omega arith) v rest

abbrev pub OpenedWithin : ℕ → Option (List Text) → Type 0
OpenedWithin longest none = Unit
OpenedWithin longest (some lines) = length lines ≤ longest

-- No file has more lines than this.
abbrev pub FilesWithin : ℕ → Files → Type 0
FilesWithin longest files = (path : Text) → OpenedWithin longest (files path)

-- `RESET` and `CLEAR` start the numbering again.
abbrev pub KeepsNumbers : Text → Type 0
KeepsNumbers line = eq_text line (codes "RESET") || eq_text line (codes "CLEAR") ≡ false

Numbered-weaken :
    (c cost : ℕ) (e : Engine) (p : List WireMessage × Engine)
    → c ≤ cost
    → Numbered c e p
    → Numbered cost e p
Numbered-weaken c cost e p enough v = record {
  grows = v.grows;
  counted = v.counted;
  within = (let w = v.within in omega (arith, w));
}

when_running-Numbered :
    (on : Bool) (cost : ℕ) (e : Engine) (p : List WireMessage × Engine)
    → Numbered cost e p
    → Numbered cost e (when_running on p e)
when_running-Numbered true cost e p v = v
when_running-Numbered false cost e p v = Numbered-nothing cost e e refl refl

module _ (lib : Library) (f : Fits lib) (files : Files) (longest : ℕ)
    (bound : FilesWithin longest files) where
  load_opened-Numbered :
      (o : Option (List Text)) (e : Engine)
      → OpenedWithin longest o
      → IsCounting e
      → suc e.user_seq_no + longest < 2 ^ 64
      → Numbered (suc longest) e (load_opened lib o e)
  unfolding load_opened
  load_opened-Numbered none e h few small = Numbered-nothing (suc longest) e e refl refl
  load_opened-Numbered (some lines) e h few small =
      Numbered-weaken (length lines) (suc longest) e (load_lines lib lines e) (omega arith)
        (load_lines-Numbered lib f lines e few (omega arith))

  module _ (line : Text) (e : Engine) (few : IsCounting e)
      (small : suc e.user_seq_no + longest < 2 ^ 64) where
    cross-Numbered :
        Numbered 1 e (push_wire_message (of_add (crossing_order lib e)) (take_number e))
    unfolding crossing_order
    cross-Numbered =
        push-Numbered e few (omega arith) (of_add (crossing_order lib e))
          (seq_no-of_add (crossing_order lib e) (omega arith))

    command-Numbered : KeepsNumbers line → Numbered (suc longest) e (command lib files line e)
    unfolding command
    command-Numbered keeps =
        let load = λ (path : Text). load_opened-Numbered (files path) e (bound path) few small in
        elim (Bool-cases (is_empty line)) [
          | inl blank ↦ rw blank (Numbered-nothing (suc longest) e e refl refl)
          | inr no_blank ↦ rw no_blank (elim (Bool-cases (is_order_command line)) [
            | inl order ↦ rw order (
                Numbered-weaken 1 (suc longest) e _ (omega arith)
                  (order_line-Numbered lib f line e few (omega arith)))
            | inr no_order ↦ rw no_order (elim (Bool-cases (starts_with (codes "FILE ") line)) [
              | inl file ↦ rw file (load (trim (drop 5 line)))
              | inr no_file ↦
                  rw no_file (elim (Bool-cases (starts_with (codes "LOAD_EXAMPLE ") line)) [
                    | inl example ↦ rw example (load (example_file (trim (drop 13 line))))
                    | inr no_example ↦
                        rw no_example (elim (Bool-cases (starts_with (codes "BURST") line)) [
                          | inl burst ↦ rw burst (Numbered-nothing (suc longest) e _ refl refl)
                          | inr no_burst ↦ rw no_burst (
                              rw keeps (elim (Bool-cases (eq_text line (codes "CROSS"))) [
                                | inl cross ↦ rw cross (
                                    Numbered-weaken 1 (suc longest) e _ (omega arith)
                                      cross-Numbered)
                                | inr no_cross ↦
                                    rw no_cross
                                      (elim (Bool-cases (
                                        eq_text line (codes "QUIT")
                                        || eq_text line (codes "EXIT"))) [
                                          | inl quit ↦
                                              rw quit (Numbered-nothing (suc longest) e _ refl refl)
                                          | inr no_quit ↦
                                              rw no_quit
                                                (Numbered-nothing (suc longest) e e refl refl)
                                        ])
                              ]))
                        ])
                  ])
            ])
          ])
        ]

  -- As long as nobody resets the server, the messages that commands push, in the order in which they
  -- are pushed, have numbers that only grow, from the next number on and below the one that is next
  -- in the end, and the count of messages grows by one for each. No file has more lines than the
  -- bound, `strtoull` and the clock give 64 bits, no more messages were counted than numbers
  -- were given out, and the numbers that the commands can take stay below 2 ^ 64 - 1.
  pub commands-Numbered :
      (lines : List Text) (e : Engine)
      → All KeepsNumbers lines
      → IsCounting e
      → suc e.user_seq_no + length lines * suc longest < 2 ^ 64
      → Numbered (length lines * suc longest) e (commands lib files lines e)
  unfolding commands
  commands-Numbered [] e keep few small = Numbered-nothing _ e e refl refl
  commands-Numbered (line ∷ lines) e keep few small =
      let cost = length lines * suc longest in
      let all : suc (length lines) * suc longest ≡ suc longest + cost = omega arith in
      let p = command lib files line e in
      let v = command-Numbered line e few (omega (arith, all)) keep.0 in
      let way = v.within in
      let rest =
        commands-Numbered lines p.1 keep.1 (Numbered-IsCounting (suc longest) e p few v)
          (omega (arith, way, all)) in
      when_running-Numbered e.running (suc (length lines) * suc longest) e _ (
        Numbered-append (suc longest) cost (suc (length lines) * suc longest) e p
          (commands lib files lines p.1) (omega (arith, all)) v rest)

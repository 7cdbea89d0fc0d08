-- ===== src/Bench/Arguments/Bounds.antt =====
-- The numbers of the command line are in bounds, whatever was typed.
use quant_feed_handler.Base.{
  ◌^◌, ◌≤◌, ◌<◌, List, [], ◌∷◌, Option, none, some, Bool, true, false, not, inl, inr, if◌then◌else◌,
  Bool-cases, arith,
}
use quant_feed_handler.Base.Texts.{codes}
use quant_feed_handler.Validator.Line.{Text, is_empty, eq_text}
use quant_feed_handler.Bench.Arguments.{
  Numbers, Options, default_options, is_option, is_value, take_file, take_example, take_live,
  take_bench, take_argument, next_of, take_arguments, Mode, help, user_file, interactive, live_udp,
  benchmarks, mode_of, main_mode,
}

-- The port has 16 bits, and the count fits the array of the feed.
abbrev pub InBounds : Mode → Type 0
InBounds help = Unit
InBounds (user_file path) = Unit
InBounds interactive = Unit
InBounds (live_udp port) = port < 2 ^ 16
InBounds (benchmarks count) = count ≤ 2000000

record Bounded (o : Options) : Type 0 where
  port : o.live_port < 2 ^ 16
  count : o.bench_count ≤ 2000000

abbrev BoundedArgument : Option (Bool × Options) → Type 0
BoundedArgument none = Unit
BoundedArgument (some (taken, o)) = Bounded o

abbrev BoundedOptions : Option Options → Type 0
BoundedOptions none = Unit
BoundedOptions (some o) = Bounded o

if-Bounded :
    (b : Bool) (x y : Bool × Options) → Bounded x.1 → Bounded y.1 → Bounded (if b then x else y).1
if-Bounded true x y p q = p
if-Bounded false x y p q = q

take_file-Bounded : (next : Option Text) (o : Options) → Bounded o → Bounded (take_file next o).1
take_file-Bounded none o v = v
take_file-Bounded (some next) o v = record { port = v.port; count = v.count }

take_example-Bounded :
    (next : Option Text) (o : Options) → Bounded o → Bounded (take_example next o).1
take_example-Bounded none o v = record { port = v.port; count = v.count }
take_example-Bounded (some next) o v =
    if-Bounded (is_value next) _ _ (record { port = v.port; count = v.count })
      (record { port = v.port; count = v.count })

module _ (lib : Numbers) where
  take_live-Bounded :
      (next : Option Text) (o : Options) → Bounded o → Bounded (take_live lib next o).1
  take_live-Bounded none o v = record { port = v.port; count = v.count }
  take_live-Bounded (some next) o v =
      if-Bounded (is_value next) _ _ (record { port = omega arith; count = v.count })
        (record { port = v.port; count = v.count })

  take_bench-Bounded :
      (next : Option Text) (o : Options) → Bounded o → Bounded (take_bench lib next o).1
  take_bench-Bounded none o v = record { port = v.port; count = v.count }
  take_bench-Bounded (some next) o v =
      if-Bounded (is_value next) _ _ (record { port = v.port; count = ground arith })
        (record { port = v.port; count = v.count })

  take_argument-Bounded :
      (a : Text) (next : Option Text) (o : Options)
      → Bounded o
      → BoundedArgument (take_argument lib a next o)
  unfolding take_argument
  take_argument-Bounded a next o v =
      let asked : Bounded (record o { interactive_mode = true }) = record {
        port = v.port;
        count = v.count;
      } in
      elim (Bool-cases (is_option a (codes "--help") (codes "-h"))) [
        | inl c0 ↦ rw c0 tt
        | inr d0 ↦ rw d0 (elim (Bool-cases (is_option a (codes "--file") (codes "-f"))) [
          | inl c1 ↦ rw c1 (take_file-Bounded next o v)
          | inr d1 ↦ rw d1 (elim (Bool-cases (is_option a (codes "--interactive") (codes "-i"))) [
            | inl c2 ↦ rw c2 asked
            | inr d2 ↦ rw d2 (elim (Bool-cases (eq_text a (codes "--example"))) [
              | inl c3 ↦ rw c3 (take_example-Bounded next o v)
              | inr d3 ↦ rw d3 (elim (Bool-cases (eq_text a (codes "--live"))) [
                | inl c4 ↦ rw c4 (take_live-Bounded next o v)
                | inr d4 ↦ rw d4 (elim (Bool-cases (eq_text a (codes "--bench"))) [
                  | inl c5 ↦ rw c5 (take_bench-Bounded next o v)
                  | inr d5 ↦ rw d5 v
                ])
              ])
            ])
          ])
        ])
      ]

  BoundedArgument-elim :
      (rest : List Text) (r : Option (Bool × Options))
      → ((taken : Bool) (o : Options)
          → Bounded o
          → BoundedOptions (take_arguments lib rest taken o))
      → BoundedArgument r
      → BoundedOptions
          (elim r [ none ↦ none | some (taken, o') ↦ take_arguments lib rest taken o' ])
  BoundedArgument-elim rest none go h = tt
  BoundedArgument-elim rest (some (taken, o)) go h = go taken o h

  take_arguments-Bounded :
      (args : List Text) (taken : Bool) (o : Options)
      → Bounded o
      → BoundedOptions (take_arguments lib args taken o)
  unfolding take_arguments
  take_arguments-Bounded [] taken o v = v
  take_arguments-Bounded (a ∷ rest) true o v = take_arguments-Bounded rest false o v
  take_arguments-Bounded (a ∷ rest) false o v =
      BoundedArgument-elim rest (take_argument lib a (next_of rest) o) (take_arguments-Bounded rest)
        (take_argument-Bounded a (next_of rest) o v)

mode_of-InBounds : (r : Option Options) → BoundedOptions r → InBounds (mode_of r)
unfolding mode_of
mode_of-InBounds none h = tt
mode_of-InBounds (some o) h = elim (Bool-cases (not (is_empty o.user_file_path))) [
  | inl file ↦ rw file tt
  | inr no_file ↦ rw no_file (elim (Bool-cases o.interactive_mode) [
    | inl asked ↦ rw asked tt
    | inr not_asked ↦ rw not_asked (elim (Bool-cases o.live_mode) [
      | inl live ↦ rw live h.port
      | inr no_live ↦ rw no_live (elim (Bool-cases o.bench_mode) [
        | inl bench ↦ rw bench h.count
        | inr no_bench ↦ rw no_bench tt
      ])
    ])
  ])
]

-- Whatever the arguments are, and whatever `atoi` and `strtoull` make of them: a benchmark has at
-- most 2,000,000 messages, which is what the array of the feed holds, and a port has 16 bits.
pub main_mode-InBounds : (lib : Numbers) (args : List Text) → InBounds (main_mode lib args)
unfolding main_mode
main_mode-InBounds lib args = mode_of-InBounds (take_arguments lib args false default_options) (
    take_arguments-Bounded lib args false default_options
      (record { port = omega arith; count = omega arith }))

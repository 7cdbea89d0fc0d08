-- ===== src/Bench/Arguments.antt =====
-- The command line of `main` in src/main.cpp: which of the program's modes it asks for. A string is
-- its bytes, without the zero at its end; `atoi` and `strtoull` are parameters.
pub mod Bounds
use quant_feed_handler.Base.{
  ℕ, ◌+◌, ◌%◌, ◌^◌, ◌≤◌, ◌<◌, List, [], ◌∷◌, Option, none, some, Bool, true, false, ◌&&◌, ◌||◌, not,
  ◌≡◌, refl, inl, inr, get_or, ltb, ◌==◌, if◌then◌else◌, Bool-cases, Option-cases, arith,
}
use quant_feed_handler.Base.Int.{ℤ, pattern32}
use quant_feed_handler.Base.Texts.{codes}
use quant_feed_handler.Validator.Line.{Text, is_empty, eq_text}

pub record Numbers : Type 0 where
  pub atoi : Text → ℤ
  pub strtoull : Text → ℕ

pub record Options : Type 0 where
  pub user_file_path : Text
  pub interactive_mode : Bool
  pub live_mode : Bool
  pub live_port : ℕ
  pub bench_mode : Bool
  pub bench_count : ℕ

abbrev pub max_bench_messages : ℕ
max_bench_messages = 2000000

abbrev pub default_options : Options
default_options = record {
  user_file_path = [];
  interactive_mode = false;
  live_mode = false;
  live_port = 12345;
  bench_mode = false;
  bench_count = 1000000;
}

abbrev pub is_option : Text → Text → Text → Bool
is_option argument long short = eq_text argument long || eq_text argument short

-- `argv[i + 1][0] != '-'`, where there is a next argument. An empty string has a zero there.
abbrev pub is_value : Text → Bool
is_value next = not (get_or next 0 0 == b'-')

abbrev pub example_path : Text → Text
example_path ex =
    if eq_text ex (codes "aapl")
    then codes "examples/aapl_l2_book.csv"
    else if eq_text ex (codes "nvda")
    then codes "examples/nvda_order_flow.csv"
    else if eq_text ex (codes "sweep")
    then codes "examples/market_cross_sweep.csv"
    else ex

-- What one argument does, with the next one if there is one: whether the next one is taken with it,
-- and the options after it.
abbrev pub take_file : Option Text → Options → Bool × Options
take_file none o = (false, o)
take_file (some next) o = (true, record o { user_file_path = next })

abbrev pub take_example : Option Text → Options → Bool × Options
take_example none o = (false, record o { user_file_path = example_path (codes "aapl") })
take_example (some next) o =
    if is_value next
    then (true, record o { user_file_path = example_path next })
    else (false, record o { user_file_path = example_path (codes "aapl") })

abbrev pub next_of : List Text → Option Text
next_of [] = none
next_of (a ∷ rest) = some a

module _ (lib : Numbers) where
  abbrev pub take_live : Option Text → Options → Bool × Options
  take_live none o = (false, record o { live_mode = true })
  take_live (some next) o =
      if is_value next
      then (true, record o { live_mode = true; live_port = pattern32 (lib.atoi next) % 2 ^ 16 })
      else (false, record o { live_mode = true })

  abbrev pub take_bench : Option Text → Options → Bool × Options
  take_bench none o = (false, record o { bench_mode = true })
  take_bench (some next) o =
      if is_value next
      then (
        true,
        record o {
          bench_mode = true;
          bench_count =
              if ltb max_bench_messages (lib.strtoull next)
              then max_bench_messages
              else lib.strtoull next;
        },
      )
      else (false, record o { bench_mode = true })

  -- None for a request of help, which ends the program.
  unfoldable pub take_argument : Text → Option Text → Options → Option (Bool × Options)
  take_argument argument next o =
      if is_option argument (codes "--help") (codes "-h")
      then none
      else if is_option argument (codes "--file") (codes "-f")
      then some (take_file next o)
      else if is_option argument (codes "--interactive") (codes "-i")
      then some (false, record o { interactive_mode = true })
      else if eq_text argument (codes "--example")
      then some (take_example next o)
      else if eq_text argument (codes "--live")
      then some (take_live next o)
      else if eq_text argument (codes "--bench")
      then some (take_bench next o)
      else some (false, o)

  -- The loop over the arguments; the flag says that an argument was taken with the one before it.
  unfoldable pub take_arguments : List Text → Bool → Options → Option Options
  take_arguments [] taken o = some o
  take_arguments (a ∷ rest) true o = take_arguments rest false o
  take_arguments (a ∷ rest) false o = elim (take_argument a (next_of rest) o) [
    | none ↦ none
    | some (taken, o') ↦ take_arguments rest taken o'
  ]

-- What the program goes on to do.
pub data Mode : Type 0 where
  help : Mode
  user_file : Text → Mode
  interactive : Mode
  live_udp : ℕ → Mode
  benchmarks : ℕ → Mode

unfoldable pub mode_of : Option Options → Mode
mode_of none = help
mode_of (some o) =
    if not (is_empty o.user_file_path)
    then user_file o.user_file_path
    else if o.interactive_mode
    then interactive
    else if o.live_mode
    then live_udp o.live_port
    else if o.bench_mode
    then benchmarks o.bench_count
    else interactive

unfoldable pub main_mode : Numbers → List Text → Mode
main_mode lib args = mode_of (take_arguments lib args false default_options)

-- ===== src/Bench/Live.antt =====
-- `runLiveUDP` of src/main.cpp, less its output: the loop of the main thread, which receives packets
-- and pushes them, and the book that the worker makes of them.
use quant_feed_handler.Base.{
  ℕ, zero, suc, ◌+◌, ◌^◌, ◌≤◌, ◌<◌, List, [], ◌∷◌, ◌++◌, Option, none, some, Bool, true, false, ◌≡◌,
  refl, sym, ◌∙◌, inl, inr, length, length-map, take, drop, replicate, ap, All, ltb, ◌||◌,
  Bool-cases, if◌then◌else◌, arith,
}
use mathlib.Core.List.{append-nil}
use quant_feed_handler.Arbitrator.Order.{length-count_up}
use quant_feed_handler.Base.Arrays.{take_all}
use quant_feed_handler.Base.Int.{ℤ, pos, ltb_ℤ}
use quant_feed_handler.Bench.Pipeline.Benchmark.{bench_book}
use quant_feed_handler.Book.{LimitOrderBook, reset, process_all}
use quant_feed_handler.Book.Gapless.{process_all-gapless}
use quant_feed_handler.Exchange.{Publisher, publisher_start, publish, publish_all}
use quant_feed_handler.Exchange.Publish.{publish_all-AllValid}
use quant_feed_handler.Feed.{is_empty}
use quant_feed_handler.Feed.Mock.{MockDraws, IsMock}
use quant_feed_handler.Feed.Stream.{AllValid, stream-All}
use quant_feed_handler.Protocol.{WireMessage, seq_no, of_add, of_cancel, of_exec, size_of_wire}
use quant_feed_handler.Udp.{
  UdpReceiver, Sockets, unbound, bind, bind_socket, Arrival, datagram_of, would_block, fails,
  receive_at, receive, filled_with,
}

-- `if (bytes > 0) push(packet)`
abbrev pub push_received : ℤ × WireMessage → List WireMessage → List WireMessage
push_received (bytes, packet) rest = if ltb_ℤ (pos 0) bytes then packet ∷ rest else rest

-- What the loop pushes, while these arrivals come in; the packet is one variable, which every call
-- of `receive` writes over.
unfoldable pub live_pushes : UdpReceiver → List Arrival → WireMessage → List WireMessage
live_pushes r [] packet = []
live_pushes r (a ∷ arrivals) packet =
    push_received (receive r a packet) (live_pushes r arrivals (receive r a packet).1)

-- The book after the worker has popped everything.
unfoldable pub live_book : UdpReceiver → List Arrival → WireMessage → LimitOrderBook
live_book r arrivals packet = process_all bench_book (live_pushes r arrivals packet)

-- `none` when the socket cannot be bound.
unfoldable pub run_bound : List Arrival → Bool × UdpReceiver → Option LimitOrderBook
run_bound arrivals (false, r) = none
run_bound arrivals (true, r) = some (live_book r arrivals (replicate size_of_wire 0))

unfoldable pub run_live_udp : Sockets → List Arrival → Option LimitOrderBook
run_live_udp os arrivals = run_bound arrivals (bind os unbound)

-- The datagrams among the arrivals.
abbrev pub carried : List Arrival → List (List ℕ)
carried [] = []
carried (datagram_of d ∷ arrivals) = d ∷ carried arrivals
carried (would_block ∷ arrivals) = carried arrivals
carried (fails ∷ arrivals) = carried arrivals

abbrev IsWhole : List ℕ → Type 0
IsWhole m = length m ≡ 34

filled_whole : (d packet : List ℕ) → IsWhole d → IsWhole packet → filled_with d packet ≡ d
filled_whole d packet whole fits =
    let all : take 34 d ≡ d = take_all 34 d (omega (arith, whole)) in
    rw all (
      ap (λ l. d ++ l) (drop_nothing packet (length d) (omega (arith, whole, fits))) ∙ append-nil d)
  where
    drop_nothing : (xs : List ℕ) (n : ℕ) → length xs ≤ n → drop n xs ≡ []
    drop_nothing xs zero h = no_length xs h
      where
        no_length : (xs : List ℕ) → length xs ≤ 0 → xs ≡ []
        no_length [] h = refl
        no_length (x ∷ xs) h = absurd (omega arith)
    drop_nothing [] (suc n) h = refl
    drop_nothing (x ∷ xs) (suc n) h = drop_nothing xs n (omega arith)

received :
    (fd : ℕ) (d packet : List ℕ)
    → IsWhole d
    → IsWhole packet
    → receive (record { sock = some fd }) (datagram_of d) packet ≡ (pos 34, d)
unfolding receive receive_at
received fd d packet whole fits =
    let size : length (take 34 d) ≡ 34 = ap length (take_all 34 d (omega (arith, whole))) ∙ whole in
    ap (λ n. (pos n, filled_with d packet)) size
    ∙ ap (λ m. (pos 34, m)) (filled_whole d packet whole fits)

live_pushes-carried :
    (fd : ℕ) (arrivals : List Arrival) (packet : WireMessage)
    → IsWhole packet
    → All IsWhole (carried arrivals)
    → live_pushes (record { sock = some fd }) arrivals packet ≡ carried arrivals
unfolding live_pushes receive receive_at
live_pushes-carried fd [] packet fits whole = refl
live_pushes-carried fd (datagram_of d ∷ arrivals) packet fits whole =
    ap (λ r. push_received r (live_pushes (record { sock = some fd }) arrivals r.1))
      (received fd d packet whole.0 fits)
    ∙ ap (λ ms. d ∷ ms) (live_pushes-carried fd arrivals d whole.0 whole.1)
live_pushes-carried fd (would_block ∷ arrivals) packet fits whole =
    live_pushes-carried fd arrivals packet fits whole
live_pushes-carried fd (fails ∷ arrivals) packet fits whole =
    live_pushes-carried fd arrivals packet fits whole

publish-IsWhole : (d : MockDraws) (s : Publisher) → IsWhole (publish d s).0
unfolding publish of_add of_cancel of_exec
publish-IsWhole d s = elim (Bool-cases (ltb d.action 60 || is_empty s.active_orders)) [
  | inl adding ↦ rw adding refl
  | inr no_add ↦ rw no_add (elim (Bool-cases (ltb d.action 85)) [
    | inl cancelling ↦ rw cancelling refl
    | inr filling ↦ rw filling refl
  ])
]

publish_all-IsWhole : (ds : List MockDraws) → All IsWhole (publish_all ds)
unfolding publish_all
publish_all-IsWhole ds = stream-All publish IsWhole publish-IsWhole ds publisher_start

bound_socket :
    (os : Sockets) (fd : ℕ)
    → os.socket ≡ some fd
    → os.binds fd ≡ true
    → bind os unbound ≡ (true, record { sock = some fd })
unfolding bind bind_socket
bound_socket os fd opened binds = ap (bind_socket os) opened ∙ rw binds refl

gapless :
    (ds : List MockDraws)
    → All IsMock ds
    → 2 + length ds < 2 ^ 64
    → (process_all bench_book (publish_all ds)).sequence_gaps_detected ≡ 0
unfolding bench_book reset
gapless ds all small =
    let numbers = (publish_all-AllValid ds all small).1 in
    let size : length (publish_all ds) ≡ length ds =
      sym (length-map (publish_all ds) seq_no)
      ∙ ap (λ l. length l) numbers
      ∙ length-count_up 1 (length ds) in
    (process_all-gapless (publish_all ds) (reset 5 (2 ^ 21)) (rw size numbers)
      (omega (arith, size))).0

-- Between the mock exchange and the receiver: when the socket is bound and the datagrams that arrive,
-- with any failed calls between them, are those that the exchange sends, the book is that of
-- exactly the messages sent, which are all valid, and it counts no gap. The draws are within the
-- ranges of their distributions, and there are fewer than 2 ^ 64 - 2 rounds.
pub run_live_udp-publish_all :
    (os : Sockets) (fd : ℕ) (arrivals : List Arrival) (ds : List MockDraws)
    → os.socket ≡ some fd
    → os.binds fd ≡ true
    → All IsMock ds
    → 2 + length ds < 2 ^ 64
    → carried arrivals ≡ publish_all ds
    → (run_live_udp os arrivals ≡ some (process_all bench_book (publish_all ds)))
      × AllValid (publish_all ds)
      × ((process_all bench_book (publish_all ds)).sequence_gaps_detected ≡ 0)
unfolding run_live_udp run_bound live_book
run_live_udp-publish_all os fd arrivals ds opened binds all small same =
    let whole : All IsWhole (carried arrivals) = rw same (publish_all-IsWhole ds) in
    (
      ap (run_bound arrivals) (bound_socket os fd opened binds)
          ∙ ap (λ ms. some (process_all bench_book ms))
              (live_pushes-carried fd arrivals (replicate 34 0) refl whole ∙ same),
      (publish_all-AllValid ds all small).0,
      gapless ds all small,
    )

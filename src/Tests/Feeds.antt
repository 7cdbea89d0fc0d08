-- ===== src/Tests/Feeds.antt =====
-- The arbitrator, the ring buffer and the journal at concrete inputs.
use quant_feed_handler.Arbitrator
use quant_feed_handler.Arbitrator.{
  feed_a, feed_b, ingest, try_drain_buffered, Event, ingests, drains, handle, delivered, final,
}
use quant_feed_handler.Arbitrator.Order.{count_up, delivered_in_order}
use quant_feed_handler.Arbitrator.Reorder.{nothing_waits, reset-Buffers, delivered-answered}
use quant_feed_handler.Arbitrator.Slots.{accept, release, answer, answered, InWindow}
use quant_feed_handler.Base.{
  ℕ, ◌+◌, ◌^◌, List, [], ◌∷◌, none, some, true, false, ◌≡◌, refl, length, map, replicate, arith,
}
use quant_feed_handler.Base.Int.{pattern32}
use quant_feed_handler.Book
use quant_feed_handler.Protocol.{seq_no, of_add, of_cancel, of_exec}
use quant_feed_handler.Ring.{
  SpscRingBuffer, create, enqueue, try_push, dequeue, try_pop, empty, size,
}
use quant_feed_handler.Ring.Fifo.{push_bounded}
use quant_feed_handler.Ring.Calls.{
  Call, pushes, pops, pushed, popped, call, calls, queue_calls, calls-queue, size-Represents,
  create-Represents,
}
use quant_feed_handler.Tests.Data.{a_bid, an_ask, a_lower_bid, adds, session}
use quant_feed_handler.Wal.{
  WalJournal, Posix, unopened, close, append_offset, mapped_at, open_journal, append, record_count,
  replay, recover,
}
use quant_feed_handler.Wal.Log.{Logged}
use quant_feed_handler.Wal.Recovery.{append_all, recover-append_all, open_journal-full}

program : Unit {0}
unfolding Arbitrator.reset ingest try_drain_buffered handle delivered final accept release answer
    answered InWindow create enqueue try_push dequeue try_pop call calls queue_calls push_bounded
    create-Represents adds session seq_no of_add of_cancel of_exec pattern32 unopened close
    append_offset mapped_at open_journal append record_count replay recover
program = tt

-- The second message comes first, and the third twice.
abbrev arrivals : List Event
arrivals =
    ingests feed_a (of_add an_ask)
    ∷ ingests feed_a (of_add a_lower_bid)
    ∷ drains
    ∷ ingests feed_b (of_add a_bid)
    ∷ drains
    ∷ ingests feed_b (of_add a_lower_bid)
    ∷ drains
    ∷ []

arrivals_test :
    delivered (Arbitrator.reset 4) arrivals ≡ of_add a_bid ∷ of_add an_ask ∷ of_add a_lower_bid ∷ []
unfolding program
arrivals_test = refl

delivered_in_order_example :
    let a = Arbitrator.reset 4 in
    (map seq_no (delivered a arrivals) ≡ count_up a.expected_seq_no (length (delivered a arrivals)))
    × ((final a arrivals).expected_seq_no ≡ a.expected_seq_no + length (delivered a arrivals))
delivered_in_order_example =
    delivered_in_order (Arbitrator.reset 4) arrivals (unfold program in omega arith)

delivered-answered_example :
    delivered (Arbitrator.reset 4) arrivals ≡ answered nothing_waits arrivals
delivered-answered_example =
    delivered-answered arrivals 4 (Arbitrator.reset 4) nothing_waits (reset-Buffers 4 (omega arith))
      (unfold program in ground arith) (omega arith)

abbrev ring : SpscRingBuffer ℕ
ring = create (2 ^ 1) 0

abbrev traffic : List (Call ℕ)
traffic = pops ∷ pushes 1 ∷ pushes 2 ∷ pushes 3 ∷ pops ∷ pushes 4 ∷ pops ∷ pops ∷ pops ∷ []

traffic_test :
    calls 0 ring traffic
    ≡ popped none
      ∷ pushed true
      ∷ pushed true
      ∷ pushed false
      ∷ popped (some 1)
      ∷ pushed true
      ∷ popped (some 2)
      ∷ popped (some 4)
      ∷ popped none
      ∷ []
unfolding program
traffic_test = refl

calls-queue_example : calls 0 ring traffic ≡ queue_calls 0 (length ring.buffer) [] traffic
calls-queue_example = calls-queue 0 traffic ring [] (create-Represents 0 1 (omega arith))

size-Represents_example : (empty ring ≡ true) × (size ring ≡ 0)
size-Represents_example =
    size-Represents 0 ring [] (create-Represents 0 1 (omega arith)) (unfold program in omega arith)

abbrev new_file : Posix
new_file = record {
  open_file = λ p. some 3;
  ftruncate = λ d n. true;
  mmap = λ d n. some (replicate n 0);
}

-- The file after the appends.
abbrev old_file : Posix
old_file = record {
  open_file = λ p. some 4;
  ftruncate = λ d n. true;
  mmap = λ d n. (append_all (open_journal new_file [] 204 unopened).1 session).mapped;
}

recover-append_all_example :
    let written = append_all (open_journal new_file [] 204 unopened).1 session in
    recover (open_journal old_file [] 204 (close written)).1 (Book.reset 3 (2 ^ 3))
    ≡ (length session, Book.process_all (Book.reset 3 (2 ^ 3)) session)
recover-append_all_example =
    recover-append_all new_file old_file [] 204 3 4 unopened session (Book.reset 3 (2 ^ 3)) refl
      refl refl refl refl refl (unfold program in (refl, (refl, (refl, (refl, (refl, tt))))))
      (unfold program in (refl, (refl, (refl, (refl, (refl, tt)))))) (unfold session in omega arith)
      (omega arith)

-- A file of one record, and the journal that has filled it.
abbrev full_journal : WalJournal
full_journal = record {
  filepath = [];
  max_size_bytes = 34;
  write_offset_bytes = 34;
  mapped = some (of_add a_bid);
  fd = some 3;
}

full_journal-Logged : Logged (of_add a_bid ∷ []) full_journal
full_journal-Logged =
    unfold program in
    record {
      bytes = of_add a_bid;
      mapped = refl;
      rest = 0;
      content = refl;
      size = refl;
      small = omega arith;
      offset = refl;
      records = (refl, ground arith, tt);
    }

abbrev full_file : Posix
full_file = record {
  open_file = λ p. some 4;
  ftruncate = λ d n. true;
  mmap = λ d n. some (of_add a_bid);
}

open_journal-full_example :
    let again = (open_journal full_file [] 34 unopened).1 in
    (again.write_offset_bytes ≡ 0)
    × (recover again (Book.reset 3 (2 ^ 3)) ≡ (0, Book.reset 3 (2 ^ 3)))
open_journal-full_example =
    open_journal-full full_file [] 34 4 unopened full_journal (of_add a_bid ∷ [])
      (Book.reset 3 (2 ^ 3)) full_journal-Logged refl refl refl refl

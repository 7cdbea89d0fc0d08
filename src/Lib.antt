-- ===== src/Lib.antt =====
-- A market data feed handler: binary order messages arrive on two feeds, are checked, put in
-- sequence, journalled, handed from one thread to another and applied to a limit order book.
--
-- Its parts and their modules:
--   Protocol   include/feed_handler/protocol.hpp. A `WireMessage` is its 34 bytes; `add`, `cancel`
--              and `exec` are the members of the union, read little-endian.
--   Validator  include/feed_handler/parser_validator.hpp: `validateAndParse` for received buffers
--              (`validate_and_parse`), and in Validator/Line `parseUserLine` for lines of text. Of
--              the C and C++ libraries `strtod` with `llround`, `strtol`, `strtoull`, `toupper` and
--              the clock are fields of a record `Library`.
--   Arbitrator include/feed_handler/feed_arbitrator.hpp: `ingest` and `tryDrainBuffered`. The result
--              is an option that holds `outMsg` when the code returns true. Arbitrator/Slots
--              has the reorder buffer that it implements.
--   Wal        include/feed_handler/wal_journal.hpp in its POSIX form: `open` (`open_journal`),
--              `append`, `recover`, `close`. The mapping is its bytes; what `::open`, `ftruncate`
--              and `mmap` answer is a record `Posix`.
--   Ring       include/feed_handler/ring_buffer.hpp: `tryPush`, `tryPop`, `empty` and `size`, with
--              the cached counters. Ring/Fifo has the queue that it implements. Ring/Steps has the
--              same calls access by access, with the two threads interleaved.
--   Table      include/feed_handler/order_table.hpp: the open-addressing hash table of orders,
--              `insert`, `lookup` and `erase`. An order is found by `find` in the abstract view.
--   Ladder     the price levels of include/feed_handler/order_book.hpp: `applyDelta` and
--              `removeLevel` on an array of `Depth` levels. Ladder/Spec has the abstract ladder.
--   Book       `LimitOrderBook` of the same file: `processMessage` and its handlers on a table and
--              two arrays. Book/Spec has the abstract book, a map of orders and two ladders.
--   Feed       what the generators of messages share: the list of live orders, the loop of rounds
--              (`stream`), and in Feed/Stream the law of a round (`Generator`) that makes every
--              message of a stream valid.
--   Bench      src/main.cpp: `main` (Bench/Arguments), `runUserFile`, `runInteractiveCLI`
--              (Bench/Console), `generateMockFeed`, `runDirectBenchmark`, `runSPSCBenchmark` and
--              `runLiveUDP` (Bench/Live), whose worker is taken to have popped all it can. The two threads of the last are Bench/Pipeline, over an interface `Channel` that the
--              ring buffer and a bounded queue fill (Bench/Channel).
--   Udp        include/feed_handler/udp_receiver.hpp: `bind`, `receive`, `closeSocket`. What the
--              system calls answer is a parameter (`Sockets`, and an `Arrival` for each `recv`).
--   Exchange   src/mock_exchange.cpp: the messages that it sends.
--   Replay     src/pcap_replayer.cpp: the capture reader (`read_capture`), the messages that are
--              made up without one, and the datagrams.
--   Latency    include/feed_handler/latency_tracker.hpp: samples and percentiles. Floating-point
--              arithmetic is a record `Doubles`, and `std::sort` a function with its contract
--              (`Sorts`).
--   Server     src/stream_server.cpp: the message generator of `producerThreadFunc` (`generate`),
--              the commands of `commandThreadFunc` and the file loader (Server/Commands), the tape of
--              recent packets and the latency window of `consumerThreadFunc` (Server/Tape and
--              Server/Window), and the latency buckets that `snapshotThreadFunc` fills
--              (Server/Histogram), whose fields are in include/feed_handler/metrics_exporter.hpp.
--   Base       shared names and lemmas: integers of 32 bits, masks, arrays, circular slots.
--   Tests      runs on concrete inputs.
--
-- The client calls the arbitrator and the validator before the book; the journal replays its
-- records into the book; the ring buffer carries messages of any type. Template parameters (the
-- depth, the capacities) are numbers that the theorems quantify over, with the bounds that the
-- code asserts. A number of type `uint64_t` or `size_t` wraps at 2 ^ 64. An `int32_t` wraps at
-- 2 ^ 32, which is what the targets do where the standard leaves an overflow undefined.
--
-- What random distributions give is a parameter, a list of draws with one entry for each round.
-- Threads are interleaved steps, and a schedule says whose step comes next. In Ring/Steps a step is
-- one access to what they share; in Bench/Pipeline it is a whole call of the ring buffer, or a load
-- or a store of the flag.
--
-- Loops are structural recursions: a probe of the table by the rounds left, which are as many as
-- the table has slots; the bubbling by the position; the scan of the journal by the records left; a
-- scan of a frame by the bytes left. So every function is total. Only the reader of captures takes
-- fuel, one more than the file has bytes, of which every packet takes at least 16; it answers `none`
-- when the fuel runs out.
--
-- Not modelled: floating-point getters (`midPrice`, `microPrice`, `loadFactor`) and statistics,
-- printing, socket options, the rest of the metrics exporter, thread pinning, the clock, memory orderings
-- (every access sees the latest store), and the snapshot text of src/stream_server.cpp.
pub mod Base
pub mod Ladder
pub mod Protocol
pub mod Table
pub mod Book
pub mod Arbitrator
pub mod Wal
pub mod Validator
pub mod Ring
pub mod Feed
pub mod Udp
pub mod Bench
pub mod Exchange
pub mod Replay
pub mod Latency
pub mod Server
pub mod Tests

-- ===== src/Wal.antt =====
-- `WALJournal` of include/feed_handler/wal_journal.hpp, in its POSIX form. The mapping is its
-- bytes, and the system calls are a parameter: what `::open`, `ftruncate` and `mmap` answer.
pub mod Log
pub mod Scan
pub mod Recovery
use quant_feed_handler.Base.{
  ℕ, zero, suc, ◌+◌, ◌*◌, ◌/◌, ◌%◌, ◌^◌, List, [], ◌∷◌, ◌++◌, Option, none, some, Bool, true, false,
  ◌||◌, length, take, drop, ltb, ◌==◌, if◌then◌else◌,
}
use quant_feed_handler.Book.{LimitOrderBook, process_message}
use quant_feed_handler.Protocol.{WireMessage, size_of_wire, field_at, msg_type}
use quant_feed_handler.Table.{add64}

-- What the system answers: a descriptor, whether the resizing succeeded, and the mapped bytes.
pub record Posix : Type 0 where
  pub open_file : List ℕ → Option ℕ
  pub ftruncate : ℕ → ℕ → Bool
  pub mmap : ℕ → ℕ → Option (List ℕ)

pub record WalJournal : Type 0 where
  pub filepath : List ℕ
  pub max_size_bytes : ℕ
  pub write_offset_bytes : ℕ
  pub mapped : Option (List ℕ)
  pub fd : Option ℕ

unfoldable pub unopened : WalJournal
unopened = record {
  filepath = [];
  max_size_bytes = 0;
  write_offset_bytes = 0;
  mapped = none;
  fd = none;
}

-- `records[i]`.
abbrev pub record_at : List ℕ → ℕ → WireMessage
record_at bytes i = take size_of_wire (drop (i * size_of_wire) bytes)

-- `close`: the mapping goes, the offset stays.
unfoldable pub close : WalJournal → WalJournal
close j = elim j.mapped [ none ↦ j | some bytes ↦ record j { fd = none; mapped = none } ]

-- The scan of `open`: the offset of the first record of type 0 among those left, 0 if there is
-- none.
unfoldable pub append_offset : List ℕ → ℕ → ℕ → ℕ
append_offset bytes i zero = 0
append_offset bytes i (suc left) =
    if msg_type (record_at bytes i) == 0 then i * size_of_wire else append_offset bytes (i + 1) left

unfoldable pub mapped_at : WalJournal → ℕ → List ℕ → WalJournal
mapped_at j descriptor bytes = record j {
  fd = some descriptor;
  mapped = some bytes;
  write_offset_bytes = append_offset bytes 0 (j.max_size_bytes / size_of_wire);
}

unfoldable pub open_journal : Posix → List ℕ → ℕ → WalJournal → Bool × WalJournal
open_journal os filepath max_size_bytes before =
    let j : WalJournal = record (close before) {
      filepath = filepath;
      max_size_bytes = max_size_bytes;
    } in
    elim (os.open_file filepath) [
      | none ↦ (false, record j { fd = none })
      | some descriptor ↦
          if os.ftruncate descriptor max_size_bytes
          then elim (os.mmap descriptor max_size_bytes) [
            | none ↦ (false, record j { fd = none; mapped = none })
            | some bytes ↦ (true, mapped_at j descriptor bytes)
          ]
          else (false, record j { fd = none })
    ]

-- `memcpy` into the mapping.
abbrev pub copy_to : List ℕ → ℕ → List ℕ → List ℕ
copy_to bytes offset src = take offset bytes ++ src ++ drop (offset + length src) bytes

unfoldable pub append : WalJournal → WireMessage → Bool × WalJournal
append j m = elim j.mapped [
  | none ↦ (false, j)
  | some bytes ↦
      if ltb j.max_size_bytes (add64 j.write_offset_bytes size_of_wire) then (false, j) else (
        true,
        record j {
          mapped = some (copy_to bytes j.write_offset_bytes m);
          write_offset_bytes = add64 j.write_offset_bytes size_of_wire;
        },
      )
]

unfoldable pub record_count : WalJournal → ℕ
record_count j = j.write_offset_bytes / size_of_wire

abbrev pub is_known : WireMessage → Bool
is_known m = (msg_type m == b'A' || msg_type m == b'X') || msg_type m == b'E'

-- The loop of `recover` over the records left from `i`, with the number replayed so far.
unfoldable pub replay : List ℕ → ℕ → ℕ → ℕ → LimitOrderBook → ℕ × LimitOrderBook
replay bytes i zero replayed book = (replayed, book)
replay bytes i (suc left) replayed book =
    let m = record_at bytes i in
    if is_known m
    then replay bytes (i + 1) left (replayed + 1) (process_message book m)
    else replay bytes (i + 1) left replayed book

unfoldable pub recover : WalJournal → LimitOrderBook → ℕ × LimitOrderBook
recover j book = elim j.mapped [
  | none ↦ (0, book)
  | some bytes ↦ replay bytes 0 (record_count j) 0 book
]

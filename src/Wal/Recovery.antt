-- ===== src/Wal/Recovery.antt =====
-- A journal that is opened again replays what was appended.
use quant_feed_handler.Base.{
  ℕ, suc, ◌+◌, ◌*◌, ◌/◌, ◌^◌, ◌≤◌, ◌<◌, List, [], ◌∷◌, ◌++◌, some, true, ◌≡◌, refl, ◌∙◌, inl, inr,
  Option-cases, length, length-append, replicate, Bool-cases, arith,
}
use mathlib.Core.List.{append-nil, append_assoc}
use quant_feed_handler.Book.{LimitOrderBook, process_all}
use quant_feed_handler.Protocol.{WireMessage, size_of_wire}
use quant_feed_handler.Wal.{
  replay, append_offset, Posix, WalJournal, close, mapped_at, open_journal, append, record_count,
  recover,
}
use quant_feed_handler.Wal.Log.{flatten, AreRecords, Logged, append-Logged}
use quant_feed_handler.Wal.Scan.{
  Holds-flatten, AllKnown, replay-Holds, AreSized, AreRecords-AllKnown, scan-flatten, scan-full,
}

-- A log that is not full is found again when the file is mapped with the same bytes.
pub open_journal-Logged :
    (os : Posix) (filepath : List ℕ) (size descriptor : ℕ) (before j : WalJournal)
    (ms : List WireMessage)
    → Logged ms j
    → j.max_size_bytes ≡ size
    → suc (length ms) * size_of_wire ≤ size
    → os.open_file filepath ≡ some descriptor
    → os.ftruncate descriptor size ≡ true
    → os.mmap descriptor size ≡ j.mapped
    → ((open_journal os filepath size before).0 ≡ true)
      × Logged ms (open_journal os filepath size before).1
unfolding open_journal mapped_at
open_journal-Logged os filepath size descriptor before j ms v same room opened resized mapped =
    let answer : os.mmap descriptor size ≡ some v.bytes = mapped ∙ v.mapped in
    rw (opened, open_journal, resized, answer)
      (
        refl,
        record {
          bytes = v.bytes;
          mapped = refl;
          rest = v.rest;
          content = v.content;
          size = v.size ∙ same;
          small = rw (← same) v.small;
          offset =
              rw v.content (scan-flatten ms v.rest (size / size_of_wire) v.records (omega arith));
          records = v.records;
        },
      )

abbrev pub append_all : WalJournal → List WireMessage → WalJournal
append_all j [] = j
append_all j (m ∷ ms) = append_all (append j m).1 ms

max_size-append :
    (j : WalJournal) (m : WireMessage) → (append j m).1.max_size_bytes ≡ j.max_size_bytes
unfolding append
max_size-append j m = ground arith

max_size-append_all :
    (j : WalJournal) (ms : List WireMessage) → (append_all j ms).max_size_bytes ≡ j.max_size_bytes
max_size-append_all j [] = refl
max_size-append_all j (m ∷ ms) = max_size-append_all (append j m).1 ms ∙ max_size-append j m

max_size-open_journal :
    (os : Posix) (filepath : List ℕ) (size : ℕ) (before : WalJournal)
    → (open_journal os filepath size before).1.max_size_bytes ≡ size
unfolding open_journal mapped_at
max_size-open_journal os filepath size before = elim (Option-cases (os.open_file filepath)) [
  | inl failed ↦ rw (failed, open_journal)
  | inr (fd, opened) ↦
      rw (opened, open_journal)
        (elim (Bool-cases (os.ftruncate fd size)) [
          | inr failed ↦ rw failed
          | inl resized ↦ rw resized (elim (Option-cases (os.mmap fd size)) [
            | inl failed ↦ rw failed
            | inr (bytes, mapped) ↦ rw mapped
          ])
        ])
]

append_all-Logged :
    (ms ks : List WireMessage) (j : WalJournal)
    → Logged ks j
    → AreRecords ms
    → (length ks + length ms) * size_of_wire ≤ j.max_size_bytes
    → Logged (ks ++ ms) (append_all j ms)
append_all-Logged [] ks j v are room = rw (append-nil ks) v
append_all-Logged (m ∷ ms) ks j v are room =
    let r = append-Logged ks j m v are.0 are.1 (omega arith) in
    let same = max_size-append j m in
    let e = append_assoc ks (m ∷ []) ms in
    rw (← e) (
      append_all-Logged ms (ks ++ m ∷ []) (append j m).1 r.1 are.2
        (omega (arith, same, length-append ks (m ∷ []))))

-- Replaying a journal feeds its messages to the book.
recover-Logged :
    (ms : List WireMessage) (j : WalJournal) (book : LimitOrderBook)
    → Logged ms j
    → AllKnown ms
    → recover j book ≡ (length ms, process_all book ms)
unfolding recover record_count
recover-Logged ms j book v known =
    let count : j.write_offset_bytes / size_of_wire ≡ length ms =
      (let offset = v.offset in omega (arith, offset)) in
    let e : 0 + length ms ≡ length ms = omega arith in
    rw (v.mapped, recover, count, v.content)
      (replay-Holds (flatten ms ++ replicate v.rest 0) 0 0 ms book (Holds-flatten ms _ v.records)
          known
        ∙ rw e)

-- A new file, opened.
fresh-Logged :
    (os : Posix) (filepath : List ℕ) (size descriptor : ℕ) (before : WalJournal)
    → size_of_wire ≤ size
    → size + size_of_wire < 2 ^ 64
    → os.open_file filepath ≡ some descriptor
    → os.ftruncate descriptor size ≡ true
    → os.mmap descriptor size ≡ some (replicate size 0)
    → Logged [] (open_journal os filepath size before).1
fresh-Logged os filepath size descriptor before some_room small opened resized mapped =
    let j : WalJournal = record {
      filepath = filepath;
      max_size_bytes = size;
      write_offset_bytes = 0;
      mapped = some (replicate size 0);
      fd = some descriptor;
    } in
    let v : Logged [] j = record {
      bytes = replicate size 0;
      mapped = refl;
      rest = size;
      content = refl;
      size = omega arith;
      small = small;
      offset = refl;
      records = tt;
    } in
    (open_journal-Logged os filepath size descriptor before j [] v refl (omega arith) opened resized
      mapped).1

-- A new file is opened and reads as zeros, messages are appended, and after the process the file
-- is opened again with the bytes that the mapping held. Then `recover` replays exactly the
-- appended messages, in their order, so the book is the one that processing them live gives. The
-- system calls succeed, every message has one of the three types and fills a record, the file has
-- room for one record more, and its size is below 2 ^ 64 by a record.
pub recover-append_all :
    (os later_os : Posix) (filepath : List ℕ) (size descriptor later : ℕ) (unused : WalJournal)
    (ms : List WireMessage) (book : LimitOrderBook)
    → os.open_file filepath ≡ some descriptor
    → os.ftruncate descriptor size ≡ true
    → os.mmap descriptor size ≡ some (replicate size 0)
    → later_os.open_file filepath ≡ some later
    → later_os.ftruncate later size ≡ true
    → (let written = append_all (open_journal os filepath size unused).1 ms in
        later_os.mmap later size ≡ written.mapped)
    → AreSized ms
    → AllKnown ms
    → suc (length ms) * size_of_wire ≤ size
    → size + size_of_wire < 2 ^ 64
    → (let written = append_all (open_journal os filepath size unused).1 ms in
        recover (open_journal later_os filepath size (close written)).1 book
        ≡ (length ms, process_all book ms))
recover-append_all os later_os filepath size descriptor later unused ms book o t m o' t' m' sized
      known room small =
    let j = (open_journal os filepath size unused).1 in
    let max : j.max_size_bytes ≡ size = max_size-open_journal os filepath size unused in
    let written =
      append_all-Logged ms [] j
        (fresh-Logged os filepath size descriptor unused (omega arith) small o t m)
        (AreRecords-AllKnown ms sized known) (omega (arith, max)) in
    let again =
      open_journal-Logged later_os filepath size later (close (append_all j ms)) (append_all j ms)
        ms written (max_size-append_all j ms ∙ max) room o' t' m' in
    recover-Logged ms (open_journal later_os filepath size (close (append_all j ms))).1 book again.1
      known

-- A log that fills its file is lost when the file is opened again with the same bytes: the next
-- record goes to the start of the file, and `recover` replays nothing. The system calls succeed,
-- and the file has room for the records of the log and no more.
pub open_journal-full :
    (os : Posix) (filepath : List ℕ) (size descriptor : ℕ) (before j : WalJournal)
    (ms : List WireMessage) (book : LimitOrderBook)
    → Logged ms j
    → size / size_of_wire ≡ length ms
    → os.open_file filepath ≡ some descriptor
    → os.ftruncate descriptor size ≡ true
    → os.mmap descriptor size ≡ j.mapped
    → ((open_journal os filepath size before).1.write_offset_bytes ≡ 0)
      × (recover (open_journal os filepath size before).1 book ≡ (0, book))
unfolding open_journal mapped_at recover record_count replay
open_journal-full os filepath size descriptor before j ms book v full opened resized mapped =
    let answer : os.mmap descriptor size ≡ some v.bytes = mapped ∙ v.mapped in
    let start : append_offset v.bytes 0 (size / size_of_wire) ≡ 0 =
      rw (full, v.content) (scan-full ms v.rest v.records) in
    rw (opened, open_journal, resized, answer) (start, rw start refl)

-- ===== src/Arbitrator.antt =====
-- `DualFeedArbitrator` of include/feed_handler/feed_arbitrator.hpp. Its template parameter
-- `MaxBufferedGaps` is the length of the gap buffer.
pub mod Order
pub mod Slots
pub mod Reorder
use quant_feed_handler.Base.{
  ℕ, ◌+◌, ◌-◌, ◌%◌, ◌^◌, List, [], ◌∷◌, ◌++◌, Option, none, some, Bool, true, false, ◌&&◌, length,
  get_or, set, replicate, ltb, ◌==◌, if◌then◌else◌,
}
use quant_feed_handler.Protocol.{WireMessage, size_of_wire, seq_no}
use quant_feed_handler.Table.{add64}

pub data FeedSource : Type 0 where
  feed_a : FeedSource
  feed_b : FeedSource

pub record GapBufferEntry : Type 0 where
  pub msg : WireMessage
  pub active : Bool

abbrev pub vacant : GapBufferEntry
vacant = record { msg = replicate size_of_wire 0; active = false }

pub record DualFeedArbitrator : Type 0 where
  pub expected_seq_no : ℕ
  pub duplicates_dropped : ℕ
  pub sequence_gaps_detected : ℕ
  pub retransmit_requests : ℕ
  pub gap_buffer : List GapBufferEntry

unfoldable pub reset : ℕ → DualFeedArbitrator
reset max_buffered_gaps = record {
  expected_seq_no = 1;
  duplicates_dropped = 0;
  sequence_gaps_detected = 0;
  retransmit_requests = 0;
  gap_buffer = replicate max_buffered_gaps vacant;
}

-- The result holds `outMsg` when the code returns true.
unfoldable pub ingest :
    DualFeedArbitrator → FeedSource → WireMessage → Option WireMessage × DualFeedArbitrator
ingest a source m =
    let expected = a.expected_seq_no in
    if ltb (seq_no m) expected
    then (none, record a { duplicates_dropped = add64 a.duplicates_dropped 1 })
    else if seq_no m == expected
    then (some m, record a { expected_seq_no = add64 expected 1 })
    else (
      none,
      record a {
        sequence_gaps_detected = add64 a.sequence_gaps_detected (seq_no m - expected);
        retransmit_requests = add64 a.retransmit_requests 1;
        gap_buffer =
            set a.gap_buffer (seq_no m % length a.gap_buffer) (record { msg = m; active = true });
      },
    )

abbrev pub slot_of : DualFeedArbitrator → ℕ → GapBufferEntry
slot_of a seq = get_or a.gap_buffer (seq % length a.gap_buffer) vacant

unfoldable pub try_drain_buffered : DualFeedArbitrator → Option WireMessage × DualFeedArbitrator
try_drain_buffered a =
    let expected = a.expected_seq_no in
    let entry = slot_of a expected in
    if entry.active && (seq_no entry.msg == expected)
    then (
      some entry.msg,
      record a {
        gap_buffer =
            set a.gap_buffer (expected % length a.gap_buffer) (record entry { active = false });
        expected_seq_no = add64 expected 1;
      },
    )
    else (none, a)

-- The calls that a client makes, in their order.
pub data Event : Type 0 where
  ingests : FeedSource → WireMessage → Event
  drains : Event

unfoldable pub handle : DualFeedArbitrator → Event → Option WireMessage × DualFeedArbitrator
handle a (ingests source m) = ingest a source m
handle a drains = try_drain_buffered a

-- The message of an answer, if it has one, in front of the later ones.
abbrev pub deliver : Option WireMessage → List WireMessage → List WireMessage
deliver none ms = ms
deliver (some m) ms = m ∷ ms

unfoldable pub delivered : DualFeedArbitrator → List Event → List WireMessage
delivered a [] = []
delivered a (e ∷ es) = deliver (handle a e).0 (delivered (handle a e).1 es)

unfoldable pub final : DualFeedArbitrator → List Event → DualFeedArbitrator
final a [] = a
final a (e ∷ es) = final (handle a e).1 es

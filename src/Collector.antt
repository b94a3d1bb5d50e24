-- ===== src/Collector.antt =====
-- collector.py, the main thread of `Collector`: its state, and what a poll meets outside. The parts
-- that a poll goes through are those of Archive, Tracker, Spool and Monitoring.
pub mod Work
pub mod Polls
pub mod Loop
pub mod Calls
pub mod Trace
pub mod Turns
pub mod Fallback
pub mod Losses
pub mod Noted
pub mod Saved
pub mod Reads
pub mod Advance
pub mod Outcome
use bkk_collector.Base.{ℕ, String, Bool, Option, List}
use bkk_collector.Base.Dict.{Dict}
use bkk_collector.RawLog.{Bytes}
use bkk_collector.Archive.{RawPath, Archive, Attempt}
use bkk_collector.Tracker.{Row, Tracker}
use bkk_collector.Spool.{Partition}
use bkk_collector.Monitoring.Feeds.{Flag, FeedHealth, Limits}

-- `FetchResult`; `received` is in milliseconds and `stamp` the bit pattern of the same float.
pub record FetchResult : Type 0 where
  pub feed_name : String
  pub poll_id : String
  pub received : ℕ
  pub stamp : ℕ
  pub http_status : Option ℕ
  pub payload : Option Bytes
  pub error : Option String

-- The fields of a request's schedule that go into the journal.
pub record ScheduleFields : Type 0 where
  pub scheduled_for : Option ℕ
  pub scheduler_lag : Option ℕ
  pub missed_deadlines_before_request : ℕ

-- Which error an event tells of: the first of the failed steps.
pub data Fault : Type 0 where
  request_fault : String → Fault
  parse_fault : Fault
  change_tracking_fault : Fault
  spool_fault : Fault
  presence_fault : Fault

-- An entry of the poll journal; `none` is a key that is not there, or `None`.
pub record PollEvent : Type 0 where
  pub feed : String
  pub poll_id : String
  pub schedule : ScheduleFields
  pub success : Bool
  pub error : Option Fault
  pub payload_size : Option ℕ
  pub payload_sha256 : Option String
  pub content_sha256 : Option String
  pub presence_required : Bool
  pub presence_ok : Option Bool
  pub change_tracking_ok : Option Bool
  pub change_tracking_failure_flag : Option Flag
  pub header_timestamp : Option ℕ
  pub min_entity_timestamp : Option ℕ
  pub max_entity_timestamp : Option ℕ
  pub entity_count : Option ℕ
  pub freshness_flags : List Flag
  pub raw_due : Bool
  pub raw_archived : Bool
  pub raw_ok : Option Bool
  pub raw_path : Option RawPath
  pub auxiliary_entities : Option ℕ
  pub auxiliary_sha256 : Option String
  pub auxiliary_changed : Option Bool
  pub parse_ok : Bool
  pub parsed_rows : ℕ
  pub selected_rows : ℕ
  pub emitted_rows : ℕ
  pub spool_ok : Option Bool
  pub spool_path : Option String

pub data CycleError : Type 0 where
  run_metadata_write_failed : CycleError
  poll_journal_failed : String → CycleError
  unexpected_fetch_worker_failure : String → CycleError

-- The fields of `Collector` that polls read and write; the spool has a partition, and the journal a
-- file, for each feed and date. `P` is the state of the presence journal.
pub record Collector (P : Type 0) : Type 0 where
  pub archive : Archive
  pub presence : P
  pub trackers : Dict String Tracker
  pub spool : Dict RawPath (Partition String String Row)
  pub feeds : Dict String FeedHealth
  pub archived_auxiliary : Option String
  pub journal : List (RawPath × PollEvent)
  pub run_metadata_written : Bool
  pub cycle_errors : List CycleError

-- The settings that a poll reads.
pub record PollSettings : Type 0 where
  pub raw_fsync : Bool
  pub raw_archive_interval : String → ℕ
  pub limits : Limits

-- An entity of a message, by what the protobuf library tells of it: the names of the message fields
-- that it has.
pub record Entity : Type 0 where
  pub is_deleted : Bool
  pub payloads : List String

-- What a poll uses of other code: the protobuf library and the parsers over it, gzip, SHA-256, the
-- dates of the calendar, and the presence journal. `F` is the type of parsed messages.
pub record Outside (F P : Type 0) : Type 0 where
  pub parse_feed : Bytes → Option F
  pub entities : F → List Entity
  pub parsed_rows : String → F → Option (List Row)
  pub serialized_entities : F → List Bytes
  pub auxiliary_entities : F → List Bytes
  pub header_timestamp : F → Option ℕ
  pub entity_timestamp_range : String → F → Option ℕ × Option ℕ
  pub incrementality : F → ℕ
  pub sha256 : Bytes → String
  pub bytes_before : Bytes → Bytes → Bool
  pub compress : Bytes → Bytes
  pub decompress : Bytes → Option Bytes
  pub date_of : ℕ → String
  -- whether the append fails; whether `observe` raises, and the state it leaves
  pub observe : Bool → List Row → String → ℕ → ℕ → P → Bool × P
  pub invalidate : String → P → P

-- What one poll meets: which writes fail, what each attempt to archive meets, and the new name of
-- its segment.
pub record Poll : Type 0 where
  pub metadata_fails : Bool
  pub first_attempt : Attempt
  pub auxiliary_attempt : Attempt
  pub fallback_attempt : Attempt
  pub last_attempt : Attempt
  pub presence_fails : Bool
  pub stage_fails : Bool
  pub segment_name : String
  pub journal_fails : Bool

-- ===== src/Collector/Work.antt =====
-- collector.py, the steps of `process_result` for a response, one by one, over the collector's
-- state and the local variables.
use bkk_collector.Base.{
  ℕ, ◌%◌, ◌/◌, ◌^◌, String, Bool, true, false, not, ◌&&◌, ◌||◌, Option, none, some, List, [], ◌∷◌,
  ◌++◌, length, from_some, is_some, is_empty, all, ◌==◌, string_eq, option_eq, if◌then◌else◌,
}
use bkk_collector.Base.Dict.{Dict, lookup, insert, member}
use bkk_collector.Base.Sorting.{sorted}
use bkk_collector.RawLog.{Bytes, pack_u32}
use bkk_collector.Archive.{RawPath, path_eq, Attempt, raw_archived, raw_ok, archive_raw}
use bkk_collector.Tracker.{
  Row, Tracker, Result, ok, err, TrackerError, signal_missing, filter, commit,
}
use bkk_collector.Spool.{Partition, stage}
use bkk_collector.Spool.Refinement.{no_files}
use bkk_collector.Monitoring.Feeds.{Flag, change_tracker_signal_missing, change_tracker_failed}
use bkk_collector.Collector.{Collector, FetchResult, Entity, Outside, Poll, PollSettings}

-- The local variables of `process_result`.
pub record Locals (F : Type 0) : Type 0 where
  pub raw_archived : Bool
  pub raw_ok : Bool
  pub feed : Option F
  pub content_hash : String
  pub parsed_rows : List Row
  pub emitted_rows : List Row
  pub parse_ok : Bool
  pub change_tracking_ok : Bool
  pub failure_flag : Option Flag
  pub spool_ok : Bool
  pub spool_path : Option String
  pub presence_ok : Bool
  pub presence_error : Bool
  pub auxiliary_sha256 : Option String
  pub auxiliary_count : ℕ
  pub auxiliary_changed : Bool
  pub flags : List Flag

pub record Work (F P : Type 0) : Type 0 where
  pub collector : Collector P
  pub locals : Locals F

-- The field that a feed's entities have; `none` is a KeyError.
unfoldable pub expected_payload : String → Option String
expected_payload feed =
    if feed == "vehiclepositions"
    then some "vehicle"
    else if feed == "tripupdates"
    then some "trip_update"
    else if feed == "alerts"
    then some "alert"
    else none

-- One field, of those allowed.
unfoldable pub is_allowed : String → List String → Bool
is_allowed expected (payload ∷ []) =
    member payload (expected ∷ "shape" ∷ "stop" ∷ "trip_modifications" ∷ [])
is_allowed expected _ = false

-- `_validate_feed_entities`; false is an exception.
unfoldable pub validate_feed_entities : String → List Entity → Bool
unfolding expected_payload is_allowed
validate_feed_entities feed entities = elim (expected_payload feed) [
  | none ↦ false
  | some expected ↦ all (λ (e : Entity). e.is_deleted || is_allowed expected e.payloads) entities
]

-- `len(value).to_bytes(8, "big")`
abbrev pub pack_u64 : ℕ → Bytes
pack_u64 n = pack_u32 (n / 2 ^ 32) ++ pack_u32 (n % 2 ^ 32)

-- The bytes that a digest of entities is updated with.
unfoldable pub framed : List Bytes → Bytes
framed [] = []
framed (value ∷ values) = pack_u64 (length value) ++ value ++ framed values

-- The partition of a feed and a date.
abbrev pub partition_at :
    RawPath → Dict RawPath (Partition String String Row) → Partition String String Row
partition_at path spool = from_some no_files (lookup path spool)

-- The flag of an exception of the change tracker.
abbrev pub tracking_flag : TrackerError → Flag
tracking_flag (signal_missing n) = change_tracker_signal_missing
tracking_flag _ = change_tracker_failed

module _ {F P : Type 0} (o : Outside F P) (settings : PollSettings) (result : FetchResult)
    (payload : Bytes) where
  abbrev pub path_of : RawPath
  path_of = record { feed = result.feed_name; date = o.date_of result.received }

  -- `raw_archived, raw_ok, raw_error = self._archive_raw(result, date_str, force=…)`
  unfoldable pub archive_step : Bool → Attempt → Work F P → Work F P
  archive_step force attempt w =
      let (outcome, archive) =
        archive_raw o.compress o.decompress settings.raw_fsync
          (settings.raw_archive_interval result.feed_name) force attempt
          (record { path = path_of; received = result.stamp; payload = payload })
          w.collector.archive in
      record {
        collector = record w.collector { archive = archive };
        locals = record w.locals { raw_archived = raw_archived outcome; raw_ok = raw_ok outcome };
      }

  -- The `try` block that parses.
  unfoldable pub parsed : Option F → Locals F → Locals F
  unfolding framed validate_feed_entities
  parsed none l = l
  parsed (some feed) l =
      let hash = o.sha256 (framed (sorted o.bytes_before (o.serialized_entities feed))) in
      let failed : Locals F = record l { feed = some feed } in
      if validate_feed_entities result.feed_name (o.entities feed)
      then elim (o.parsed_rows result.feed_name feed) [
        | none ↦ record failed { content_hash = hash }
        | some rows ↦ record failed { content_hash = hash; parsed_rows = rows; parse_ok = true }
      ]
      else failed

  unfoldable pub parse_step : Work F P → Work F P
  unfolding parsed
  parse_step w = record w { locals = parsed (o.parse_feed payload) w.locals }

  -- The auxiliary entities of TripUpdates, where the message was parsed.
  unfoldable pub auxiliary_of : Poll → Option F → Work F P → Work F P
  unfolding framed archive_step
  auxiliary_of poll none w = w
  auxiliary_of poll (some feed) w =
      let entities = sorted o.bytes_before (o.auxiliary_entities feed) in
      let sha = o.sha256 (framed entities) in
      let changed = not (some sha == w.collector.archived_auxiliary) in
      let w' : Work F P = record w {
        locals = record w.locals {
          auxiliary_count = length entities;
          auxiliary_sha256 = some sha;
          auxiliary_changed = changed;
        };
      } in
      if changed && not w.locals.raw_archived
      then archive_step true poll.auxiliary_attempt w'
      else w'

  unfoldable pub auxiliary_step : Poll → Work F P → Work F P
  unfolding auxiliary_of
  auxiliary_step poll w =
      if w.locals.parse_ok && (result.feed_name == "tripupdates")
      then auxiliary_of poll w.locals.feed w
      else w

  abbrev pub incrementality_of : Option F → ℕ
  incrementality_of none = 0
  incrementality_of (some feed) = o.incrementality feed

  unfoldable pub presence_step : Poll → Work F P → Work F P
  presence_step poll w =
      if not (result.feed_name == "tripupdates")
      then w
      else if w.locals.parse_ok
      then (let (raises, presence) =
            o.observe poll.presence_fails w.locals.parsed_rows (o.date_of result.received)
              result.received (incrementality_of w.locals.feed) w.collector.presence in
          record {
            collector = record w.collector { presence = presence };
            locals = record w.locals { presence_ok = not raises; presence_error = raises };
          })
      else record {
        collector = record w.collector {
          presence = o.invalidate "parse_observation_gap" w.collector.presence;
        };
        locals = record w.locals { presence_ok = false };
      }

  -- What `filter` leaves: the rows, or the flag of its exception.
  unfoldable pub filtered : Result (List Row) → Locals F → Locals F
  filtered (ok rows) l = record l { emitted_rows = rows }
  filtered (err e) l = record l {
    change_tracking_ok = false;
    failure_flag = some (tracking_flag e);
  }

  unfoldable pub filter_with : Option Tracker → Work F P → Work F P
  unfolding filtered
  filter_with none w = record w { locals = record w.locals { emitted_rows = w.locals.parsed_rows } }
  filter_with (some t) w =
      let (rows, t') =
        filter t w.locals.parsed_rows (o.date_of result.received) result.received false in
      record {
        collector = record w.collector {
          trackers = insert result.feed_name t' w.collector.trackers;
        };
        locals = filtered rows w.locals;
      }

  unfoldable pub filter_step : Work F P → Work F P
  unfolding filter_with
  filter_step w =
      if w.locals.parse_ok then filter_with (lookup result.feed_name w.collector.trackers) w else w

  -- `if tracker: tracker.commit(emitted_rows, date_str, …)`
  unfoldable pub commit_with : Option Tracker → List Row → Dict String Tracker → Dict String Tracker
  commit_with none rows trackers = trackers
  commit_with (some t) rows trackers =
      insert result.feed_name (commit t rows (o.date_of result.received) result.received) trackers

  unfoldable pub stage_step : Poll → Work F P → Work F P
  unfolding commit_with
  stage_step poll w =
      let rows = w.locals.emitted_rows in
      if not (w.locals.parse_ok && w.locals.change_tracking_ok)
      then w
      else if poll.stage_fails && not (is_empty rows)
      then record w { locals = record w.locals { spool_ok = false } }
      else record {
        collector = record w.collector {
          spool =
              insert path_of (stage poll.segment_name rows (partition_at path_of w.collector.spool))
                w.collector.spool;
          trackers =
              commit_with (lookup result.feed_name w.collector.trackers) rows w.collector.trackers;
        };
        locals = record w.locals {
          spool_path = elim rows [ [] ↦ none | row ∷ rows' ↦ some poll.segment_name ];
        };
      }

  -- The steps that may lose the response.
  abbrev pub all_ok : Locals F → Bool
  all_ok l = l.parse_ok && l.change_tracking_ok && l.spool_ok && l.presence_ok

  unfoldable pub fallback_step : Poll → Work F P → Work F P
  unfolding archive_step
  fallback_step poll w =
      if not (all_ok w.locals) && not w.locals.raw_archived
      then archive_step true poll.fallback_attempt w
      else w

  unfoldable pub remember_auxiliary : Work F P → Work F P
  remember_auxiliary w =
      if is_some w.locals.auxiliary_sha256 && w.locals.raw_archived && w.locals.raw_ok
      then record w {
        collector = record w.collector { archived_auxiliary = w.locals.auxiliary_sha256 };
      }
      else w

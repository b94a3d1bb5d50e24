-- ===== src/Collector/Polls.antt =====
-- collector.py, `process_result`: the steps composed, the health of the feed and the poll journal.
use bkk_collector.Base.{
  String, Bool, true, false, not, ◌&&◌, ◌||◌, Option, none, some, [], ◌∷◌, ◌++◌, length, from_some,
  ◌==◌, string_eq, if◌then◌else◌,
}
use mathlib.Core.Option
use bkk_collector.Base.Dict.{lookup, insert}
use bkk_collector.RawLog.{Bytes}
use bkk_collector.Archive.{RawPath}
use bkk_collector.Monitoring.Feeds.{FeedHealth, Success, record_success, record_failure}
use bkk_collector.Monitoring.Status.{no_health}
use bkk_collector.Collector.{
  Collector, FetchResult, Outside, Poll, PollSettings, PollEvent, ScheduleFields, Fault,
  request_fault, parse_fault, change_tracking_fault, spool_fault, presence_fault, CycleError,
  run_metadata_write_failed, poll_journal_failed,
}
use bkk_collector.Collector.Work.{
  Work, Locals, path_of, archive_step, parse_step, auxiliary_step, presence_step, filter_step,
  stage_step, fallback_step, remember_auxiliary,
}

abbrev pub is_trips : FetchResult → Bool
is_trips result = result.feed_name == "tripupdates"

-- A value that only events of TripUpdates have.
abbrev pub for_trips : {A : Type 0} → FetchResult → A → Option A
for_trips result a = if is_trips result then some a else none

-- `parse_error or change_tracking_error or spool_error or presence_error`
unfoldable pub error_of : {F : Type 0} → Locals F → Option Fault
error_of l =
    if not l.parse_ok
    then some parse_fault
    else if not l.change_tracking_ok
    then some change_tracking_fault
    else if not l.spool_ok
    then some spool_fault
    else if l.presence_error
    then some presence_fault
    else none

-- `_failure_event`
unfoldable pub failure_event : FetchResult → ScheduleFields → PollEvent
failure_event result schedule = record {
  feed = result.feed_name;
  poll_id = result.poll_id;
  schedule = schedule;
  success = false;
  error = Option.map request_fault result.error;
  payload_size = none;
  payload_sha256 = none;
  content_sha256 = none;
  presence_required = is_trips result;
  presence_ok = for_trips result false;
  change_tracking_ok = none;
  change_tracking_failure_flag = none;
  header_timestamp = none;
  min_entity_timestamp = none;
  max_entity_timestamp = none;
  entity_count = none;
  freshness_flags = [];
  raw_due = false;
  raw_archived = false;
  raw_ok = none;
  raw_path = none;
  auxiliary_entities = none;
  auxiliary_sha256 = none;
  auxiliary_changed = none;
  parse_ok = false;
  parsed_rows = 0;
  selected_rows = 0;
  emitted_rows = 0;
  spool_ok = none;
  spool_path = none;
}

module _ {P : Type 0} where
  abbrev pub health_of : String → Collector P → FeedHealth
  health_of feed c = from_some no_health (lookup feed c.feeds)

  abbrev pub put_health : String → FeedHealth → Collector P → Collector P
  put_health feed h c = record c { feeds = insert feed h c.feeds }

  abbrev pub add_error : CycleError → Collector P → Collector P
  add_error e c = record c { cycle_errors = c.cycle_errors ++ e ∷ [] }

  -- `append_poll_event` and what notes whether it raised.
  unfoldable pub journal_step : Bool → RawPath → PollEvent → Collector P → Collector P
  journal_step fails path event c =
      let c' =
        put_health path.feed (record (health_of path.feed c) { poll_journal_ok = some (not fails) })
          c in
      if fails
      then add_error (poll_journal_failed path.feed) c'
      else record c' { journal = c'.journal ++ (path, event) ∷ [] }

  -- `_write_run_metadata` and its handler.
  unfoldable pub metadata_step : Bool → Collector P → Collector P
  metadata_step fails c =
      if c.run_metadata_written
      then c
      else if fails
      then add_error run_metadata_write_failed c
      else record c { run_metadata_written = true }

module _ {F P : Type 0} (o : Outside F P) (settings : PollSettings) (result : FetchResult) where
  -- A response that failed.
  unfoldable pub process_failure : Poll → ScheduleFields → Collector P → Collector P
  unfolding failure_event journal_step
  process_failure poll schedule c =
      let c1 : Collector P =
        if is_trips result
        then record c { presence = o.invalidate "http_observation_gap" c.presence }
        else c in
      let h =
        record_failure result.received (from_some "unknown fetch failure" result.error)
          result.http_status (health_of result.feed_name c1) in
      journal_step poll.journal_fails
        (record { feed = result.feed_name; date = o.date_of result.received })
        (failure_event result schedule) (put_health result.feed_name h c1)

  module _ (payload : Bytes) where
    abbrev pub new_locals : Locals F
    new_locals = record {
      raw_archived = false;
      raw_ok = true;
      feed = none;
      content_hash = o.sha256 payload;
      parsed_rows = [];
      emitted_rows = [];
      parse_ok = false;
      change_tracking_ok = true;
      failure_flag = none;
      spool_ok = true;
      spool_path = none;
      presence_ok = true;
      presence_error = false;
      auxiliary_sha256 = none;
      auxiliary_count = 0;
      auxiliary_changed = false;
      flags = [];
    }

    -- What `record_success` is told.
    unfoldable pub success_of : Locals F → Success
    success_of l = record {
      now = result.received;
      header_timestamp = Option.bind l.feed o.header_timestamp;
      content_sha256 = l.content_hash;
      min_entity_timestamp =
          Option.bind l.feed (λ f. (o.entity_timestamp_range result.feed_name f).0);
      max_entity_timestamp =
          Option.bind l.feed (λ f. (o.entity_timestamp_range result.feed_name f).1);
      parse_ok = l.parse_ok;
      presence_ok = l.presence_ok;
      change_tracking_ok = l.change_tracking_ok;
      change_tracking_failure_flag = l.failure_flag;
      raw_ok = l.raw_ok;
      spool_ok = l.spool_ok;
      entity_count = Option.map (λ f. length (o.serialized_entities f)) l.feed;
      http_status = result.http_status;
      payload_size = some (length payload);
      payload_sha256 = some (o.sha256 payload);
    }

    unfoldable pub health_step : Work F P → Work F P
    unfolding success_of record_success
    health_step w =
        let (flags, h) =
          record_success settings.limits result.feed_name (health_of result.feed_name w.collector)
            (success_of w.locals) in
        record {
          collector = put_health result.feed_name h w.collector;
          locals = record w.locals { flags = flags };
        }

    unfoldable pub event_of : ScheduleFields → Locals F → PollEvent
    unfolding error_of success_of
    event_of schedule l =
        let s = success_of l in
        record {
          feed = result.feed_name;
          poll_id = result.poll_id;
          schedule = schedule;
          success = true;
          error = error_of l;
          payload_size = s.payload_size;
          payload_sha256 = s.payload_sha256;
          content_sha256 = some l.content_hash;
          presence_required = is_trips result;
          presence_ok = for_trips result l.presence_ok;
          change_tracking_ok = some l.change_tracking_ok;
          change_tracking_failure_flag = l.failure_flag;
          header_timestamp = s.header_timestamp;
          min_entity_timestamp = s.min_entity_timestamp;
          max_entity_timestamp = s.max_entity_timestamp;
          entity_count = s.entity_count;
          freshness_flags = l.flags;
          raw_due = l.raw_archived || not l.raw_ok;
          raw_archived = l.raw_archived;
          raw_ok = some l.raw_ok;
          raw_path = if l.raw_archived then some (path_of o settings result payload) else none;
          auxiliary_entities = for_trips result l.auxiliary_count;
          auxiliary_sha256 = l.auxiliary_sha256;
          auxiliary_changed = for_trips result l.auxiliary_changed;
          parse_ok = l.parse_ok;
          parsed_rows = length l.parsed_rows;
          selected_rows = if l.parse_ok && l.change_tracking_ok then length l.emitted_rows else 0;
          emitted_rows =
              if l.parse_ok && l.change_tracking_ok && l.spool_ok then length l.emitted_rows else 0;
          spool_ok = some l.spool_ok;
          spool_path = l.spool_path;
        }

    -- The steps up to the forced archival.
    unfoldable pub handle : Poll → Work F P → Work F P
    unfolding archive_step parse_step auxiliary_step presence_step filter_step stage_step
        fallback_step
    handle poll w =
        let w1 =
          parse_step o settings result payload
            (archive_step o settings result payload false poll.first_attempt w) in
        let w2 =
          presence_step o settings result payload poll
            (auxiliary_step o settings result payload poll w1) in
        let w3 =
          stage_step o settings result payload poll (filter_step o settings result payload w2) in
        fallback_step o settings result payload poll w3

    -- The journal, and a last attempt to archive where it fails.
    unfoldable pub conclude : Poll → ScheduleFields → Work F P → Work F P
    unfolding event_of journal_step archive_step
    conclude poll schedule w =
        let w' : Work F P = record w {
          collector =
              journal_step poll.journal_fails (path_of o settings result payload)
                (event_of schedule w.locals) w.collector;
        } in
        if poll.journal_fails && not w.locals.raw_archived
        then archive_step o settings result payload true poll.last_attempt w'
        else w'

    unfoldable pub process_payload : Poll → ScheduleFields → Collector P → Work F P
    unfolding handle remember_auxiliary health_step conclude
    process_payload poll schedule c = conclude poll schedule (
        health_step (
          remember_auxiliary o settings result payload
            (handle poll (record { collector = c; locals = new_locals }))))

  -- `process_result` behind the run's metadata.
  abbrev pub process_response : Option Bytes → Poll → ScheduleFields → Collector P → Collector P
  process_response none poll schedule c = process_failure poll schedule c
  process_response (some payload) poll schedule c =
      (process_payload payload poll schedule c).collector

  -- `process_result`
  unfoldable pub process_result : Poll → ScheduleFields → Collector P → Collector P
  unfolding metadata_step process_failure process_payload
  process_result poll schedule c =
      process_response result.payload poll schedule (metadata_step poll.metadata_fails c)

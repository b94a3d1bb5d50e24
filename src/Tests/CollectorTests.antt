-- ===== src/Tests/CollectorTests.antt =====
-- collector.py on a few polls of TripUpdates: a message is its bytes, each of which is the delay of
-- a trip, and the presence journal keeps nothing.
use bkk_collector.Base.{
  ℕ, ◌≡◌, ◌⊎◌, refl, arith, String, Bool, true, false, Option, none, some, List, [], ◌∷◌, any, map,
  leb, string_eq, length, is_empty, if◌then◌else◌,
}
use mathlib.Core.List.{Sublistᴰ}
use bkk_collector.Base.Dict.{lookup, insert, erase}
use bkk_collector.Tracker.{
  filter, check_signal, maybe_reset, expire, drop_expired, key_of, entry_of, numeric_changed,
}
use bkk_collector.RawLog.{Bytes, untouched, bytes_of, iter_records}
use bkk_collector.Archive.{RawPath, path_eq, Attempt, log_at}
use bkk_collector.Archive.Runs.{empty_archive}
use bkk_collector.Collector.{Collector, FetchResult, Outside, Poll, PollSettings, ScheduleFields}
use bkk_collector.Collector.Work.{validate_feed_entities}
use bkk_collector.Collector.Polls.{process_payload, health_of}
use bkk_collector.Collector.Fallback.{is_raw_failure, Saved}
use bkk_collector.Collector.Losses.{Loses, unstaged}
use bkk_collector.Collector.Saved.{process_payload-Saved}
use bkk_collector.Collector.Reads.{Input, process_all, archived_all, process_all-reads}
use bkk_collector.Collector.Advance.{seen, Advanced}
use bkk_collector.Collector.Outcome.{process_payload-Advanced}
use bkk_collector.Scheduler.{ScheduledResult, Scheduler, value, get}
use bkk_collector.Monitoring.Status.{Status}
use bkk_collector.Collector.Loop.{Run, Turn, run_turn}
use bkk_collector.Collector.Turns.{is_healthy, run_turn-journal}
use bkk_collector.Tests.RawLogTests.{compress, decompress, gunzip}
use bkk_collector.Tests.TrackerTests.{tracker, row}
use bkk_collector.Tests.MonitoringTests.{limits}

abbrev outside : Outside Bytes Unit
outside = record {
  parse_feed = λ bytes. if is_empty bytes then none else some bytes;
  entities = λ bytes. record { is_deleted = false; payloads = "trip_update" ∷ [] } ∷ [];
  parsed_rows = λ feed bytes. some (map (row "A") bytes);
  serialized_entities = λ bytes. bytes ∷ [];
  auxiliary_entities = λ bytes. [];
  header_timestamp = λ bytes. some 1000;
  entity_timestamp_range = λ feed bytes. (none, none);
  incrementality = λ bytes. 0;
  sha256 = λ bytes. "digest";
  bytes_before = λ a b. leb (length a) (length b);
  compress = compress;
  decompress = decompress;
  date_of = λ at. "2026-01-02";
  observe = λ fails rows date at incrementality p. (fails, p);
  invalidate = λ reason p. p;
}

abbrev settings : PollSettings
settings = record { raw_fsync = true; raw_archive_interval = λ feed. 300; limits = limits }

abbrev result : ℕ → Bytes → FetchResult
result at payload = record {
  feed_name = "tripupdates";
  poll_id = "poll";
  received = at;
  stamp = at;
  http_status = some 200;
  payload = some payload;
  error = none;
}

abbrev attempt : ℕ → Attempt
attempt now = record {
  now = now;
  repair_fails = λ p. false;
  repair_leaves = λ p. untouched;
  write_fails_after = none;
}

abbrev poll : ℕ → String → Bool → Bool → Poll
poll now name stage_fails journal_fails = record {
  metadata_fails = false;
  first_attempt = attempt now;
  auxiliary_attempt = attempt now;
  fallback_attempt = attempt now;
  last_attempt = attempt now;
  presence_fails = false;
  stage_fails = stage_fails;
  segment_name = name;
  journal_fails = journal_fails;
}

abbrev unscheduled : ScheduleFields
unscheduled = record {
  scheduled_for = none;
  scheduler_lag = none;
  missed_deadlines_before_request = 0;
}

abbrev collector : Collector Unit
collector = record {
  archive = empty_archive;
  presence = tt;
  trackers = ("tripupdates", tracker) ∷ [];
  spool = [];
  feeds = [];
  archived_auxiliary = none;
  journal = [];
  run_metadata_written = false;
  cycle_errors = [];
}

-- A poll that goes well, and one whose stage fails soon behind it.
abbrev inputs : List Input
inputs =
    record {
      result = result 3000000 (7 ∷ []);
      poll = poll 100 "a" false false;
      schedule = unscheduled;
    }
    ∷ record {
      result = result 3000100 (9 ∷ []);
      poll = poll 200 "b" true true;
      schedule = unscheduled;
    }
    ∷ []

abbrev trips : RawPath
trips = record { feed = "tripupdates"; date = "2026-01-02" }

process_all-reads_example :
    (read : List (ℕ × Bytes)) × (iter_records decompress
        (bytes_of (log_at trips (process_all outside settings inputs collector).archive).content)
      ≡ read)
    × Sublistᴰ (archived_all outside settings trips inputs collector) read
process_all-reads_example =
    process_all-reads outside settings gunzip inputs collector trips refl
      (omega arith, (omega arith, tt))

abbrev response : FetchResult
response = result 3000000 (7 ∷ [])

-- The rows of the response are selected and cannot be staged.
loses : Loses outside settings response (7 ∷ []) (poll 100 "a" true false) collector
unfolding validate_feed_entities lookup filter check_signal maybe_reset expire drop_expired insert
    erase key_of entry_of numeric_changed
loses = unstaged (row "A" 7 ∷ []) (row "A" 7 ∷ []) refl refl refl refl

process_payload-Saved_example :
    ((process_payload outside settings response
        (7 ∷ [])
        (poll 100 "a" true false)
        unscheduled
        collector).locals.raw_archived
      ≡ true)
    ⊎ (any is_raw_failure
          (health_of "tripupdates"
            (process_payload outside settings response
              (7 ∷ [])
              (poll 100 "a" true false)
              unscheduled
              collector).collector).freshness_flags
        ≡ true)
process_payload-Saved_example =
    process_payload-Saved outside settings response (7 ∷ []) (poll 100 "a" true false) unscheduled
      collector loses

process_payload-Advanced_example :
    Advanced outside settings (result 3000000 (7 ∷ [])) (7 ∷ []) "a" tracker [] (
      seen outside settings (result 3000000 (7 ∷ [])) (7 ∷ []) (
        process_payload outside settings
          (result 3000000 (7 ∷ []))
          (7 ∷ [])
          (poll 100 "a" false false)
          unscheduled
          collector))
process_payload-Advanced_example =
    process_payload-Advanced outside settings (result 3000000 (7 ∷ [])) (7 ∷ [])
      (poll 100 "a" false false) unscheduled tracker collector (unfold lookup in refl)

abbrev item : ScheduledResult FetchResult
item = record {
  feed_name = "tripupdates";
  poll_id = "poll";
  outcome = value (result 3000000 (7 ∷ []));
  scheduled_for = 3000000;
  scheduler_lag = 0;
  missed_deadlines_before_request = 0;
}

abbrev queued : Scheduler FetchResult
queued = record { schedules = []; results = item ∷ []; maxsize = 3; accepting = true }

abbrev a_run : Run Unit
a_run = record { scheduler = queued; collector = collector; last_status = some 100 }

abbrev turn : Turn
turn = record {
  now = 200;
  wall = 3000000;
  poll = poll 100 "a" false true;
  disk = record {
    free = 10;
    warn = 5;
    critical_below = 1;
    worker = some (true, 0);
    flush_errors = [];
    status_fails = false;
  };
}

run_turn-journal_example :
    (status : Option Status) × ((run_turn outside settings turn a_run).0 ≡ status ∷ [])
    × (is_healthy status ≡ false)
run_turn-journal_example =
    run_turn-journal outside settings turn a_run item (result 3000000 (7 ∷ []))
      (record queued { results = [] }) (unfold get in refl) refl refl

-- ===== src/Collector/Loop.antt =====
-- collector.py, the main loop of `run` with `_commit_and_write_status`, and the drain at its end. A
-- turn of the loop takes an item from the scheduler, processes it, acknowledges it and writes the
-- health.
use Prim.Native.String.{◌++◌ as join}
use bkk_collector.Base.{
  ℕ, ◌-◌, String, Bool, true, ◌||◌, Option, none, some, List, [], ◌∷◌, ◌++◌, map, leb, is_some,
  if◌then◌else◌, ◌==◌, string_eq,
}
use mathlib.Core.Option
use bkk_collector.Base.Int.{ℤ, pos, negsuc}
use bkk_collector.Base.Dict.{Dict}
use bkk_collector.Scheduler.{
  FeedSchedule, ScheduledResult, Scheduler, Outcome, value, worker_error, get, acknowledge,
}
use bkk_collector.Monitoring.Status.{FeedSnapshot, Status, write_status}
use bkk_collector.Collector.{
  Collector, FetchResult, Outside, Poll, PollSettings, ScheduleFields, CycleError,
  run_metadata_write_failed, poll_journal_failed, unexpected_fetch_worker_failure,
}
use bkk_collector.Collector.Polls.{add_error, process_result}

abbrev pub error_text : CycleError → String
error_text run_metadata_write_failed = "run_metadata_write_failed"
error_text (poll_journal_failed feed) = join feed ":poll_journal_failed"
error_text (unexpected_fetch_worker_failure feed) = join feed ":unexpected_fetch_worker_failure"

-- `next_deadline - current`
abbrev pub until : ℕ → ℕ → ℤ
until now deadline = if leb now deadline then pos (deadline - now) else negsuc (now - deadline - 1)

module _ {V : Type 0} where
  -- `snapshot`, as far as the health reads it.
  unfoldable pub snapshot_feed : ℕ → FeedSchedule V → FeedSnapshot
  snapshot_feed now st = record {
    interval = st.interval;
    in_flight = Option.map (λ at. now - at) st.in_flight_started;
    missed_since_last_request = st.missed_since_last_request;
    since_missed_deadline = Option.map (λ at. now - at) st.last_missed;
    next_deadline_in = some (until now st.next_deadline);
  }

  unfoldable pub snapshot : ℕ → Dict String (FeedSchedule V) → Dict String FeedSnapshot
  unfolding snapshot_feed
  snapshot now [] = []
  snapshot now ((feed, st) ∷ rest) = (feed, snapshot_feed now st) ∷ snapshot now rest

  -- `_schedule_event_fields`
  abbrev pub schedule_fields : ScheduledResult V → ScheduleFields
  schedule_fields item = record {
    scheduled_for = some item.scheduled_for;
    scheduler_lag = some item.scheduler_lag;
    missed_deadlines_before_request = item.missed_deadlines_before_request;
  }

-- What a status meets outside: the disk, the commit worker's state and errors, and whether the
-- write of the status raises.
pub record Disk : Type 0 where
  pub free : ℕ
  pub warn : ℕ
  pub critical_below : ℕ
  pub worker : Option (Bool × ℕ)
  pub flush_errors : List String
  pub status_fails : Bool

-- One turn of the loop: the two clocks, what its poll meets and what its status meets.
pub record Turn : Type 0 where
  pub now : ℕ
  pub wall : ℕ
  pub poll : Poll
  pub disk : Disk

abbrev pub status_pause : ℕ
status_pause = 5000

-- The state of `run`; without a time no status was written.
pub record Run (P : Type 0) : Type 0 where
  pub scheduler : Scheduler FetchResult
  pub collector : Collector P
  pub last_status : Option ℕ

module _ {F P : Type 0} (o : Outside F P) (settings : PollSettings) where
  -- What becomes of the end of a request.
  unfoldable pub handle_outcome :
      String → Outcome FetchResult → Poll → ScheduleFields → Collector P → Collector P
  handle_outcome feed (value result) poll schedule c =
      process_result o settings result poll schedule c
  handle_outcome feed (worker_error e) poll schedule c =
      add_error (unexpected_fetch_worker_failure feed) (
        if feed == "tripupdates"
        then record c { presence = o.invalidate "http_observation_gap" c.presence }
        else c)

  unfoldable pub handle_item :
      Option (ScheduledResult FetchResult) → Poll → Collector P → Collector P
  unfolding handle_outcome
  handle_item none poll c = c
  handle_item (some item) poll c =
      handle_outcome item.feed_name item.outcome poll (schedule_fields item) c

  -- `_commit_and_write_status` with a worker; `none` is a status that could not be written.
  unfoldable pub commit_and_write_status :
      Turn → Dict String FeedSnapshot → Collector P → Option Status
  commit_and_write_status turn schedules c =
      if turn.disk.status_fails
      then none
      else some (
          write_status settings.limits turn.wall c.feeds schedules (record {
            disk_free = turn.disk.free;
            disk_warn = turn.disk.warn;
            disk_critical_below = turn.disk.critical_below;
            flush_errors = turn.disk.flush_errors;
            cycle_errors = map error_text c.cycle_errors;
            worker = turn.disk.worker;
          }))

  abbrev pub status_due : ℕ → Option ℕ → Bool
  status_due now none = true
  status_due now (some last) = leb status_pause (now - last)

  abbrev pub acknowledged :
      Option (ScheduledResult FetchResult) → Scheduler FetchResult → Scheduler FetchResult
  acknowledged none s = s
  acknowledged (some item) s = acknowledge item s

  -- A turn behind the take from the queue.
  unfoldable pub run_taken :
      Turn
      → Run P
      → Option (ScheduledResult FetchResult) × Scheduler FetchResult
      → List (Option Status) × Run P
  unfolding handle_item commit_and_write_status snapshot
  run_taken turn r (item, s) =
      let c = handle_item item turn.poll r.collector in
      let s' = acknowledged item s in
      if is_some item || status_due turn.now r.last_status
      then (
        commit_and_write_status turn (snapshot turn.now s'.schedules) c ∷ [],
        record {
          scheduler = s';
          collector = record c { cycle_errors = [] };
          last_status = some turn.now;
        },
      )
      else ([], record { scheduler = s'; collector = c; last_status = r.last_status })

  -- The body of `while not _shutdown_requested`: the statuses written, and the state.
  unfoldable pub run_turn : Turn → Run P → List (Option Status) × Run P
  unfolding run_taken
  run_turn turn r = run_taken turn r (get r.scheduler)

  unfoldable pub run_turns : List Turn → Run P → List (Option Status) × Run P
  unfolding run_turn
  run_turns [] r = ([], r)
  run_turns (turn ∷ turns) r =
      let (first, r') = run_turn turn r in
      let (rest, r'') = run_turns turns r' in (first ++ rest, r'')

  -- A drained item: an error of the worker leaves no error of the cycle.
  unfoldable pub drain_outcome :
      String → Outcome FetchResult → Poll → ScheduleFields → Collector P → Collector P
  drain_outcome feed (value result) poll schedule c =
      process_result o settings result poll schedule c
  drain_outcome feed (worker_error e) poll schedule c =
      if feed == "tripupdates"
      then record c { presence = o.invalidate "http_observation_gap" c.presence }
      else c

  -- The loop over what `stop_and_drain` returned.
  unfoldable pub drain : List (ScheduledResult FetchResult × Poll) → Collector P → Collector P
  unfolding drain_outcome
  drain [] c = c
  drain ((item, poll) ∷ items) c =
      drain items (drain_outcome item.feed_name item.outcome poll (schedule_fields item) c)

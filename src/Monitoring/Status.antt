-- ===== src/Monitoring/Status.antt =====
-- monitoring.py: write_status of `HealthMonitor`, from the states of the feeds to the verdict. A
-- list of reasons stands for the sorted set that the source makes of it.
use bkk_collector.Base.{
  ℕ, ◌-◌, ◌*◌, max, String, Bool, true, false, not, ◌&&◌, ◌||◌, Option, none, some, List, [], ◌∷◌,
  ◌++◌, ltb, from_some, string_eq, nat_eq, option_eq, is_empty, if◌then◌else◌,
}
use bkk_collector.Base.Int.{ℤ, neg_part}
use bkk_collector.Base.Dict.{Dict, lookup}
use bkk_collector.Monitoring.Feeds.{Flag, is_warning, FeedHealth, Limits, Success, feed_names}

-- The scheduler's snapshot of a feed, as far as `write_status` reads it.
pub record FeedSnapshot : Type 0 where
  pub interval : ℕ
  pub in_flight : Option ℕ
  pub missed_since_last_request : ℕ
  pub since_missed_deadline : Option ℕ
  pub next_deadline_in : Option ℤ

-- The entries of `reasons` and `warnings`.
pub data Reason : Type 0 where
  absent : String → Reason
  http_failed : String → Reason
  poll_journal_failed : String → Reason
  flagged : String → Flag → Reason
  request_exceeds_cadence : String → Reason
  request_stuck : String → Reason
  scheduler_missed_deadline : String → Reason
  scheduler_overdue : String → Reason
  disk_critical : Reason
  disk_low : Reason
  parquet_flush_failed : Reason
  cycle_storage_error : Reason
  parquet_worker_stopped : Reason
  parquet_worker_stuck : Reason

abbrev pub reason_if : Bool → Reason → List Reason
reason_if b reason = if b then reason ∷ [] else []

-- The feed has no success, or its last one is too long ago.
unfoldable pub is_absent : Limits → ℕ → ℕ → Option Success → Bool
is_absent limits now interval none = true
is_absent limits now interval (some last) = ltb (max limits.absent (interval * 3)) (now - last.now)

abbrev pub exceeds : ℕ → Option ℕ → Bool
exceeds limit none = false
exceeds limit (some x) = ltb limit x

-- A deadline that passed more than an interval ago.
unfoldable pub is_overdue : ℕ → Option ℤ → Bool
is_overdue interval none = false
is_overdue interval (some due) = ltb 0 interval && ltb interval (neg_part due)

abbrev pub is_recent : Option ℕ → Bool
is_recent none = false
is_recent (some age) = ltb age 300000

unfoldable pub schedule_reasons : String → FeedSnapshot → List Reason
unfolding is_overdue
schedule_reasons feed schedule =
    reason_if
      (ltb 0 schedule.interval && exceeds (max (schedule.interval * 3) 60000) schedule.in_flight)
      (request_stuck feed)
    ++ reason_if (is_overdue schedule.interval schedule.next_deadline_in) (scheduler_overdue feed)

unfoldable pub schedule_warnings : String → FeedSnapshot → List Reason
schedule_warnings feed schedule =
    reason_if (ltb 0 schedule.interval && exceeds schedule.interval schedule.in_flight)
      (request_exceeds_cadence feed)
    ++ reason_if
        (ltb 0 schedule.missed_since_last_request || is_recent schedule.since_missed_deadline)
        (scheduler_missed_deadline feed)

-- `[f"{feed_name}:{flag}" for flag in flags if keep]`
unfoldable pub flagged_as : String → (Flag → Bool) → List Flag → List Reason
flagged_as feed wanted [] = []
flagged_as feed wanted (f ∷ flags) =
    reason_if (wanted f) (flagged feed f) ++ flagged_as feed wanted flags

abbrev pub interval_of : Option FeedSnapshot → ℕ
interval_of none = 0
interval_of (some schedule) = schedule.interval

abbrev pub schedule_part : (FeedSnapshot → List Reason) → Option FeedSnapshot → List Reason
schedule_part of none = []
schedule_part of (some snapshot) = of snapshot

-- `is False`
abbrev pub is_false : Option Bool → Bool
is_false (some false) = true
is_false _ = false

-- What the loop of `write_status` adds to `reasons` for a feed.
unfoldable pub feed_reasons : Limits → ℕ → String → FeedHealth → Option FeedSnapshot → List Reason
unfolding is_absent flagged_as schedule_reasons
feed_reasons limits now feed state schedule =
    reason_if (is_absent limits now (interval_of schedule) state.last_success) (absent feed)
    ++ reason_if (ltb 0 state.consecutive_failures) (http_failed feed)
    ++ reason_if (is_false state.poll_journal_ok) (poll_journal_failed feed)
    ++ flagged_as feed (λ f. not (is_warning f)) state.freshness_flags
    ++ schedule_part (schedule_reasons feed) schedule

-- What it adds to `warnings`.
unfoldable pub feed_warnings : String → FeedHealth → Option FeedSnapshot → List Reason
unfolding flagged_as schedule_warnings
feed_warnings feed state schedule =
    flagged_as feed is_warning state.freshness_flags
    ++ schedule_part (schedule_warnings feed) schedule

-- The arguments of `write_status` beside the feeds.
pub record Surroundings : Type 0 where
  pub disk_free : ℕ
  pub disk_warn : ℕ
  pub disk_critical_below : ℕ
  pub flush_errors : List String
  pub cycle_errors : List String
  -- alive, and the nanoseconds of the active commit, in which the monotonic clock counts; `none`
  -- without a worker
  pub worker : Option (Bool × ℕ)

abbrev pub ten_minutes : ℕ
ten_minutes = 600000000000

abbrev pub worker_reasons : Option (Bool × ℕ) → List Reason
worker_reasons none = []
worker_reasons (some (alive, active)) =
    reason_if (not alive) parquet_worker_stopped
    ++ reason_if (ltb ten_minutes active) parquet_worker_stuck

unfoldable pub surrounding_reasons : Surroundings → List Reason
surrounding_reasons env =
    (if ltb env.disk_free env.disk_critical_below
      then disk_critical ∷ []
      else reason_if (ltb env.disk_free env.disk_warn) disk_low)
    ++ reason_if (not (is_empty env.flush_errors)) parquet_flush_failed
    ++ reason_if (not (is_empty env.cycle_errors)) cycle_storage_error
    ++ worker_reasons env.worker

pub record Status : Type 0 where
  pub healthy : Bool
  pub reasons : List Reason
  pub warnings : List Reason

-- A feed of which nothing is known.
abbrev pub no_health : FeedHealth
no_health = record {
  content_sha256 = none;
  payload_sha256 = none;
  header_timestamp = none;
  payload_unchanged_since = none;
  header_unchanged_since = none;
  last_success = none;
  last_attempt = none;
  last_http_status = none;
  last_error = none;
  consecutive_failures = 0;
  freshness_flags = [];
  poll_journal_ok = none;
}

unfoldable pub all_reasons :
    Limits → ℕ → Dict String FeedHealth → Dict String FeedSnapshot → List String → List Reason
unfolding feed_reasons
all_reasons limits now feeds schedules [] = []
all_reasons limits now feeds schedules (feed ∷ names) =
    feed_reasons limits now feed (from_some no_health (lookup feed feeds)) (lookup feed schedules)
    ++ all_reasons limits now feeds schedules names

unfoldable pub all_warnings :
    Dict String FeedHealth → Dict String FeedSnapshot → List String → List Reason
unfolding feed_warnings
all_warnings feeds schedules [] = []
all_warnings feeds schedules (feed ∷ names) =
    feed_warnings feed (from_some no_health (lookup feed feeds)) (lookup feed schedules)
    ++ all_warnings feeds schedules names

-- `write_status`
unfoldable pub write_status :
    Limits → ℕ → Dict String FeedHealth → Dict String FeedSnapshot → Surroundings → Status
unfolding all_reasons all_warnings surrounding_reasons
write_status limits now feeds schedules env =
    let reasons = all_reasons limits now feeds schedules feed_names ++ surrounding_reasons env in
    record {
      healthy = is_empty reasons;
      reasons = reasons;
      warnings = all_warnings feeds schedules feed_names;
    }

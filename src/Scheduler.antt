-- ===== src/Scheduler.antt =====
-- bkk_collector/realtime/realtime_scheduler.py: one schedule and one active request per feed.
-- Times are whole milliseconds of the monotonic and of the wall clock. What the outside gives is an
-- argument: the clocks, the fresh poll ids, and when a request's future is done and with what.
pub mod System
pub mod Deadlines
pub mod Pace
pub mod Queue
pub mod Drain
use bkk_collector.Base.{
  ℕ, ◌+◌, ◌-◌, ◌*◌, ◌/◌, String, Bool, true, false, not, ◌&&◌, ◌||◌, Option, none, some, List, [],
  ◌∷◌, ◌++◌, ltb, leb, nat_beq, if◌then◌else◌, is_some, from_some, length, ◌==◌, string_eq,
  option_eq,
}
use mathlib.Core.Option
use bkk_collector.Base.Dict.{Dict}

-- How a request ends: `future.result()` returns or raises.
pub data Outcome (V : Type 0) : Type 0 where
  value : V → Outcome V
  worker_error : String → Outcome V

-- A submitted request: still running, or done.
pub data Future (V : Type 0) : Type 0 where
  running : Future V
  done : Outcome V → Future V

-- `FeedSchedule`
pub record FeedSchedule (V : Type 0) : Type 0 where
  pub interval : ℕ
  pub next_deadline : ℕ
  pub future : Option (Future V)
  pub active_poll_id : Option String
  pub active_scheduled_for : Option ℕ
  pub active_scheduler_lag : ℕ
  pub active_missed_before_request : ℕ
  pub in_flight_started : Option ℕ
  pub result_pending : Bool
  pub pending_poll_id : Option String
  pub total_submitted : ℕ
  pub total_completed : ℕ
  pub total_missed_deadlines : ℕ
  pub missed_since_last_request : ℕ
  pub last_scheduler_lag : Option ℕ
  pub last_completed : Option ℕ
  pub last_missed : Option ℕ

-- `ScheduledResult`
pub record ScheduledResult (V : Type 0) : Type 0 where
  pub feed_name : String
  pub poll_id : String
  pub outcome : Outcome V
  pub scheduled_for : ℕ
  pub scheduler_lag : ℕ
  pub missed_deadlines_before_request : ℕ

-- `IndependentFeedScheduler`: the schedules, the bounded result queue and the flag `_accepting`.
pub record Scheduler (V : Type 0) : Type 0 where
  pub schedules : Dict String (FeedSchedule V)
  pub results : List (ScheduledResult V)
  pub maxsize : ℕ
  pub accepting : Bool

-- One reading of the outside for a step: the two clocks and an id for each feed.
pub record Reading : Type 0 where
  pub now : ℕ
  pub wall : ℕ
  pub fresh_id : String → String

module _ {V : Type 0} where
  unfoldable pub new_schedule : ℕ → ℕ → FeedSchedule V
  new_schedule interval start = record {
    interval = interval;
    next_deadline = start;
    future = none;
    active_poll_id = none;
    active_scheduled_for = none;
    active_scheduler_lag = 0;
    active_missed_before_request = 0;
    in_flight_started = none;
    result_pending = false;
    pending_poll_id = none;
    total_submitted = 0;
    total_completed = 0;
    total_missed_deadlines = 0;
    missed_since_last_request = 0;
    last_scheduler_lag = none;
    last_completed = none;
    last_missed = none;
  }

  unfoldable pub new_schedules : ℕ → List (String × ℕ) → Dict String (FeedSchedule V)
  unfolding new_schedule
  new_schedules start [] = []
  new_schedules start ((feed, interval) ∷ rest) =
      (feed, new_schedule interval start) ∷ new_schedules start rest

  -- `__init__`
  unfoldable pub new_scheduler : List (String × ℕ) → ℕ → Scheduler V
  unfolding new_schedules
  new_scheduler intervals start = record {
    schedules = new_schedules start intervals;
    results = [];
    maxsize = length intervals;
    accepting = true;
  }

  -- The item that the first loop of `step` builds for a feed whose request ended.
  unfoldable pub result_item : Reading → String → FeedSchedule V → Outcome V → ScheduledResult V
  result_item r feed st outcome = record {
    feed_name = feed;
    poll_id = from_some "unknown" st.active_poll_id;
    outcome = outcome;
    scheduled_for = from_some r.wall st.active_scheduled_for;
    scheduler_lag = st.active_scheduler_lag;
    missed_deadlines_before_request = st.active_missed_before_request;
  }

  -- The feed's fields after its result moved to `ready`.
  unfoldable pub completed : Reading → FeedSchedule V → FeedSchedule V
  completed r st = record st {
    future = none;
    result_pending = true;
    pending_poll_id = some (from_some "unknown" st.active_poll_id);
    in_flight_started = none;
    total_completed = st.total_completed + 1;
    last_completed = some r.now;
  }

  -- The outcome that the first loop takes: the future is done and no result is pending.
  unfoldable pub harvest : FeedSchedule V → Option (Outcome V)
  harvest st = elim st.future [
    | none ↦ none
    | some f ↦ elim f [
      | running ↦ none
      | done outcome ↦ if st.result_pending then none else some outcome
    ]
  ]

  -- The first loop of `step`: the new schedules and the list `ready`.
  unfoldable pub collect :
      Reading
      → Dict String (FeedSchedule V)
      → Dict String (FeedSchedule V) × List (ScheduledResult V)
  unfolding harvest completed result_item
  collect r [] = ([], [])
  collect r ((feed, st) ∷ rest) =
      let (schedules, ready) = collect r rest in
      elim (harvest st) [
        | none ↦ ((feed, st) ∷ schedules, ready)
        | some outcome ↦ ((feed, completed r st) ∷ schedules, result_item r feed st outcome ∷ ready)
      ]

  -- Where the interval is 0, `step` raises before it is used.
  abbrev pub due_count : ℕ → FeedSchedule V → ℕ
  due_count now st = (now - st.next_deadline) / st.interval + 1

  abbrev pub latest_due : ℕ → FeedSchedule V → ℕ
  latest_due now st = st.next_deadline + (due_count now st - 1) * st.interval

  -- The deadlines that pass without a request of their own.
  unfoldable pub miss : ℕ → ℕ → FeedSchedule V → FeedSchedule V
  miss now count st = record st {
    total_missed_deadlines = st.total_missed_deadlines + count;
    missed_since_last_request = st.missed_since_last_request + count;
    last_missed = some now;
  }

  -- A request for the latest of the due deadlines.
  unfoldable pub submit : Reading → String → ℕ → FeedSchedule V → FeedSchedule V
  submit r feed due st = record st {
    missed_since_last_request = 0;
    active_poll_id = some (r.fresh_id feed);
    active_scheduled_for = some (r.wall - (r.now - due));
    active_scheduler_lag = r.now - due;
    active_missed_before_request = st.missed_since_last_request;
    in_flight_started = some r.now;
    last_scheduler_lag = some (r.now - due);
    total_submitted = st.total_submitted + 1;
    future = some running;
  }

  -- `if coalesced: …`
  unfoldable pub coalesce : ℕ → ℕ → FeedSchedule V → FeedSchedule V
  unfolding miss
  coalesce now count st = if ltb 0 count then miss now count st else st

  -- The second loop of `step`, for a feed with `count` due deadlines, the latest of them `due`.
  unfoldable pub dispatch_due : Reading → String → ℕ → ℕ → FeedSchedule V → FeedSchedule V
  unfolding coalesce submit
  dispatch_due r feed count due st =
      if is_some st.future
      then miss r.now count st
      else submit r feed due (coalesce r.now (count - 1) st)

  -- The second loop of `step`, for one feed.
  unfoldable pub dispatch : Reading → String → FeedSchedule V → FeedSchedule V
  unfolding dispatch_due
  dispatch r feed st =
      let count = due_count r.now st in
      let advanced = record st { next_deadline = st.next_deadline + count * st.interval } in
      if ltb r.now st.next_deadline
      then st
      else dispatch_due r feed count (latest_due r.now st) advanced

  unfoldable pub dispatch_all :
      Reading → Dict String (FeedSchedule V) → Dict String (FeedSchedule V)
  unfolding dispatch
  dispatch_all r [] = []
  dispatch_all r ((feed, st) ∷ rest) = (feed, dispatch r feed st) ∷ dispatch_all r rest

  -- The division of the second loop raises: a feed is due and its interval is 0.
  unfoldable pub divides_by_zero : Reading → FeedSchedule V → Bool
  divides_by_zero r st = leb st.next_deadline r.now && nat_beq st.interval 0

  unfoldable pub any_division : Reading → Dict String (FeedSchedule V) → Bool
  unfolding divides_by_zero
  any_division r [] = false
  any_division r ((feed, st) ∷ rest) = divides_by_zero r st || any_division r rest

  -- `put_nowait` for each item; `none` is `queue.Full`.
  unfoldable pub put_all :
      ℕ → List (ScheduledResult V) → List (ScheduledResult V) → Option (List (ScheduledResult V))
  put_all maxsize queued [] = some queued
  put_all maxsize queued (item ∷ items) =
      let rest = put_all maxsize (queued ++ item ∷ []) items in
      if ltb (length queued) maxsize then rest else none

  -- `step`. `none` is an exception: of the division by an interval of 0, or of a full queue.
  unfoldable pub step : Reading → Scheduler V → Option (Scheduler V)
  unfolding collect any_division dispatch_all put_all
  step r s =
      let (collected, ready) = collect r s.schedules in
      let schedules = if s.accepting then dispatch_all r collected else collected in
      if s.accepting && any_division r collected
      then none
      else Option.map (λ queued. record s { schedules = schedules; results = queued })
          (put_all s.maxsize s.results ready)

  -- `get`: the oldest result, if there is one.
  unfoldable pub get : Scheduler V → Option (ScheduledResult V) × Scheduler V
  get s = elim s.results [ [] ↦ (none, s) | item ∷ rest ↦ (some item, record s { results = rest }) ]

  unfoldable pub release : ScheduledResult V → FeedSchedule V → FeedSchedule V
  release item st =
      if st.result_pending && (st.pending_poll_id == some item.poll_id)
      then record st { result_pending = false; pending_poll_id = none }
      else st

  unfoldable pub release_feed :
      ScheduledResult V → Dict String (FeedSchedule V) → Dict String (FeedSchedule V)
  unfolding release
  release_feed item [] = []
  release_feed item ((feed, st) ∷ rest) =
      let others = release_feed item rest in
      if feed == item.feed_name then (feed, release item st) ∷ rest else (feed, st) ∷ others

  -- `acknowledge`; the items that the queue hands out name feeds of the schedules
  unfoldable pub acknowledge : ScheduledResult V → Scheduler V → Scheduler V
  unfolding release_feed
  acknowledge item s = record s { schedules = release_feed item s.schedules }

  -- A request of the outside ends: its running future becomes done.
  unfoldable pub finish : Outcome V → FeedSchedule V → FeedSchedule V
  finish outcome st = elim st.future [
    | none ↦ st
    | some f ↦ elim f [ running ↦ record st { future = some (done outcome) } | done _ ↦ st ]
  ]

  unfoldable pub finish_feed :
      String → Outcome V → Dict String (FeedSchedule V) → Dict String (FeedSchedule V)
  unfolding finish
  finish_feed name outcome [] = []
  finish_feed name outcome ((feed, st) ∷ rest) =
      let others = finish_feed name outcome rest in
      if feed == name then (feed, finish outcome st) ∷ rest else (feed, st) ∷ others

  unfoldable pub clear_pending : Dict String (FeedSchedule V) → Dict String (FeedSchedule V)
  clear_pending [] = []
  clear_pending ((feed, st) ∷ rest) =
      (feed, record st { result_pending = false; pending_poll_id = none }) ∷ clear_pending rest

  -- `stop_and_drain`, after the executor's shutdown: every future is done.
  unfoldable pub stop_and_drain :
      Reading → Scheduler V → Option (List (ScheduledResult V) × Scheduler V)
  unfolding clear_pending
  stop_and_drain r s =
      Option.map
        (λ (stopped : Scheduler V). (s.results ++ stopped.results, record stopped { results = [] }))
        (step r
          (record s { accepting = false; results = []; schedules = clear_pending s.schedules }))

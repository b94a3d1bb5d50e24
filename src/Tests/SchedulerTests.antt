-- ===== src/Tests/SchedulerTests.antt =====
-- realtime/realtime_scheduler.py with two feeds, polled every 10 and every 30 seconds.
use bkk_collector.Base.{
  ℕ, ◌+◌, ◌<◌, String, true, false, none, some, List, [], ◌∷◌, ◌≡◌, refl, arith, string_eq,
}
use bkk_collector.Scheduler.{
  value, running, done, FeedSchedule, Scheduler, Reading, new_schedule, step, finish_feed, dispatch,
  stop_and_drain,
}
use bkk_collector.Scheduler.System.{System, ticks, finishes, Reach, here, next, start_system}
use bkk_collector.Scheduler.Queue.{stepped, Reach-step}
use bkk_collector.Scheduler.Deadlines.{AllFeeds, IsBalanced, Reach-IsBalanced}
use bkk_collector.Scheduler.Pace.{now-lt-dispatch, dispatch-submits}
use bkk_collector.Scheduler.Drain.{AllIdle, stop_and_drain-all, ended}

abbrev feeds : List (String × ℕ)
feeds = ("positions", 10000) ∷ ("alerts", 30000) ∷ []

abbrev reading : ℕ → Reading
reading now = record { now = now; wall = 1000000 + now; fresh_id = λ feed. feed }

abbrev begun : System ℕ
begun = start_system feeds 5000

abbrev polled : System ℕ
polled = record begun { scheduler = stepped (reading 27000) begun.scheduler }

abbrev answered : System ℕ
answered = record polled {
  scheduler = record polled.scheduler {
    schedules = finish_feed "alerts" (value 7) polled.scheduler.schedules;
  };
}

begun_step : step (reading 27000) begun.scheduler ≡ some polled.scheduler
unfolding start_system step
begun_step = refl

life : Reach begun answered
life =
    next (next here (ticks (reading 27000) polled.scheduler begun_step refl))
      (finishes "alerts" (value 7) refl)

Reach-step_example :
    step (reading 28000) answered.scheduler ≡ some (stepped (reading 28000) answered.scheduler)
Reach-step_example =
    Reach-step feeds 5000 answered (reading 28000) (omega arith, (omega arith, tt)) life

Reach-IsBalanced_example : AllFeeds (IsBalanced 5000) answered.scheduler.schedules
Reach-IsBalanced_example = Reach-IsBalanced ℕ feeds 5000 answered life

abbrev idle : FeedSchedule ℕ
idle = new_schedule 10000 5000

abbrev busy : FeedSchedule ℕ
busy = record idle { future = some running; total_submitted = 1; next_deadline = 15000 }

now-lt-dispatch_example : 27000 < (dispatch (reading 27000) "positions" idle).next_deadline
unfolding new_schedule
now-lt-dispatch_example = now-lt-dispatch (reading 27000) "positions" idle (omega arith)

two_missed : (dispatch (reading 27000) "positions" idle).total_missed_deadlines ≡ 2
unfolding dispatch new_schedule
two_missed = refl

dispatch-submits_example : (dispatch (reading 27000) "positions" idle).active_scheduler_lag < 10000
unfolding new_schedule
dispatch-submits_example =
    (dispatch-submits (reading 27000) "positions" idle (omega arith) (omega arith) refl).3

abbrev closing : Scheduler ℕ
closing = record {
  schedules =
      ("positions", record busy { future = some (done (value 3)) })
      ∷ ("alerts", record idle { result_pending = true })
      ∷ [];
  results = [];
  maxsize = 2;
  accepting = true;
}

stop_and_drain-all_example :
    (t : Scheduler ℕ) × (stop_and_drain (reading 27000) closing
      ≡ some (ended (reading 27000) closing.schedules, t))
    × AllIdle t.schedules
    × (t.results ≡ [])
    × (t.accepting ≡ false)
unfolding new_schedule
stop_and_drain-all_example =
    stop_and_drain-all (reading 27000) closing ((λ e. cc), ((λ e. cc), tt)) refl

-- An interval of 0 raises as soon as the feed is due.
divides : step {V = ℕ} (reading 27000) (start_system (("positions", 0) ∷ []) 5000).scheduler ≡ none
unfolding step start_system
divides = refl

-- ===== src/Scheduler/Drain.antt =====
-- realtime/realtime_scheduler.py, `stop_and_drain`: no result is lost at shutdown.
use bkk_collector.Base.{
  ◌≤◌, String, false, none, some, List, [], ◌∷◌, ◌++◌, ◌≡◌, ◌≢◌, refl, arith, length,
}
use bkk_collector.Base.Dict.{Dict}
use bkk_collector.Scheduler.{
  running, done, FeedSchedule, ScheduledResult, Scheduler, Reading, collect, clear_pending,
  stop_and_drain, result_item,
}
use bkk_collector.Scheduler.Queue.{stepped, step-fits}

module _ {V : Type 0} where
  -- The results of the requests that have ended, in the order of the feeds.
  abbrev pub ended : Reading → Dict String (FeedSchedule V) → List (ScheduledResult V)
  ended r [] = []
  ended r ((feed, st) ∷ rest) = elim st.future [
    | none ↦ ended r rest
    | some f ↦ elim f [
      | running ↦ ended r rest
      | done outcome ↦ result_item r feed st outcome ∷ ended r rest
    ]
  ]

  -- After `executor.shutdown(wait=True)` no request runs.
  abbrev pub AllEnded : Dict String (FeedSchedule V) → Type 0
  AllEnded [] = Unit
  AllEnded ((feed, st) ∷ rest) = (st.future ≢ some running) × AllEnded rest

  abbrev pub AllIdle : Dict String (FeedSchedule V) → Type 0
  AllIdle [] = Unit
  AllIdle ((feed, st) ∷ rest) = (st.future ≡ none) × AllIdle rest

  collect-cleared :
      (r : Reading) (d : Dict String (FeedSchedule V))
      → AllEnded d
      → ((collect r (clear_pending d)).1 ≡ ended r d)
        × AllIdle (collect r (clear_pending d)).0
        × (length (collect r (clear_pending d)).1 ≤ length d)
  unfolding collect clear_pending
  collect-cleared r [] h = (refl, tt, omega arith)
  collect-cleared r ((feed, st) ∷ rest) (h, hs) = ground (arith, collect-cleared r rest hs)

  -- Once every request has ended, a drain succeeds and hands out each queued result, oldest first,
  -- and then the result of every request that was still open, a result pending or not; afterwards
  -- no request is open, the queue is empty and no deadline is served any more.
  pub stop_and_drain-all :
      (r : Reading) (s : Scheduler V)
      → AllEnded s.schedules
      → s.maxsize ≡ length s.schedules
      → (t : Scheduler V) × (stop_and_drain r s ≡ some (s.results ++ ended r s.schedules, t))
        × AllIdle t.schedules
        × (t.results ≡ [])
        × (t.accepting ≡ false)
  unfolding stop_and_drain
  stop_and_drain-all r s h size =
      let cleared : Scheduler V = record s {
        accepting = false;
        results = [];
        schedules = clear_pending s.schedules;
      } in
      let (ready, idle, count) = collect-cleared r s.schedules h in
      (
        record (stepped r cleared) { results = [] },
        rw (step-fits r cleared (omega arith) refl, ready),
        idle,
        refl,
        refl,
      )

-- ===== src/Scheduler/Deadlines.antt =====
-- realtime/realtime_scheduler.py: the accounting of deadlines and of requests.
use bkk_collector.Base.{
  ℕ, ◌+◌, ◌*◌, ◌≤◌, ◌<◌, String, some, List, [], ◌∷◌, ◌≡◌, arith, if◌then◌else◌, is_some, ltb,
  Bool-cases, Option-cases, inl, inr, ◌==◌, string_eq,
}
use bkk_collector.Base.Dict.{Dict}
use bkk_collector.Scheduler.{
  Outcome, FeedSchedule, ScheduledResult, Scheduler, Reading, new_schedules, harvest, completed,
  collect, dispatch, dispatch_due, dispatch_all, step, get, release, release_feed, acknowledge,
  finish, finish_feed, due_count, latest_due,
}
use bkk_collector.Scheduler.System.{
  System, Move, ticks, finishes, takes, acknowledges, Reach, start_system, Reach-induction,
}
use bkk_collector.Scheduler.Queue.{after_collect}

module _ {V : Type 0} where
  abbrev pub in_flight : FeedSchedule V → ℕ
  in_flight st = if is_some st.future then 1 else 0

  -- The books of one feed: every deadline up to the next one was given to a request or counted as
  -- missed, and every request has ended but the one in flight.
  pub record IsBalanced (start : ℕ) (st : FeedSchedule V) : Type 0 where
    pub deadlines :
        st.next_deadline ≡ start + (st.total_submitted + st.total_missed_deadlines) * st.interval
    pub requests : st.total_submitted ≡ st.total_completed + in_flight st
    pub misses : st.missed_since_last_request ≤ st.total_missed_deadlines

  completed-IsBalanced :
      (start : ℕ) (r : Reading) (st : FeedSchedule V) (outcome : Outcome V)
      → harvest st ≡ some outcome
      → IsBalanced start st
      → IsBalanced start (completed r st)
  unfolding completed harvest
  completed-IsBalanced start r st outcome e h = ground arith

  -- What `count` due deadlines do to the books.
  dispatch_due_books :
      (r : Reading) (feed : String) (count due : ℕ) (st : FeedSchedule V)
      → 0 < count
      → let after = dispatch_due r feed count due st in
        (after.total_submitted + after.total_missed_deadlines
          ≡ st.total_submitted + st.total_missed_deadlines + count)
        × (after.next_deadline ≡ st.next_deadline)
        × (after.interval ≡ st.interval)
        × (after.total_completed ≡ st.total_completed)
        × (after.total_submitted + in_flight st ≡ st.total_submitted + in_flight after)
        × (after.missed_since_last_request + st.total_missed_deadlines
            ≤ after.total_missed_deadlines + st.missed_since_last_request)
  unfolding dispatch_due
  dispatch_due_books r feed count due st h = ground arith

  books_kept :
      (start count : ℕ) (st after : FeedSchedule V)
      → after.total_submitted + after.total_missed_deadlines
        ≡ st.total_submitted + st.total_missed_deadlines + count
      → after.next_deadline ≡ st.next_deadline + count * st.interval
      → after.interval ≡ st.interval
      → after.total_completed ≡ st.total_completed
      → after.total_submitted + in_flight st ≡ st.total_submitted + in_flight after
      → after.missed_since_last_request + st.total_missed_deadlines
        ≤ after.total_missed_deadlines + st.missed_since_last_request
      → IsBalanced start st
      → IsBalanced start after
  books_kept start count st after total next same completed flight missed h = record {
    deadlines = rw (total, next, same, h.deadlines) (omega arith);
    requests = omega (arith, h.requests);
    misses = omega (arith, h.misses);
  }

  dispatch-IsBalanced :
      (start : ℕ) (r : Reading) (feed : String) (st : FeedSchedule V)
      → IsBalanced start st
      → IsBalanced start (dispatch r feed st)
  unfolding dispatch
  dispatch-IsBalanced start r feed st h = elim (Bool-cases (ltb r.now st.next_deadline)) [
    | inl early ↦ rw early h
    | inr late ↦
        let count = due_count r.now st in
        let (total, next, same, ended, flight, missed) =
          dispatch_due_books r feed count (latest_due r.now st)
            (record st { next_deadline = st.next_deadline + count * st.interval }) (omega arith) in
        rw late (
          books_kept start count st
            (dispatch_due r feed count (latest_due r.now st)
              (record st { next_deadline = st.next_deadline + count * st.interval }))
            total next same ended flight missed h)
  ]

  finish-IsBalanced :
      (start : ℕ) (outcome : Outcome V) (st : FeedSchedule V)
      → IsBalanced start st
      → IsBalanced start (finish outcome st)
  unfolding finish
  finish-IsBalanced start outcome st h = ground arith

  release-IsBalanced :
      (start : ℕ) (item : ScheduledResult V) (st : FeedSchedule V)
      → IsBalanced start st
      → IsBalanced start (release item st)
  unfolding release
  release-IsBalanced start item st h = ground arith

  -- A property of every feed's schedule is kept by each operation that keeps it for one feed.
  abbrev pub AllFeeds : (FeedSchedule V → Type 0) → Dict String (FeedSchedule V) → Type 0
  AllFeeds P [] = Unit
  AllFeeds P ((feed, st) ∷ rest) = P st × AllFeeds P rest

  AllFeeds-collect :
      (start : ℕ) (r : Reading) (d : Dict String (FeedSchedule V))
      → AllFeeds (IsBalanced start) d
      → AllFeeds (IsBalanced start) (collect r d).0
  unfolding collect
  AllFeeds-collect start r [] h = tt
  AllFeeds-collect start r ((feed, st) ∷ rest) (h, hs) = elim (Option-cases (harvest st)) [
    | inl e ↦ rw (e, collect) (h, AllFeeds-collect start r rest hs)
    | inr (outcome, e) ↦
        rw (e, collect)
          (completed-IsBalanced start r st outcome e h, AllFeeds-collect start r rest hs)
  ]

  AllFeeds-dispatch_all :
      (start : ℕ) (r : Reading) (d : Dict String (FeedSchedule V))
      → AllFeeds (IsBalanced start) d
      → AllFeeds (IsBalanced start) (dispatch_all r d)
  unfolding dispatch_all
  AllFeeds-dispatch_all start r [] h = tt
  AllFeeds-dispatch_all start r ((feed, st) ∷ rest) (h, hs) =
      (dispatch-IsBalanced start r feed st h, AllFeeds-dispatch_all start r rest hs)

  AllFeeds-finish_feed :
      (start : ℕ) (name : String) (outcome : Outcome V) (d : Dict String (FeedSchedule V))
      → AllFeeds (IsBalanced start) d
      → AllFeeds (IsBalanced start) (finish_feed name outcome d)
  unfolding finish_feed
  AllFeeds-finish_feed start name outcome [] h = tt
  AllFeeds-finish_feed start name outcome ((feed, st) ∷ rest) (h, hs) =
      elim (Bool-cases (feed == name)) [
        | inl e ↦ rw e (finish-IsBalanced start outcome st h, hs)
        | inr e ↦ rw e (h, AllFeeds-finish_feed start name outcome rest hs)
      ]

  AllFeeds-release_feed :
      (start : ℕ) (item : ScheduledResult V) (d : Dict String (FeedSchedule V))
      → AllFeeds (IsBalanced start) d
      → AllFeeds (IsBalanced start) (release_feed item d)
  unfolding release_feed
  AllFeeds-release_feed start item [] h = tt
  AllFeeds-release_feed start item ((feed, st) ∷ rest) (h, hs) =
      elim (Bool-cases (feed == item.feed_name)) [
        | inl e ↦ rw e (release-IsBalanced start item st h, hs)
        | inr e ↦ rw e (h, AllFeeds-release_feed start item rest hs)
      ]

  AllFeeds-after_collect :
      (start : ℕ) (r : Reading) (s : Scheduler V)
      → AllFeeds (IsBalanced start) s.schedules
      → AllFeeds (IsBalanced start) (after_collect r s)
  AllFeeds-after_collect start r s h = elim (Bool-cases s.accepting) [
    | inl e ↦ rw e (
        AllFeeds-dispatch_all start r (collect r s.schedules).0
          (AllFeeds-collect start r s.schedules h))
    | inr e ↦ rw e (AllFeeds-collect start r s.schedules h)
  ]

  pub step-schedules :
      (r : Reading) (s t : Scheduler V) → step r s ≡ some t → t.schedules ≡ after_collect r s
  unfolding step
  step-schedules r s t e = ground arith

  get-schedules : (s : Scheduler V) → (get s).1.schedules ≡ s.schedules
  unfolding get
  get-schedules s = ground arith

  Move-AllFeeds :
      (start : ℕ) (a b : System V)
      → Move a b
      → AllFeeds (IsBalanced start) a.scheduler.schedules
      → AllFeeds (IsBalanced start) b.scheduler.schedules
  unfolding acknowledge
  Move-AllFeeds start a b (ticks r s e eb) h =
      rw (eb, step-schedules r a.scheduler s e) (AllFeeds-after_collect start r a.scheduler h)
  Move-AllFeeds start a b (finishes feed outcome eb) h =
      rw eb (AllFeeds-finish_feed start feed outcome a.scheduler.schedules h)
  Move-AllFeeds start a b (takes item free e eb) h = rw (eb, get-schedules a.scheduler) h
  Move-AllFeeds start a b (acknowledges item e eb) h =
      rw eb (AllFeeds-release_feed start item a.scheduler.schedules h)

module _ (V : Type 0) where
  new_schedules-AllFeeds :
      (start : ℕ) (intervals : List (String × ℕ))
      → AllFeeds {V = V} (IsBalanced start) (new_schedules start intervals)
  unfolding new_schedules
  new_schedules-AllFeeds start [] = tt
  new_schedules-AllFeeds start ((feed, interval) ∷ rest) =
      (omega arith, new_schedules-AllFeeds start rest)

  start-AllFeeds :
      (intervals : List (String × ℕ)) (start : ℕ)
      → AllFeeds {V = V} (IsBalanced start) (start_system intervals start).scheduler.schedules
  unfolding start_system
  start-AllFeeds intervals start = new_schedules-AllFeeds start intervals

  -- In every reachable state each feed's books balance: the next deadline is the first one plus an
  -- interval for each request submitted and each deadline counted as missed, no deadline twice and
  -- none forgotten; and every request submitted has completed, but for one while it is in flight.
  pub Reach-IsBalanced :
      (intervals : List (String × ℕ)) (start : ℕ) (a : System V)
      → Reach (start_system intervals start) a
      → AllFeeds (IsBalanced start) a.scheduler.schedules
  Reach-IsBalanced intervals start a reach =
      Reach-induction (λ b. AllFeeds (IsBalanced start) b.scheduler.schedules) (Move-AllFeeds start)
        (start-AllFeeds intervals start) reach

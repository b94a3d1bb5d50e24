-- ===== src/Scheduler/Queue.antt =====
-- realtime/realtime_scheduler.py: the bounded result queue is never full when `step` puts into it.
use bkk_collector.Base.{
  ℕ, ◌+◌, ◌≤◌, ◌<◌, suc, String, false, ◌&&◌, All, Bool-cases, inl, inr, Option, none, some, List,
  [], ◌∷◌, ◌++◌, ◌≡◌, refl, arith, if◌then◌else◌, length, length-append, string_eq, append-nil,
  append_assoc, ap, sym, ◌∙◌,
}
use mathlib.Core.Option.{some-injective}
use bkk_collector.Base.Dict.{Dict}
use bkk_collector.Scheduler.{
  Outcome, FeedSchedule, ScheduledResult, Scheduler, Reading, new_schedules, collect, dispatch,
  dispatch_all, any_division, put_all, step, get, release_feed, acknowledge, finish_feed,
}
use bkk_collector.Scheduler.System.{
  System, Move, ticks, finishes, takes, acknowledges, Reach, start_system, Reach-induction,
}

length-new_schedules :
    (V : Type 0) (start : ℕ) (intervals : List (String × ℕ))
    → length (new_schedules {V = V} start intervals) ≡ length intervals
unfolding new_schedules
length-new_schedules V start [] = refl
length-new_schedules V start ((feed, interval) ∷ rest) = ap suc (length-new_schedules V start rest)

module _ {V : Type 0} where
  abbrev pub pending_count : FeedSchedule V → ℕ
  pending_count st = if st.result_pending then 1 else 0

  -- How many feeds wait for an acknowledgement.
  abbrev pub pending_total : Dict String (FeedSchedule V) → ℕ
  pending_total [] = 0
  pending_total ((feed, st) ∷ rest) = pending_count st + pending_total rest

  pending_total-le-length : (d : Dict String (FeedSchedule V)) → pending_total d ≤ length d
  pending_total-le-length [] = omega arith
  pending_total-le-length ((feed, st) ∷ rest) = ground (arith, pending_total-le-length rest)

  pub pending_total-collect :
      (r : Reading) (d : Dict String (FeedSchedule V))
      → (pending_total (collect r d).0 ≡ pending_total d + length (collect r d).1)
        × (length (collect r d).0 ≡ length d)
  unfolding collect
  pending_total-collect r [] = omega arith
  pending_total-collect r ((feed, st) ∷ rest) = ground (arith, pending_total-collect r rest)

  dispatch-pending :
      (r : Reading) (feed : String) (st : FeedSchedule V)
      → (dispatch r feed st).result_pending ≡ st.result_pending
  unfolding dispatch
  dispatch-pending r feed st = ground arith

  pending_total-dispatch_all :
      (r : Reading) (d : Dict String (FeedSchedule V))
      → (pending_total (dispatch_all r d) ≡ pending_total d)
        × (length (dispatch_all r d) ≡ length d)
  unfolding dispatch_all
  pending_total-dispatch_all r [] = omega arith
  pending_total-dispatch_all r ((feed, st) ∷ rest) =
      ground (arith, pending_total-dispatch_all r rest, dispatch-pending r feed st)

  pending_total-release_feed :
      (item : ScheduledResult V) (d : Dict String (FeedSchedule V))
      → (pending_total d ≤ pending_total (release_feed item d) + 1)
        × (length (release_feed item d) ≡ length d)
  unfolding release_feed
  pending_total-release_feed item [] = omega arith
  pending_total-release_feed item ((feed, st) ∷ rest) =
      ground (arith, pending_total-release_feed item rest)

  pending_total-finish_feed :
      (name : String) (outcome : Outcome V) (d : Dict String (FeedSchedule V))
      → (pending_total (finish_feed name outcome d) ≡ pending_total d)
        × (length (finish_feed name outcome d) ≡ length d)
  unfolding finish_feed
  pending_total-finish_feed name outcome [] = omega arith
  pending_total-finish_feed name outcome ((feed, st) ∷ rest) =
      ground (arith, pending_total-finish_feed name outcome rest)

  pub put_all-fits :
      (maxsize : ℕ) (queued items : List (ScheduledResult V))
      → length queued + length items ≤ maxsize
      → put_all maxsize queued items ≡ some (queued ++ items)
  unfolding put_all
  put_all-fits maxsize queued [] h = rw append-nil
  put_all-fits maxsize queued (item ∷ items) h =
      let fits : length (queued ++ item ∷ []) + length items ≤ maxsize =
        omega (arith, length-append queued (item ∷ [])) in
      ground (
        arith,
        put_all-fits maxsize (queued ++ item ∷ []) items fits,
        append_assoc queued (item ∷ []) items,
      )

  abbrev pub held_count : Option (ScheduledResult V) → ℕ
  held_count none = 0
  held_count (some item) = 1

  abbrev pub after_collect : Reading → Scheduler V → Dict String (FeedSchedule V)
  after_collect r s =
      if s.accepting then dispatch_all r (collect r s.schedules).0 else (collect r s.schedules).0

  -- What `step` leads to where the results fit: they are appended to the queue.
  abbrev pub stepped : Reading → Scheduler V → Scheduler V
  stepped r s = record s {
    schedules = after_collect r s;
    results = s.results ++ (collect r s.schedules).1;
  }

  pub step-fits :
      (r : Reading) (s : Scheduler V)
      → length s.results + length (collect r s.schedules).1 ≤ s.maxsize
      → (s.accepting && any_division r (collect r s.schedules).0) ≡ false
      → step r s ≡ some (stepped r s)
  unfolding step
  step-fits r s h divides =
      rw (divides, put_all-fits s.maxsize s.results (collect r s.schedules).1 h) refl

  -- Every feed has a positive interval.
  abbrev pub ArePositive : Dict String (FeedSchedule V) → Type 0
  ArePositive [] = Unit
  ArePositive ((feed, st) ∷ rest) = (0 < st.interval) × ArePositive rest

  any_division-ArePositive :
      (r : Reading) (d : Dict String (FeedSchedule V)) → ArePositive d → any_division r d ≡ false
  unfolding any_division
  any_division-ArePositive r [] h = refl
  any_division-ArePositive r ((feed, st) ∷ rest) (h, hs) =
      ground (arith, any_division-ArePositive r rest hs, h)

  ArePositive-collect :
      (r : Reading) (d : Dict String (FeedSchedule V)) → ArePositive d → ArePositive (collect r d).0
  unfolding collect
  ArePositive-collect r [] h = tt
  ArePositive-collect r ((feed, st) ∷ rest) (h, hs) =
      ground (arith, ArePositive-collect r rest hs, h)

  dispatch-interval :
      (r : Reading) (feed : String) (st : FeedSchedule V)
      → (dispatch r feed st).interval ≡ st.interval
  unfolding dispatch
  dispatch-interval r feed st = ground arith

  ArePositive-dispatch_all :
      (r : Reading) (d : Dict String (FeedSchedule V))
      → ArePositive d
      → ArePositive (dispatch_all r d)
  unfolding dispatch_all
  ArePositive-dispatch_all r [] h = tt
  ArePositive-dispatch_all r ((feed, st) ∷ rest) (h, hs) =
      (rw (dispatch-interval r feed st) h, ArePositive-dispatch_all r rest hs)

  ArePositive-release_feed :
      (item : ScheduledResult V) (d : Dict String (FeedSchedule V))
      → ArePositive d
      → ArePositive (release_feed item d)
  unfolding release_feed
  ArePositive-release_feed item [] h = tt
  ArePositive-release_feed item ((feed, st) ∷ rest) (h, hs) =
      ground (arith, ArePositive-release_feed item rest hs, h, hs)

  ArePositive-finish_feed :
      (name : String) (outcome : Outcome V) (d : Dict String (FeedSchedule V))
      → ArePositive d
      → ArePositive (finish_feed name outcome d)
  unfolding finish_feed
  ArePositive-finish_feed name outcome [] h = tt
  ArePositive-finish_feed name outcome ((feed, st) ∷ rest) (h, hs) =
      ground (arith, ArePositive-finish_feed name outcome rest hs, h, hs)

  ArePositive-new_schedules :
      (start : ℕ) (intervals : List (String × ℕ)) (d : Dict String (FeedSchedule V))
      → d ≡ new_schedules start intervals
      → All (λ (x : String × ℕ). 0 < x.1) intervals
      → ArePositive d
  unfolding new_schedules
  ArePositive-new_schedules start [] d e h = rw e tt
  ArePositive-new_schedules start ((feed, interval) ∷ rest) d e (h, hs) =
      rw e (h, ArePositive-new_schedules start rest (new_schedules start rest) refl hs)

  ArePositive-after_collect :
      (r : Reading) (s : Scheduler V) → ArePositive s.schedules → ArePositive (after_collect r s)
  ArePositive-after_collect r s h =
      let collected = ArePositive-collect r s.schedules h in
      elim (Bool-cases s.accepting) [
        | inl e ↦ rw e (ArePositive-dispatch_all r (collect r s.schedules).0 collected)
        | inr e ↦ rw e collected
      ]

  -- Every result that is queued or held belongs to a feed that waits for its acknowledgement.
  pub record IsBounded (a : System V) : Type 0 where
    pub owned : length a.scheduler.results + held_count a.held ≤ pending_total a.scheduler.schedules
    pub sized : a.scheduler.maxsize ≡ length a.scheduler.schedules
    pub positive : ArePositive a.scheduler.schedules

  after_collect_size :
      (r : Reading) (s : Scheduler V)
      → (pending_total (after_collect r s)
          ≡ pending_total s.schedules + length (collect r s.schedules).1)
        × (length (after_collect r s) ≡ length s.schedules)
  after_collect_size r s = ground (
    arith,
    pending_total-collect r s.schedules,
    pending_total-dispatch_all r (collect r s.schedules).0,
  )

  fits_of_IsBounded :
      (r : Reading) (a : System V)
      → IsBounded a
      → length a.scheduler.results + length (collect r a.scheduler.schedules).1
        ≤ a.scheduler.maxsize
  fits_of_IsBounded r a h = omega (
    arith,
    h.owned,
    h.sized,
    pending_total-collect r a.scheduler.schedules,
    pending_total-le-length (collect r a.scheduler.schedules).0,
  )

  stepped-IsBounded :
      (r : Reading) (a : System V)
      → IsBounded a
      → IsBounded (record a { scheduler = stepped r a.scheduler })
  stepped-IsBounded r a h = record {
    owned = omega (
      arith,
      h.owned,
      length-append a.scheduler.results (collect r a.scheduler.schedules).1,
      after_collect_size r a.scheduler,
    );
    sized = omega (arith, h.sized, after_collect_size r a.scheduler);
    positive = ArePositive-after_collect r a.scheduler h.positive;
  }

  IsBounded-step :
      (r : Reading) (a : System V) → IsBounded a → step r a.scheduler ≡ some (stepped r a.scheduler)
  IsBounded-step r a h =
      let divides =
        any_division-ArePositive r (collect r a.scheduler.schedules).0
          (ArePositive-collect r a.scheduler.schedules h.positive) in
      step-fits r a.scheduler (fits_of_IsBounded r a h) (ground (arith, divides))

  Move-IsBounded : (a b : System V) → Move a b → IsBounded a → IsBounded b
  unfolding get acknowledge
  Move-IsBounded a b (ticks r s e eb) h =
      let same : some (stepped r a.scheduler) ≡ some s = sym (IsBounded-step r a h) ∙ e in
      rw (eb, ← some-injective (stepped r a.scheduler) s same) (stepped-IsBounded r a h)
  Move-IsBounded a b (finishes feed outcome eb) h = rw eb (record {
    owned = omega (arith, h.owned, pending_total-finish_feed feed outcome a.scheduler.schedules);
    sized = omega (arith, h.sized, pending_total-finish_feed feed outcome a.scheduler.schedules);
    positive = ArePositive-finish_feed feed outcome a.scheduler.schedules h.positive;
  })
  Move-IsBounded a b (takes item free e eb) h = rw eb (ground arith)
  Move-IsBounded a b (acknowledges item e eb) h = rw eb (
      ground (
        arith,
        pending_total-release_feed item a.scheduler.schedules,
        ArePositive-release_feed item a.scheduler.schedules h.positive,
      ))

  start-IsBounded :
      (intervals : List (String × ℕ)) (start : ℕ)
      → All (λ (x : String × ℕ). 0 < x.1) intervals
      → IsBounded (start_system intervals start)
  unfolding start_system
  start-IsBounded intervals start positive = record {
    owned = omega arith;
    sized = sym (length-new_schedules V start intervals);
    positive =
        ArePositive-new_schedules start intervals (new_schedules start intervals) refl positive;
  }

  -- From a fresh scheduler whose intervals are positive, whatever the clocks, the ends of requests
  -- and the takes and acknowledgements of its user, `step` always succeeds: no division by an
  -- interval raises and no result meets a full queue. It appends the results that are ready, in the
  -- order of the feeds, and drops none that was queued.
  pub Reach-step :
      (intervals : List (String × ℕ)) (start : ℕ) (a : System V) (r : Reading)
      → All (λ (x : String × ℕ). 0 < x.1) intervals
      → Reach (start_system intervals start) a
      → step r a.scheduler ≡ some (stepped r a.scheduler)
  Reach-step intervals start a r positive reach =
      IsBounded-step r a
        (Reach-induction IsBounded Move-IsBounded (start-IsBounded intervals start positive) reach)

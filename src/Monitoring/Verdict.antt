-- ===== src/Monitoring/Verdict.antt =====
-- monitoring.py, what `write_status` calls healthy.
use bkk_collector.Base.{
  ℕ, ◌*◌, ◌+◌, ◌≤◌, ◌≡◌, ◌≢◌, ◌↔◌, refl, arith, max, String, Bool, true, false, not, ◌&&◌, Option,
  none, some, List, [], ◌∷◌, ◌++◌, ltb, from_some, string_eq, All, is_empty, ◌⊎◌, inr,
}
use bkk_collector.Base.Int.{ℤ, neg_part}
use bkk_collector.Base.Dict.{Dict, lookup}
use bkk_collector.Monitoring.Feeds.{Flag, is_warning, FeedHealth, Success, Limits, feed_names}
use bkk_collector.Monitoring.Status.{
  is_false, FeedSnapshot, Surroundings, Reason, reason_if, no_health, interval_of, is_absent,
  is_overdue, exceeds, schedule_part, ten_minutes, worker_reasons, schedule_reasons, flagged_as,
  feed_reasons, surrounding_reasons, all_reasons, write_status,
}

abbrev pub AtMost : ℕ → Option ℕ → Type 0
AtMost limit none = Unit
AtMost limit (some x) = x ≤ limit

-- The next deadline is not more than an interval ago.
abbrev pub Served : ℕ → Option ℤ → Type 0
Served interval none = Unit
Served interval (some due) = neg_part due ≤ interval

-- Without an interval there is nothing to keep; else the request in flight is not stuck and the
-- next deadline is served.
pub record OnTime (schedule : FeedSnapshot) : Type 0 where
  pub answers :
      (schedule.interval ≡ 0) ⊎ AtMost (max (schedule.interval * 3) 60000) schedule.in_flight
  pub serves : (schedule.interval ≡ 0) ⊎ Served schedule.interval schedule.next_deadline_in

abbrev pub Recent : Limits → ℕ → ℕ → Option Success → Type 0
Recent limits now interval none = ⊥
Recent limits now interval (some s) = now ≤ s.now + max limits.absent (interval * 3)

abbrev pub Works : Option (Bool × ℕ) → Type 0
Works none = Unit
Works (some (alive, active)) = (alive ≡ true) × (active ≤ ten_minutes)

abbrev pub Scheduled : Option FeedSnapshot → Type 0
Scheduled none = Unit
Scheduled (some schedule) = OnTime schedule

-- A feed that gives no reason: a recent success, no failure since, its polls in the journal, no
-- flag but warnings, and a schedule that is kept.
pub record IsWell (limits : Limits) (now : ℕ) (state : FeedHealth) (schedule : Option FeedSnapshot)
    : Type 0 where
  pub recent : Recent limits now (interval_of schedule) state.last_success
  pub answered : state.consecutive_failures ≡ 0
  pub journal : state.poll_journal_ok ≢ some false
  pub flags : All (λ f. is_warning f ≡ true) state.freshness_flags
  pub scheduled : Scheduled schedule

-- Room on the disk, no error of the cycle, and a worker that runs and is not stuck, if there is
-- one.
pub record IsSound (env : Surroundings) : Type 0 where
  pub room : (env.disk_critical_below ≤ env.disk_free) × (env.disk_warn ≤ env.disk_free)
  pub flushed : env.flush_errors ≡ []
  pub cycle : env.cycle_errors ≡ []
  pub works : Works env.worker

is_empty-append : {A : Type 0} (xs ys : List A) → is_empty (xs ++ ys) ≡ (is_empty xs && is_empty ys)
is_empty-append [] ys = refl
is_empty-append (x ∷ xs) ys = refl

is_empty-reason_if : (b : Bool) (r : Reason) → is_empty (reason_if b r) ≡ not b
is_empty-reason_if true r = refl
is_empty-reason_if false r = refl

is_empty-flagged_as :
    (feed : String) (flags : List Flag)
    → (is_empty (flagged_as feed (λ f. not (is_warning f)) flags) ≡ true)
      ↔ All (λ f. is_warning f ≡ true) flags
unfolding flagged_as
is_empty-flagged_as feed [] = (λ h. tt, λ h. refl)
is_empty-flagged_as feed (f ∷ flags) = (
  λ h. ground (arith, is_empty-flagged_as feed flags, is_warning f),
  λ (h, hs). ground (arith, (is_empty-flagged_as feed flags).1 hs),
)

is_absent_iff :
    (limits : Limits) (now interval : ℕ) (last : Option Success)
    → (is_absent limits now interval last ≡ false) ↔ Recent limits now interval last
unfolding is_absent
is_absent_iff limits now interval none = (λ h. cc h, λ h. absurd h)
is_absent_iff limits now interval (some s) = (λ h. ground arith, λ h. ground arith)

is_overdue_iff :
    (interval : ℕ) (due : Option ℤ)
    → (is_overdue interval due ≡ false) ↔ ((interval ≡ 0) ⊎ Served interval due)
unfolding is_overdue
is_overdue_iff interval none = (λ h. inr tt, λ h. refl)
is_overdue_iff interval (some due) = (λ h. ground arith, λ h. ground arith)

exceeds_iff :
    (interval limit : ℕ) (t : Option ℕ)
    → ((ltb 0 interval && exceeds limit t) ≡ false) ↔ ((interval ≡ 0) ⊎ AtMost limit t)
exceeds_iff interval limit none = (λ h. inr tt, λ h. ground arith)
exceeds_iff interval limit (some x) = (λ h. ground arith, λ h. ground arith)

schedule_reasons_iff :
    (feed : String) (schedule : Option FeedSnapshot)
    → (is_empty (schedule_part (schedule_reasons feed) schedule) ≡ true) ↔ Scheduled schedule
unfolding schedule_reasons
schedule_reasons_iff feed none = (λ h. tt, λ h. refl)
schedule_reasons_iff feed (some schedule) =
    let limit = max (schedule.interval * 3) 60000 in
    let stuck = exceeds_iff schedule.interval limit schedule.in_flight in
    let overdue = is_overdue_iff schedule.interval schedule.next_deadline_in in
    (
      λ h. record { answers = stuck.0 (ground arith); serves = overdue.0 (ground arith) },
      λ h. ground (arith, stuck.1 h.answers, overdue.1 h.serves),
    )

worker_reasons_iff :
    (worker : Option (Bool × ℕ)) → (is_empty (worker_reasons worker) ≡ true) ↔ Works worker
worker_reasons_iff none = (λ h. tt, λ h. refl)
worker_reasons_iff (some (alive, active)) = (λ h. ground arith, λ h. ground arith)

is_empty_iff : {A : Type 0} (xs : List A) → (is_empty xs ≡ true) ↔ (xs ≡ [])
is_empty_iff [] = (λ h. refl, λ h. refl)
is_empty_iff (x ∷ xs) = (λ h. cc h, λ h. cc h)

is_false_iff : (o : Option Bool) → (is_false o ≡ false) ↔ (o ≢ some false)
is_false_iff none = (λ h e. cc e, λ h. refl)
is_false_iff (some true) = (λ h e. cc e, λ h. refl)
is_false_iff (some false) = (λ h. cc h, λ h. absurd (h refl))

surrounding_reasons_parts :
    (env : Surroundings)
    → is_empty (surrounding_reasons env) ≡ (
        not (ltb env.disk_free env.disk_critical_below)
        && not (ltb env.disk_free env.disk_warn)
        && is_empty env.flush_errors
        && is_empty env.cycle_errors
        && is_empty (worker_reasons env.worker))
unfolding surrounding_reasons
surrounding_reasons_parts env = ground arith

surrounding_reasons_iff :
    (env : Surroundings) → (is_empty (surrounding_reasons env) ≡ true) ↔ IsSound env
surrounding_reasons_iff env =
    let parts = surrounding_reasons_parts env in
    let flush = is_empty_iff env.flush_errors in
    let cycle = is_empty_iff env.cycle_errors in
    let works = worker_reasons_iff env.worker in
    (
      λ h. record {
        room = (ground arith, ground arith);
        flushed = flush.0 (ground arith);
        cycle = cycle.0 (ground arith);
        works = works.0 (ground arith);
      },
      λ h. ground (arith, flush.1 h.flushed, cycle.1 h.cycle, works.1 h.works, h.room),
    )

feed_reasons_parts :
    (limits : Limits) (now : ℕ) (feed : String) (state : FeedHealth)
    (schedule : Option FeedSnapshot)
    → is_empty (feed_reasons limits now feed state schedule) ≡ (
        not (is_absent limits now (interval_of schedule) state.last_success)
        && not (ltb 0 state.consecutive_failures)
        && not (is_false state.poll_journal_ok)
        && is_empty (flagged_as feed (λ f. not (is_warning f)) state.freshness_flags)
        && is_empty (schedule_part (schedule_reasons feed) schedule))
unfolding feed_reasons
feed_reasons_parts limits now feed state schedule =
    let flags = flagged_as feed (λ f. not (is_warning f)) state.freshness_flags in
    let rest = schedule_part (schedule_reasons feed) schedule in
    ground (arith, is_empty-append flags rest)

feed_reasons_iff :
    (limits : Limits) (now : ℕ) (feed : String) (state : FeedHealth)
    (schedule : Option FeedSnapshot)
    → (is_empty (feed_reasons limits now feed state schedule) ≡ true)
      ↔ IsWell limits now state schedule
feed_reasons_iff limits now feed state schedule =
    let parts = feed_reasons_parts limits now feed state schedule in
    let recent = is_absent_iff limits now (interval_of schedule) state.last_success in
    let journal = is_false_iff state.poll_journal_ok in
    let flags = is_empty-flagged_as feed state.freshness_flags in
    let scheduled = schedule_reasons_iff feed schedule in
    (
      λ h. record {
        recent = recent.0 (ground arith);
        answered = ground arith;
        journal = journal.0 (ground arith);
        flags = flags.0 (ground arith);
        scheduled = scheduled.0 (ground arith);
      },
      λ h. ground (
        arith,
        recent.1 h.recent,
        h.answered,
        journal.1 h.journal,
        flags.1 h.flags,
        scheduled.1 h.scheduled,
      ),
    )

all_reasons_iff :
    (limits : Limits) (now : ℕ) (feeds : Dict String FeedHealth)
    (schedules : Dict String FeedSnapshot) (names : List String)
    → (is_empty (all_reasons limits now feeds schedules names) ≡ true)
      ↔ All
          (λ feed.
            IsWell limits now (from_some no_health (lookup feed feeds)) (lookup feed schedules))
          names
unfolding all_reasons
all_reasons_iff limits now feeds schedules [] = (λ h. tt, λ h. refl)
all_reasons_iff limits now feeds schedules (feed ∷ names) =
    let state = from_some no_health (lookup feed feeds) in
    let here = feed_reasons_iff limits now feed state (lookup feed schedules) in
    let there = all_reasons_iff limits now feeds schedules names in
    let parts =
      is_empty-append (feed_reasons limits now feed state (lookup feed schedules))
        (all_reasons limits now feeds schedules names) in
    (
      λ h. (here.0 (ground (arith, parts, h)), there.0 (ground (arith, parts, h))),
      λ (h, hs). ground (arith, parts, here.1 h, there.1 hs),
    )

-- `write_status` calls the collector healthy exactly when each of the three feeds is well (a recent
-- success, no failure since, its polls in the journal, no flag but warnings, its schedule kept) and
-- the surroundings are sound (room on the disk, no errors, a commit worker that works).
pub write_status-healthy :
    (limits : Limits) (now : ℕ) (feeds : Dict String FeedHealth)
    (schedules : Dict String FeedSnapshot) (env : Surroundings)
    → ((write_status limits now feeds schedules env).healthy ≡ true) ↔ (
        All
          (λ feed.
            IsWell limits now (from_some no_health (lookup feed feeds)) (lookup feed schedules))
          feed_names
        × IsSound env)
unfolding write_status
write_status-healthy limits now feeds schedules env =
    let feeds_well = all_reasons_iff limits now feeds schedules feed_names in
    let env_sound = surrounding_reasons_iff env in
    let parts =
      is_empty-append (all_reasons limits now feeds schedules feed_names)
        (surrounding_reasons env) in
    (
      λ h. (feeds_well.0 (ground (arith, parts, h)), env_sound.0 (ground (arith, parts, h))),
      λ (h, hs). ground (arith, parts, feeds_well.1 h, env_sound.1 hs),
    )

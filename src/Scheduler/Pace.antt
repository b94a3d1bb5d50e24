-- ===== src/Scheduler/Pace.antt =====
-- realtime/realtime_scheduler.py, the second loop of `step`: what it does with due deadlines.
use native.Mathlib.Nat.{mod-lt, div-add-mod}
use bkk_collector.Base.{
  ℕ, ◌+◌, ◌-◌, ◌*◌, ◌/◌, ◌≤◌, ◌<◌, String, none, some, ◌≡◌, arith, ltb, inl, inr, Bool-cases,
}
use bkk_collector.Scheduler.{FeedSchedule, running, Reading, dispatch, dispatch_due}

round_up : (d i : ℕ) → 0 < i → (d < (d / i + 1) * i) × (d / i * i ≤ d) × (d < d / i * i + i)
round_up d i h = grind (arith, div-add-mod d i, mod-lt d h)

module _ {V : Type 0} (r : Reading) (feed : String) (st : FeedSchedule V) where
  dispatch_due_keeps :
      (count due : ℕ) (u : FeedSchedule V)
      → (dispatch_due r feed count due u).next_deadline ≡ u.next_deadline
  unfolding dispatch_due
  dispatch_due_keeps count due u = ground arith

  -- Where the interval is positive, no deadline of the feed is due any more after its dispatch.
  pub now-lt-dispatch : 0 < st.interval → r.now < (dispatch r feed st).next_deadline
  unfolding dispatch
  now-lt-dispatch h = elim (Bool-cases (ltb r.now st.next_deadline)) [
    | inl early ↦ rw early (ground arith)
    | inr late ↦
        rw (late, dispatch_due_keeps)
          (ground (arith, round_up (r.now - st.next_deadline) st.interval h))
  ]

  -- A feed with a positive interval that is due and idle gets one request under a fresh id, for the
  -- latest deadline that has passed: its lag is below the interval, the next deadline is one
  -- interval behind it, and the deadlines passed over count as missed before the request, none
  -- after it.
  pub dispatch-submits :
      0 < st.interval
      → st.next_deadline ≤ r.now
      → st.future ≡ none
      → let after = dispatch r feed st in
        (after.future ≡ some running)
        × (after.total_submitted ≡ st.total_submitted + 1)
        × (after.active_poll_id ≡ some (r.fresh_id feed))
        × (after.active_scheduler_lag < st.interval)
        × (after.active_scheduler_lag + after.next_deadline ≡ r.now + st.interval)
        × (after.active_missed_before_request
            ≡ st.missed_since_last_request + (r.now - st.next_deadline) / st.interval)
        × (after.missed_since_last_request ≡ 0)
  unfolding dispatch dispatch_due
  dispatch-submits h due idle = ground (arith, round_up (r.now - st.next_deadline) st.interval h)

-- ===== src/Collector/Turns.antt =====
-- collector.py, a turn of the main loop whose poll could not be written to the journal.
use bkk_collector.Base.{
  ◌≡◌, refl, ap, ◌∙◌, arith, Bool, true, false, not, ◌&&◌, Option, none, some, List, [], ◌∷◌, ◌++◌,
  map, is_empty, from_some, string_eq, if◌then◌else◌, Bool-cases, inl, inr,
}
use bkk_collector.RawLog.{Bytes}
use bkk_collector.Archive.{RawPath}
use bkk_collector.Scheduler.{ScheduledResult, Scheduler, value, get, acknowledge}
use bkk_collector.Monitoring.Feeds.{record_failure}
use bkk_collector.Monitoring.Status.{Status, Surroundings, write_status}
use bkk_collector.Monitoring.Verdict.{write_status-healthy}
use bkk_collector.Collector.{
  Collector, FetchResult, Outside, Poll, PollSettings, PollEvent, ScheduleFields,
  poll_journal_failed,
}
use bkk_collector.Collector.Work.{Work, path_of, archive_step, remember_auxiliary}
use bkk_collector.Collector.Polls.{
  journal_step, conclude, process_failure, process_payload, process_response, process_result,
  event_of, metadata_step, is_trips, failure_event, put_health, health_of, health_step, handle,
  new_locals,
}
use bkk_collector.Collector.Calls.{at_if}
use bkk_collector.Collector.Loop.{
  Run, Turn, error_text, handle_item, handle_outcome, commit_and_write_status, run_turn, run_taken,
  snapshot, schedule_fields,
}

-- What a status says; one that could not be written is unhealthy.
abbrev pub is_healthy : Option Status → Bool
is_healthy none = false
is_healthy (some status) = status.healthy

module _ {A : Type 0} where
  is_empty_added : (xs : List A) (x : A) → is_empty (xs ++ x ∷ []) ≡ false
  is_empty_added [] x = refl
  is_empty_added (y ∷ ys) x = refl

  is_empty-map : {B : Type 0} (f : A → B) (xs : List A) → is_empty (map f xs) ≡ is_empty xs
  is_empty-map f [] = refl
  is_empty-map f (x ∷ xs) = refl

journal_step_failed :
    {P : Type 0} (fails : Bool) (path : RawPath) (event : PollEvent) (c : Collector P)
    → fails ≡ true
    → is_empty (journal_step fails path event c).cycle_errors ≡ false
unfolding journal_step
journal_step_failed fails path event c h =
    rw h (is_empty_added c.cycle_errors (poll_journal_failed path.feed))

module _ {F P : Type 0} (o : Outside F P) (settings : PollSettings) (result : FetchResult) where
  archive_if-errors :
      (payload : Bytes) (b : Bool) (poll : Poll) (w : Work F P)
      → (if b
          then archive_step o settings result payload true poll.last_attempt w
          else w).collector.cycle_errors
        ≡ w.collector.cycle_errors
  unfolding archive_step
  archive_if-errors payload b poll w =
      at_if (λ (x : Work F P). x.collector.cycle_errors) w.collector.cycle_errors b refl refl

  conclude-errors :
      (payload : Bytes) (poll : Poll) (schedule : ScheduleFields) (w : Work F P)
      → poll.journal_fails ≡ true
      → is_empty (conclude o settings result payload poll schedule w).collector.cycle_errors ≡ false
  unfolding conclude
  conclude-errors payload poll schedule w h =
      let path = path_of o settings result payload in
      let event = event_of o settings result payload schedule w.locals in
      let w' : Work F P = record w {
        collector = journal_step poll.journal_fails path event w.collector;
      } in
      ap is_empty
        (archive_if-errors payload (poll.journal_fails && not w.locals.raw_archived) poll w')
      ∙ journal_step_failed poll.journal_fails path event w.collector h

  process_response-errors :
      (payload : Option Bytes) (poll : Poll) (schedule : ScheduleFields) (c : Collector P)
      → poll.journal_fails ≡ true
      → is_empty (process_response o settings result payload poll schedule c).cycle_errors ≡ false
  unfolding process_failure process_payload
  process_response-errors none poll schedule c h =
      let c1 : Collector P =
        if is_trips result
        then record c { presence = o.invalidate "http_observation_gap" c.presence }
        else c in
      journal_step_failed poll.journal_fails
        (record { feed = result.feed_name; date = o.date_of result.received })
        (failure_event result schedule)
        (put_health result.feed_name
          (record_failure result.received (from_some "unknown fetch failure" result.error)
            result.http_status (health_of result.feed_name c1))
          c1)
        h
  process_response-errors (some payload) poll schedule c h =
      conclude-errors payload poll schedule
        (health_step o settings result payload (
          remember_auxiliary o settings result payload (
            handle o settings result payload poll
              (record { collector = c; locals = new_locals o settings result payload }))))
        h

module _ {F P : Type 0} (o : Outside F P) (settings : PollSettings) where
  commit_and_write_status-errors :
      (turn : Turn) (s : Scheduler FetchResult) (c : Collector P)
      → is_empty c.cycle_errors ≡ false
      → is_healthy (commit_and_write_status o settings turn (snapshot turn.now s.schedules) c)
        ≡ false
  commit_and_write_status-errors turn s c h =
      let env : Surroundings = record {
        disk_free = turn.disk.free;
        disk_warn = turn.disk.warn;
        disk_critical_below = turn.disk.critical_below;
        flush_errors = turn.disk.flush_errors;
        cycle_errors = map error_text c.cycle_errors;
        worker = turn.disk.worker;
      } in
      let status =
        write_status settings.limits turn.wall c.feeds (snapshot turn.now s.schedules) env in
      let sick : status.healthy ≡ false = elim (Bool-cases status.healthy) [
        | inl e ↦
            let sound =
              ((write_status-healthy settings.limits turn.wall c.feeds
                  (snapshot turn.now s.schedules) env).0
                e).1 in
            absurd
              (ground (arith, ap is_empty sound.cycle, is_empty-map error_text c.cycle_errors, h))
        | inr e ↦ e
      ] in
      unfold commit_and_write_status in at_if is_healthy false turn.disk.status_fails refl sick

  handle_item-errors :
      (item : ScheduledResult FetchResult) (result : FetchResult) (poll : Poll) (c : Collector P)
      → item.outcome ≡ value result
      → poll.journal_fails ≡ true
      → is_empty (handle_item o settings (some item) poll c).cycle_errors ≡ false
  unfolding handle_item handle_outcome process_result
  handle_item-errors item result poll c e h =
      ap
        (λ x.
          is_empty
            (handle_outcome o settings item.feed_name x poll (schedule_fields item) c).cycle_errors)
        e
      ∙ process_response-errors o settings result result.payload poll (schedule_fields item)
          (metadata_step poll.metadata_fails c) h

  -- If a turn takes the result of a request and the journal entry of its poll cannot be written,
  -- the turn writes one status, and it is not healthy.
  pub run_turn-journal :
      (turn : Turn) (r : Run P) (item : ScheduledResult FetchResult) (result : FetchResult)
      (s : Scheduler FetchResult)
      → get r.scheduler ≡ (some item, s)
      → item.outcome ≡ value result
      → turn.poll.journal_fails ≡ true
      → (status : Option Status) × ((run_turn o settings turn r).0 ≡ status ∷ [])
        × (is_healthy status ≡ false)
  unfolding run_turn run_taken
  run_turn-journal turn r item result s taken outcome fails =
      let c = handle_item o settings (some item) turn.poll r.collector in
      let s' = acknowledge item s in
      (
        commit_and_write_status o settings turn (snapshot turn.now s'.schedules) c,
        ap (λ x. (run_taken o settings turn r x).0) taken,
        commit_and_write_status-errors turn s' c
            (handle_item-errors item result turn.poll r.collector outcome fails),
      )

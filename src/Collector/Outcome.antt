-- ===== src/Collector/Outcome.antt =====
-- collector.py, `process_result`: what a poll leaves of the change tracker, the spool and the
-- journal.
use bkk_collector.Base.{
  ◌≡◌, refl, sym, ap, subst, ◌∙◌, arith, Bool, true, false, not, ◌&&◌, Option, none, some, length,
  is_some, if◌then◌else◌, Bool-cases, inl, inr, ◌==◌, string_eq, option_eq,
}
use bkk_collector.Base.Dict.{lookup}
use bkk_collector.Base.Sorting.{sorted}
use bkk_collector.RawLog.{Bytes}
use bkk_collector.Archive.{Attempt}
use bkk_collector.Tracker.{Tracker, filter}
use bkk_collector.Collector.{Collector, FetchResult, Outside, Poll, PollSettings, ScheduleFields}
use bkk_collector.Collector.Work.{
  Work, Locals, path_of, framed, archive_step, parsed, parse_step, auxiliary_of, auxiliary_step,
  presence_step, filter_with, filter_step, stage_step, fallback_step, remember_auxiliary, all_ok,
}
use bkk_collector.Collector.Polls.{
  new_locals, handle, health_step, conclude, process_payload, journal_step, event_of,
}
use bkk_collector.Collector.Calls.{at_if}
use bkk_collector.Collector.Advance.{Seen, seen, Advanced, stage_step-Advanced, stage_step_skips}

module _ {F P : Type 0} (o : Outside F P) (settings : PollSettings) (result : FetchResult)
    (payload : Bytes) where
  abbrev view : Work F P → Seen
  view w = seen o settings result payload w

  archive_if-view :
      (b : Bool) (attempt : Attempt) (w : Work F P)
      → view (if b then archive_step o settings result payload true attempt w else w) ≡ view w
  unfolding archive_step
  archive_if-view b attempt w = at_if view (view w) b refl refl

  auxiliary_of-view :
      (poll : Poll) (feed : Option F) (w : Work F P)
      → view (auxiliary_of o settings result payload poll feed w) ≡ view w
  unfolding auxiliary_of
  auxiliary_of-view poll none w = refl
  auxiliary_of-view poll (some feed) w =
      let entities = sorted o.bytes_before (o.auxiliary_entities feed) in
      let sha = o.sha256 (framed entities) in
      let changed = not (some sha == w.collector.archived_auxiliary) in
      archive_if-view (changed && not w.locals.raw_archived) poll.auxiliary_attempt (record w {
        locals = record w.locals {
          auxiliary_count = length entities;
          auxiliary_sha256 = some sha;
          auxiliary_changed = changed;
        };
      })

  auxiliary_step-view :
      (poll : Poll) (w : Work F P) → view (auxiliary_step o settings result payload poll w) ≡ view w
  unfolding auxiliary_step
  auxiliary_step-view poll w =
      at_if view (view w) (w.locals.parse_ok && (result.feed_name == "tripupdates"))
        (auxiliary_of-view poll w.locals.feed w) refl

  presence_step-view :
      (poll : Poll) (w : Work F P) → view (presence_step o settings result payload poll w) ≡ view w
  unfolding presence_step
  presence_step-view poll w =
      at_if view (view w) (not (result.feed_name == "tripupdates")) refl
        (at_if view (view w) w.locals.parse_ok refl refl)

  remember_auxiliary-view :
      (w : Work F P) → view (remember_auxiliary o settings result payload w) ≡ view w
  unfolding remember_auxiliary
  remember_auxiliary-view w =
      at_if view (view w)
        (is_some w.locals.auxiliary_sha256 && w.locals.raw_archived && w.locals.raw_ok) refl refl

  conclude-view :
      (poll : Poll) (schedule : ScheduleFields) (w : Work F P)
      → view (conclude o settings result payload poll schedule w) ≡ view w
  unfolding conclude journal_step
  conclude-view poll schedule w =
      let w' : Work F P = record w {
        collector =
            journal_step poll.journal_fails (path_of o settings result payload)
              (event_of o settings result payload schedule w.locals) w.collector;
      } in
      archive_if-view (poll.journal_fails && not w.locals.raw_archived) poll.last_attempt w'
      ∙ at_if (λ c. view (record w { collector = c })) (view w) poll.journal_fails refl refl

  parsed_keeps :
      (feed : Option F) (l : Locals F)
      → ((parsed o settings result payload feed l).change_tracking_ok ≡ l.change_tracking_ok)
        × ((parsed o settings result payload feed l).spool_ok ≡ l.spool_ok)
  unfolding parsed
  parsed_keeps none l = (refl, refl)
  parsed_keeps (some feed) l = ground arith

  -- A selection and a stage.
  filter_step-Advanced :
      (poll : Poll) (t : Tracker) (w : Work F P)
      → lookup result.feed_name w.collector.trackers ≡ some t
      → w.locals.change_tracking_ok ≡ true
      → w.locals.spool_ok ≡ true
      → Advanced o settings result payload poll.segment_name t w.collector.spool (
          view
            (stage_step o settings result payload poll (filter_step o settings result payload w)))
  unfolding filter_step filter_with
  filter_step-Advanced poll t w known c s = elim (Bool-cases w.locals.parse_ok) [
    | inl p ↦
        subst
          (λ x.
            Advanced o settings result payload poll.segment_name t w.collector.spool
              (view (stage_step o settings result payload poll x)))
          (sym (
            ap
              (λ b.
                if b
                then filter_with o settings result payload
                    (lookup result.feed_name w.collector.trackers) w
                else w)
              p
            ∙ ap (λ x. filter_with o settings result payload x w) known))
          (stage_step-Advanced o settings result payload poll t w
            (filter t w.locals.parsed_rows (o.date_of result.received) result.received false).0 refl
            p c s)
    | inr p ↦
        subst
          (λ x.
            Advanced o settings result payload poll.segment_name t w.collector.spool
              (view (stage_step o settings result payload poll x)))
          (sym (
            ap
              (λ b.
                if b
                then filter_with o settings result payload
                    (lookup result.feed_name w.collector.trackers) w
                else w)
              p))
          (subst (Advanced o settings result payload poll.segment_name t w.collector.spool)
            (sym (stage_step_skips o settings result payload poll w (ground (arith, p))))
            (record {
              yes = λ y. absurd (ground (arith, y, p));
              no = λ n. record {
                stored = refl;
                is_after =
                    known
                    ∙ ap
                        (λ b. some (
                          if b
                          then (filter t w.locals.parsed_rows (o.date_of result.received)
                              result.received false).1
                          else t))
                        {x = false} (sym p);
              };
            }))
  ]

  -- A poll whose rows were parsed, selected and staged has put exactly the rows that the tracker
  -- selected into the partition of its feed and date, and the tracker has the memory of a selection
  -- that remembers; any other poll has put nothing there and the tracker at most selected, which
  -- does not advance its memory.
  pub process_payload-Advanced :
      (poll : Poll) (schedule : ScheduleFields) (t : Tracker) (c : Collector P)
      → lookup result.feed_name c.trackers ≡ some t
      → Advanced o settings result payload poll.segment_name t c.spool
          (view (process_payload o settings result payload poll schedule c))
  unfolding process_payload handle fallback_step health_step archive_step parse_step
  process_payload-Advanced poll schedule t c known =
      let w : Work F P = record { collector = c; locals = new_locals o settings result payload } in
      let w0 = archive_step o settings result payload false poll.first_attempt w in
      let w1 = parse_step o settings result payload w0 in
      let w2 =
        presence_step o settings result payload poll
          (auxiliary_step o settings result payload poll w1) in
      let w3 =
        stage_step o settings result payload poll (filter_step o settings result payload w2) in
      let w4 = fallback_step o settings result payload poll w3 in
      let w5 =
        health_step o settings result payload (remember_auxiliary o settings result payload w4) in
      let before : view w2 ≡ view w1 =
        presence_step-view poll (auxiliary_step o settings result payload poll w1)
        ∙ auxiliary_step-view poll w1 in
      let (tracking, spool) = parsed_keeps (o.parse_feed payload) w0.locals in
      let after : view (conclude o settings result payload poll schedule w5) ≡ view w3 =
        conclude-view poll schedule w5
        ∙ remember_auxiliary-view w4
        ∙ archive_if-view
            (not (all_ok o settings result payload w3.locals) && not w3.locals.raw_archived)
            poll.fallback_attempt w3 in
      subst (Advanced o settings result payload poll.segment_name t c.spool) (sym after) (
        subst (λ d. Advanced o settings result payload poll.segment_name t d (view w3))
          (ap (λ (v : Seen). v.spool) before)
          (filter_step-Advanced poll t w2
            (ap (λ (v : Seen). lookup result.feed_name v.trackers) before ∙ known)
            (ap (λ (v : Seen). v.change_tracking_ok) before ∙ tracking)
            (ap (λ (v : Seen). v.spool_ok) before ∙ spool)))

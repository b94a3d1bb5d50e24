-- ===== src/Collector/Trace.antt =====
-- collector.py, the calls of `_archive_raw` that `process_result` makes for a response.
use bkk_collector.Base.{
  ◌≡◌, refl, sym, ap, subst, ◌∙◌, arith, Bool, true, false, not, ◌&&◌, Option, none, some, List, [],
  ◌∷◌, ◌++◌, All, if◌then◌else◌, Bool-cases, inl, inr, is_empty, is_some, length, ◌==◌, string_eq,
  option_eq, All-append,
}
use bkk_collector.Base.Dict.{lookup}
use bkk_collector.Base.Sorting.{sorted}
use bkk_collector.RawLog.{Bytes}
use bkk_collector.Archive.{RawPath, path_eq, Archive, Attempt, Response, raw_archived}
use bkk_collector.Archive.Durable.{item_of}
use bkk_collector.Archive.Runs.{Call, call, run_calls, reported_to}
use bkk_collector.Tracker.{Tracker}
use bkk_collector.Collector.{
  Collector, FetchResult, Outside, Poll, PollSettings, ScheduleFields, PollEvent,
}
use bkk_collector.Collector.Work.{
  Work, framed, Locals, path_of, archive_step, parsed, parse_step, auxiliary_of, auxiliary_step,
  presence_step, filter_with, filter_step, filtered, stage_step, fallback_step, remember_auxiliary,
  all_ok,
}
use bkk_collector.Collector.Polls.{
  new_locals, handle, health_step, conclude, process_payload, journal_step, event_of,
}
use bkk_collector.Collector.Calls.{
  at_if, holds_if, run_calls-append, reported_to-append, run_one, reported_one,
}

module _ {F P : Type 0} (o : Outside F P) (settings : PollSettings) (result : FetchResult)
    (payload : Bytes) where
  -- What the calls of `_archive_raw` change.
  abbrev pub view : Work F P → Archive × Bool
  view w = (w.collector.archive, w.locals.raw_archived)

  abbrev pub response : Response
  response = record {
    path = path_of o settings result payload;
    received = result.stamp;
    payload = payload;
  }

  abbrev call_of : Bool → Attempt → Call
  call_of force attempt = record {
    interval = settings.raw_archive_interval result.feed_name;
    force = force;
    attempt = attempt;
    response = response;
  }

  -- Calls for the response that lead from an archive to what a work has, of which one reports that
  -- it archived the response exactly if the work says so.
  pub record Trace (a : Archive) (v : Archive × Bool) : Type 0 where
    pub calls : List Call
    pub leads : v.0 ≡ run_calls o.compress o.decompress settings.raw_fsync calls a
    pub reported :
        reported_to o.compress o.decompress settings.raw_fsync
          (path_of o settings result payload)
          calls
          a
        ≡ (if v.1 then item_of response ∷ [] else [])
    pub handed : All (λ c. c.response ≡ response) calls

  archive_step-Trace :
      (a : Archive) (force : Bool) (attempt : Attempt) (w : Work F P)
      → w.locals.raw_archived ≡ false
      → Trace a (view w)
      → Trace a (view (archive_step o settings result payload force attempt w))
  unfolding archive_step
  archive_step-Trace a force attempt w fresh t =
      let c = call_of force attempt in
      let b = run_calls o.compress o.decompress settings.raw_fsync t.calls a in
      let p = path_of o settings result payload in
      record {
        calls = t.calls ++ c ∷ [];
        leads =
            ap (λ x. (call o.compress o.decompress settings.raw_fsync c x).1) t.leads
            ∙ sym (run_one o.compress o.decompress settings.raw_fsync c b)
            ∙ sym (run_calls-append o.compress o.decompress settings.raw_fsync t.calls (c ∷ []) a);
        reported =
            reported_to-append o.compress o.decompress settings.raw_fsync p t.calls (c ∷ []) a
            ∙ ap (λ xs. xs ++ reported_to o.compress o.decompress settings.raw_fsync p (c ∷ []) b)
                {y = []} (t.reported ∙ ap (λ r. if r then item_of response ∷ [] else []) fresh)
            ∙ reported_one o.compress o.decompress settings.raw_fsync p c b refl
            ∙ ap
                (λ x.
                  if raw_archived (call o.compress o.decompress settings.raw_fsync c x).0
                  then item_of response ∷ []
                  else [])
                (sym t.leads);
        handed = All-append (λ c. c.response ≡ response) t.calls (c ∷ []) t.handed (refl, tt);
      }

  parsed-view :
      (feed : Option F) (l : Locals F)
      → (parsed o settings result payload feed l).raw_archived ≡ l.raw_archived
  unfolding parsed
  parsed-view none l = refl
  parsed-view (some feed) l = ground arith

  parse_step-view : (w : Work F P) → view (parse_step o settings result payload w) ≡ view w
  unfolding parse_step
  parse_step-view w =
      ap (λ b. (w.collector.archive, b)) (parsed-view (o.parse_feed payload) w.locals)

  presence_step-view :
      (poll : Poll) (w : Work F P) → view (presence_step o settings result payload poll w) ≡ view w
  unfolding presence_step
  presence_step-view poll w =
      at_if view (view w) (not (result.feed_name == "tripupdates")) refl
        (at_if view (view w) w.locals.parse_ok refl refl)

  filter_with-view :
      (t : Option Tracker) (w : Work F P)
      → view (filter_with o settings result payload t w) ≡ view w
  unfolding filter_with filtered
  filter_with-view none w = refl
  filter_with-view (some t) w = ground arith

  filter_step-view : (w : Work F P) → view (filter_step o settings result payload w) ≡ view w
  unfolding filter_step
  filter_step-view w =
      at_if view (view w) w.locals.parse_ok
        (filter_with-view (lookup result.feed_name w.collector.trackers) w) refl

  stage_step-view :
      (poll : Poll) (w : Work F P) → view (stage_step o settings result payload poll w) ≡ view w
  unfolding stage_step
  stage_step-view poll w =
      at_if view (view w) (not (w.locals.parse_ok && w.locals.change_tracking_ok)) refl
        (at_if view (view w) (poll.stage_fails && not (is_empty w.locals.emitted_rows)) refl refl)

  remember_auxiliary-view :
      (w : Work F P) → view (remember_auxiliary o settings result payload w) ≡ view w
  unfolding remember_auxiliary
  remember_auxiliary-view w =
      at_if view (view w)
        (is_some w.locals.auxiliary_sha256 && w.locals.raw_archived && w.locals.raw_ok) refl refl

  -- An archival that is made only where none was.
  archive_if-Trace :
      (a : Archive) (b : Bool) (attempt : Attempt) (w w' : Work F P)
      → view w' ≡ view w
      → Trace a (view w)
      → Trace a (
          view (
            if b && not w.locals.raw_archived
            then archive_step o settings result payload true attempt w'
            else w'))
  archive_if-Trace a b attempt w w' same t = elim (Bool-cases (b && not w.locals.raw_archived)) [
    | inl e ↦ rw e (
        archive_step-Trace a true attempt w' (ap (λ v. v.1) same ∙ ground (arith, e))
          (subst (Trace a) (sym same) t))
    | inr e ↦ rw e (subst (Trace a) (sym same) t)
  ]

  auxiliary_of-Trace :
      (a : Archive) (poll : Poll) (feed : Option F) (w : Work F P)
      → Trace a (view w)
      → Trace a (view (auxiliary_of o settings result payload poll feed w))
  unfolding auxiliary_of
  auxiliary_of-Trace a poll none w t = t
  auxiliary_of-Trace a poll (some feed) w t =
      let entities = sorted o.bytes_before (o.auxiliary_entities feed) in
      let sha = o.sha256 (framed entities) in
      let changed = not (some sha == w.collector.archived_auxiliary) in
      archive_if-Trace a changed poll.auxiliary_attempt w
        (record w {
          locals = record w.locals {
            auxiliary_count = length entities;
            auxiliary_sha256 = some sha;
            auxiliary_changed = changed;
          };
        })
        refl t

  auxiliary_step-Trace :
      (a : Archive) (poll : Poll) (w : Work F P)
      → Trace a (view w)
      → Trace a (view (auxiliary_step o settings result payload poll w))
  unfolding auxiliary_step
  auxiliary_step-Trace a poll w t =
      holds_if (λ x. Trace a (view x)) (w.locals.parse_ok && (result.feed_name == "tripupdates"))
        (auxiliary_of-Trace a poll w.locals.feed w t) t

  journal_step-archive :
      (fails : Bool) (path : RawPath) (event : PollEvent) (c : Collector P)
      → (journal_step fails path event c).archive ≡ c.archive
  unfolding journal_step
  journal_step-archive fails path event c =
      at_if (λ (x : Collector P). x.archive) c.archive fails refl refl

  handle-Trace :
      (a : Archive) (poll : Poll) (w : Work F P)
      → w.locals.raw_archived ≡ false
      → Trace a (view w)
      → Trace a (view (handle o settings result payload poll w))
  unfolding handle fallback_step
  handle-Trace a poll w fresh t =
      let w0 = archive_step o settings result payload false poll.first_attempt w in
      let w1 = parse_step o settings result payload w0 in
      let w2 = auxiliary_step o settings result payload poll w1 in
      let w3 = presence_step o settings result payload poll w2 in
      let w4 = filter_step o settings result payload w3 in
      let w5 = stage_step o settings result payload poll w4 in
      let same : view w5 ≡ view w2 =
        stage_step-view poll w4 ∙ filter_step-view w3 ∙ presence_step-view poll w2 in
      archive_if-Trace a (not (all_ok o settings result payload w5.locals)) poll.fallback_attempt w5
        w5 refl
        (subst (Trace a) (sym same) (
          auxiliary_step-Trace a poll w1 (
            subst (Trace a) (sym (parse_step-view w0))
              (archive_step-Trace a false poll.first_attempt w fresh t))))

  conclude-Trace :
      (a : Archive) (poll : Poll) (schedule : ScheduleFields) (w : Work F P)
      → Trace a (view w)
      → Trace a (view (conclude o settings result payload poll schedule w))
  unfolding conclude
  conclude-Trace a poll schedule w t =
      let c =
        journal_step poll.journal_fails (path_of o settings result payload)
          (event_of o settings result payload schedule w.locals) w.collector in
      archive_if-Trace a poll.journal_fails poll.last_attempt w (record w { collector = c })
        (ap (λ x. (x, w.locals.raw_archived))
          (journal_step-archive poll.journal_fails (path_of o settings result payload)
            (event_of o settings result payload schedule w.locals) w.collector))
        t

  pub process_payload-Trace :
      (poll : Poll) (schedule : ScheduleFields) (c : Collector P)
      → Trace c.archive (view (process_payload o settings result payload poll schedule c))
  unfolding process_payload health_step
  process_payload-Trace poll schedule c =
      let w : Work F P = record { collector = c; locals = new_locals o settings result payload } in
      let w1 = handle o settings result payload poll w in
      conclude-Trace c.archive poll schedule
        (health_step o settings result payload (remember_auxiliary o settings result payload w1))
        (subst (Trace c.archive) (sym (remember_auxiliary-view w1)) (
          handle-Trace c.archive poll w refl (
            unfold run_calls reported_to in
            record { calls = []; leads = refl; reported = refl; handed = tt })))

-- ===== src/Collector/Saved.antt =====
-- collector.py, `process_result`: what is known of a response of which a step failed.
use bkk_collector.Base.{
  String, ◌≡◌, refl, sym, ap, subst, ◌∙◌, arith, Bool, true, false, not, ◌&&◌, some, from_some,
  is_some, any, if◌then◌else◌, inl, inr, ◌⊎◌, ==_refl, string_eq,
}
use bkk_collector.Base.Dict.{lookup, lookup-insert}
use bkk_collector.RawLog.{Bytes}
use bkk_collector.Archive.{RawPath}
use bkk_collector.Monitoring.Feeds.{FeedHealth, record_success}
use bkk_collector.Monitoring.Status.{no_health}
use bkk_collector.Collector.{
  Collector, FetchResult, Outside, Poll, PollSettings, PollEvent, ScheduleFields,
}
use bkk_collector.Collector.Work.{
  Work, Locals, path_of, archive_step, parse_step, auxiliary_step, presence_step, filter_step,
  stage_step, fallback_step, remember_auxiliary, all_ok,
}
use bkk_collector.Collector.Polls.{
  new_locals, handle, health_step, success_of, event_of, health_of, put_health, journal_step,
  conclude, process_payload,
}
use bkk_collector.Collector.Calls.{at_if}
use bkk_collector.Collector.Losses.{Loses}
use bkk_collector.Collector.Noted.{handle-Loses}
use bkk_collector.Collector.Fallback.{
  is_raw_failure, success_flags-raw, Saved, archive_if-Saved, archive_if-all_ok,
}

module _ {P : Type 0} where
  health_of-put_health :
      (feed : String) (h : FeedHealth) (c : Collector P) → health_of feed (put_health feed h c) ≡ h
  health_of-put_health feed h c = ap (from_some no_health) (
      lookup-insert feed feed h c.feeds
      ∙ ap (λ b. if b then some h else lookup feed c.feeds) (==_refl feed))

  journal_step-flags :
      (fails : Bool) (path : RawPath) (event : PollEvent) (c : Collector P)
      → (health_of path.feed (journal_step fails path event c)).freshness_flags
        ≡ (health_of path.feed c).freshness_flags
  unfolding journal_step
  journal_step-flags fails path event c =
      let h : FeedHealth = record (health_of path.feed c) { poll_journal_ok = some (not fails) } in
      let e : (health_of path.feed (put_health path.feed h c)).freshness_flags
          ≡ (health_of path.feed c).freshness_flags =
        ap (λ (x : FeedHealth). x.freshness_flags) (health_of-put_health path.feed h c) in
      at_if (λ (x : Collector P). (health_of path.feed x).freshness_flags)
        (health_of path.feed c).freshness_flags fails e e

module _ {F P : Type 0} (o : Outside F P) (settings : PollSettings) (result : FetchResult)
    (payload : Bytes) where
  handle-Saved :
      (poll : Poll) (w : Work F P)
      → all_ok o settings result payload (handle o settings result payload poll w).locals ≡ false
      → Saved o settings result payload (handle o settings result payload poll w)
  unfolding handle fallback_step
  handle-Saved poll w h =
      let w1 =
        parse_step o settings result payload
          (archive_step o settings result payload false poll.first_attempt w) in
      let w2 =
        presence_step o settings result payload poll
          (auxiliary_step o settings result payload poll w1) in
      let w3 =
        stage_step o settings result payload poll (filter_step o settings result payload w2) in
      let lost = not (all_ok o settings result payload w3.locals) in
      let e : lost ≡ true = ap not (
        sym (
          archive_if-all_ok o settings result payload (lost && not w3.locals.raw_archived)
            poll.fallback_attempt w3 w3 refl)
        ∙ h) in
      archive_if-Saved o settings result payload lost poll.fallback_attempt w3 w3 e refl

  conclude-saves :
      (poll : Poll) (schedule : ScheduleFields) (w : Work F P)
      → w.locals.raw_archived ≡ true
      → (conclude o settings result payload poll schedule w).locals.raw_archived ≡ true
  unfolding conclude
  conclude-saves poll schedule w h =
      let c =
        journal_step poll.journal_fails (path_of o settings result payload)
          (event_of o settings result payload schedule w.locals) w.collector in
      let w' : Work F P = record w { collector = c } in
      subst
        (λ b.
          (if b
            then archive_step o settings result payload true poll.last_attempt w'
            else w').locals.raw_archived
          ≡ true)
        {x = false} (ground (arith, h)) h

  conclude-flags :
      (poll : Poll) (schedule : ScheduleFields) (w : Work F P)
      → (health_of result.feed_name
          (conclude o settings result payload poll schedule w).collector).freshness_flags
        ≡ (health_of result.feed_name w.collector).freshness_flags
  unfolding conclude archive_step
  conclude-flags poll schedule w =
      let e =
        journal_step-flags poll.journal_fails (path_of o settings result payload)
          (event_of o settings result payload schedule w.locals) w.collector in
      at_if (λ (x : Work F P). (health_of result.feed_name x.collector).freshness_flags)
        (health_of result.feed_name w.collector).freshness_flags
        (poll.journal_fails && not w.locals.raw_archived) e e

  health_step-flags :
      (w : Work F P)
      → w.locals.raw_ok ≡ false
      → any is_raw_failure
          (health_of result.feed_name
            (health_step o settings result payload w).collector).freshness_flags
        ≡ true
  unfolding health_step record_success success_of
  health_step-flags w h =
      let state = health_of result.feed_name w.collector in
      let s = success_of o settings result payload w.locals in
      ap (λ (x : FeedHealth). any is_raw_failure x.freshness_flags)
        (health_of-put_health result.feed_name
          (record_success settings.limits result.feed_name state s).1 w.collector)
      ∙ success_flags-raw settings.limits result.feed_name state s h

  remember_auxiliary-locals :
      (w : Work F P) → (remember_auxiliary o settings result payload w).locals ≡ w.locals
  unfolding remember_auxiliary
  remember_auxiliary-locals w =
      at_if (λ (x : Work F P). x.locals) w.locals
        (is_some w.locals.auxiliary_sha256 && w.locals.raw_archived && w.locals.raw_ok) refl refl

  -- If a message does not parse, the presence journal raises, the change tracker raises or the rows
  -- that it selects cannot be staged, then at the end of the poll the response is archived or the
  -- health of its feed has the flag of the raw archive.
  pub process_payload-Saved :
      (poll : Poll) (schedule : ScheduleFields) (c : Collector P)
      → Loses o settings result payload poll c
      → ((process_payload o settings result payload poll schedule c).locals.raw_archived ≡ true)
        ⊎ (any is_raw_failure
              (health_of result.feed_name
                (process_payload o settings result payload poll schedule
                  c).collector).freshness_flags
            ≡ true)
  unfolding process_payload health_step
  process_payload-Saved poll schedule c loses =
      let w1 =
        handle o settings result payload poll
          (record { collector = c; locals = new_locals o settings result payload }) in
      let w2 = remember_auxiliary o settings result payload w1 in
      let w3 = health_step o settings result payload w2 in
      let same : w2.locals ≡ w1.locals = remember_auxiliary-locals w1 in
      elim (handle-Saved poll
        (record { collector = c; locals = new_locals o settings result payload })
        (handle-Loses o settings result payload poll c loses)) [
          | inl e ↦
              inl (conclude-saves poll schedule w3 (ap (λ (l : Locals F). l.raw_archived) same ∙ e))
          | inr e ↦ inr (
              ap (any is_raw_failure) (conclude-flags poll schedule w3)
              ∙ health_step-flags w2 (ap (λ (l : Locals F). l.raw_ok) same ∙ e))
        ]

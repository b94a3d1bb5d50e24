-- ===== src/Collector/Noted.antt =====
-- collector.py, `process_result`: a failure of the outside is noted by the flags of the poll.
use bkk_collector.Base.{
  ◌≡◌, refl, ap, ◌∙◌, arith, true, false, not, ◌&&◌, none, some, List, is_empty, string_eq,
}
use bkk_collector.Base.Dict.{lookup}
use bkk_collector.RawLog.{Bytes}
use bkk_collector.Tracker.{Row}
use bkk_collector.Collector.{Collector, FetchResult, Outside, Poll, PollSettings}
use bkk_collector.Collector.Work.{
  Work, archive_step, parse_step, auxiliary_step, incrementality_of, presence_step, filter_with,
  filter_step, stage_step, fallback_step, all_ok,
}
use bkk_collector.Collector.Polls.{new_locals, handle}
use bkk_collector.Collector.Fallback.{archive_if-all_ok}
use bkk_collector.Collector.Losses.{
  Read, rows_of, Loses, unparsed, unobserved, unselected, unstaged, read, parsed-none, parsed-some,
  auxiliary_step-read, presence_step-fails, filter_with-fails, filter_with-selects,
  stage_step-fails, presence_step_keeps, filter_step_keeps, filter_step_parsed, stage_step_keeps,
}

module _ {F P : Type 0} (o : Outside F P) (settings : PollSettings) (result : FetchResult)
    (payload : Bytes) (poll : Poll) where
  -- The steps up to the parsed rows, and those behind them.
  abbrev opening : Collector P → Work F P
  opening c = auxiliary_step o settings result payload poll (
      parse_step o settings result payload (
        archive_step o settings result payload false poll.first_attempt
          (record { collector = c; locals = new_locals o settings result payload })))

  abbrev selecting : Work F P → Work F P
  selecting w =
      filter_step o settings result payload (presence_step o settings result payload poll w)

  abbrev storing : Work F P → Work F P
  storing w = stage_step o settings result payload poll (selecting w)

  opening-none :
      (c : Collector P)
      → rows_of o settings result payload (o.parse_feed payload) ≡ none
      → (opening c).locals.parse_ok ≡ false
  unfolding parse_step archive_step
  opening-none c h =
      let w0 =
        archive_step o settings result payload false poll.first_attempt
          (record { collector = c; locals = new_locals o settings result payload }) in
      ap (λ (x : Read F P). x.parse_ok)
        (auxiliary_step-read o settings result payload poll
          (parse_step o settings result payload w0))
      ∙ parsed-none o settings result payload (o.parse_feed payload) w0.locals h refl

  opening-some :
      (c : Collector P) (rows : List Row)
      → rows_of o settings result payload (o.parse_feed payload) ≡ some rows
      → read o settings result payload (opening c) ≡ record {
        parse_ok = true;
        parsed_rows = rows;
        feed = o.parse_feed payload;
        presence = c.presence;
        trackers = c.trackers;
      }
  unfolding parse_step archive_step
  opening-some c rows h =
      let w0 =
        archive_step o settings result payload false poll.first_attempt
          (record { collector = c; locals = new_locals o settings result payload }) in
      let (parses, same, message) =
        parsed-some o settings result payload (o.parse_feed payload) w0.locals rows h in
      auxiliary_step-read o settings result payload poll (parse_step o settings result payload w0)
      ∙ rw (parses, same, message) refl

  storing-unparsed :
      (w : Work F P)
      → w.locals.parse_ok ≡ false
      → all_ok o settings result payload (storing w).locals ≡ false
  storing-unparsed w h = ground (
    arith,
    stage_step_keeps o settings result payload poll (selecting w),
    filter_step_keeps o settings result payload (presence_step o settings result payload poll w),
    presence_step_keeps o settings result payload poll w,
    h,
  )

  storing-unobserved :
      (w : Work F P)
      → (presence_step o settings result payload poll w).locals.presence_ok ≡ false
      → all_ok o settings result payload (storing w).locals ≡ false
  storing-unobserved w h = ground (
    arith,
    stage_step_keeps o settings result payload poll (selecting w),
    filter_step_keeps o settings result payload (presence_step o settings result payload poll w),
    h,
  )

  storing-unselected :
      (w : Work F P)
      → (selecting w).locals.change_tracking_ok ≡ false
      → all_ok o settings result payload (storing w).locals ≡ false
  storing-unselected w h =
      ground (arith, stage_step_keeps o settings result payload poll (selecting w), h)

  -- Behind the parsed rows the tracker is asked for them.
  selecting-parsed :
      (c : Collector P) (rows : List Row)
      → rows_of o settings result payload (o.parse_feed payload) ≡ some rows
      → (w : Work F P) × (selecting (opening c)
          ≡ filter_with o settings result payload (lookup result.feed_name w.collector.trackers) w)
        × (w.locals.parsed_rows ≡ rows)
        × (w.collector.trackers ≡ c.trackers)
        × (w.locals.parse_ok ≡ true)
  selecting-parsed c rows h =
      let w = presence_step o settings result payload poll (opening c) in
      let (parses, same, trackers) =
        presence_step_keeps o settings result payload poll (opening c) in
      let opened = opening-some c rows h in
      let parsed : w.locals.parse_ok ≡ true = parses ∙ ap (λ (x : Read F P). x.parse_ok) opened in
      (
        w,
        filter_step_parsed o settings result payload w parsed,
        same ∙ ap (λ (x : Read F P). x.parsed_rows) opened,
        trackers ∙ ap (λ (x : Read F P). x.trackers) opened,
        parsed,
      )

  -- Whatever of these goes wrong, the flags show it when the forced archival is decided.
  storing-Loses :
      (c : Collector P)
      → Loses o settings result payload poll c
      → all_ok o settings result payload (storing (opening c)).locals ≡ false
  storing-Loses c (unparsed h) = storing-unparsed (opening c) (opening-none c h)
  storing-Loses c (unobserved rows h trips raises) =
      let opened = opening-some c rows h in
      storing-unobserved (opening c) (
        presence_step-fails o settings result payload poll (opening c) trips
          (ap (λ (x : Read F P). x.parse_ok) opened)
          (ap
              (λ (x : Read F P).
                (o.observe poll.presence_fails x.parsed_rows (o.date_of result.received)
                  result.received (incrementality_of o settings result payload x.feed)
                  x.presence).0)
              opened
            ∙ raises))
  storing-Loses c (unselected rows e h raises) =
      let (w, step, same, trackers, parses) = selecting-parsed c rows h in
      storing-unselected (opening c) (
        ap (λ (x : Work F P). x.locals.change_tracking_ok) step
        ∙ filter_with-fails o settings result payload (lookup result.feed_name w.collector.trackers)
            w e (rw (trackers, same) raises))
  storing-Loses c (unstaged rows selected h chosen nonempty fails) =
      let (w, step, same, trackers, parses) = selecting-parsed c rows h in
      let kept =
        filter_step_keeps o settings result payload
          (presence_step o settings result payload poll (opening c)) in
      let before = presence_step_keeps o settings result payload poll (opening c) in
      let emitted : (selecting (opening c)).locals.emitted_rows ≡ selected =
        ap (λ (x : Work F P). x.locals.emitted_rows) step
        ∙ filter_with-selects o settings result payload
            (lookup result.feed_name w.collector.trackers) w selected
            (rw (trackers, same) chosen) in
      stage_step-fails o settings result payload poll (selecting (opening c))
        (kept.0 ∙ before.0 ∙ ap (λ (x : Read F P). x.parse_ok) (opening-some c rows h))
        (ap is_empty emitted ∙ nonempty) fails

  pub handle-Loses :
      (c : Collector P)
      → Loses o settings result payload poll c
      → all_ok o settings result payload
          (handle o settings result payload poll
            (record { collector = c; locals = new_locals o settings result payload })).locals
        ≡ false
  unfolding handle fallback_step
  handle-Loses c h =
      let w3 = storing (opening c) in
      archive_if-all_ok o settings result payload
        (not (all_ok o settings result payload w3.locals) && not w3.locals.raw_archived)
        poll.fallback_attempt w3 w3 refl
      ∙ storing-Loses c h

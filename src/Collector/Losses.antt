-- ===== src/Collector/Losses.antt =====
-- collector.py, `process_result`: the failures of the outside that keep rows of a response out of the
-- spool or its trips out of the presence journal, and the flags that note them.
use bkk_collector.Base.{
  String, ◌≡◌, refl, arith, Bool, true, false, not, ◌&&◌, Option, none, some, List, is_empty,
  if◌then◌else◌, ◌==◌, string_eq, option_eq,
}
use bkk_collector.Base.Dict.{Dict, lookup}
use bkk_collector.Base.Sorting.{sorted}
use bkk_collector.RawLog.{Bytes}
use bkk_collector.Tracker.{Row, Tracker, TrackerError, Result, ok, err, filter}
use bkk_collector.Collector.{Collector, FetchResult, Outside, Poll, PollSettings}
use bkk_collector.Collector.Work.{
  Work, Locals, archive_step, parsed, filtered, validate_feed_entities, framed, auxiliary_of,
  auxiliary_step, incrementality_of, presence_step, filter_with, filter_step, stage_step, all_ok,
}
use bkk_collector.Collector.Calls.{at_if}

-- What the steps behind the parser read.
pub record Read (F P : Type 0) : Type 0 where
  pub parse_ok : Bool
  pub parsed_rows : List Row
  pub feed : Option F
  pub presence : P
  pub trackers : Dict String Tracker

module _ {F P : Type 0} (o : Outside F P) (settings : PollSettings) (result : FetchResult)
    (payload : Bytes) where
  -- The rows of a message that parses and whose entities are those of its feed.
  abbrev pub rows_of : Option F → Option (List Row)
  rows_of none = none
  rows_of (some feed) =
      if validate_feed_entities result.feed_name (o.entities feed)
      then o.parsed_rows result.feed_name feed
      else none

  -- The rows that the feed's tracker selects; without a tracker all of them.
  abbrev pub selects : Option Tracker → List Row → Result (List Row)
  selects none rows = ok rows
  selects (some t) rows = (filter t rows (o.date_of result.received) result.received false).0

  -- What goes wrong outside of a poll that starts in this state: the message does not parse, the
  -- presence journal raises, the change tracker raises, or the rows it selects cannot be staged.
  pub data Loses (poll : Poll) (c : Collector P) : Type 0 where
    unparsed : rows_of (o.parse_feed payload) ≡ none → Loses poll c
    unobserved :
        (rows : List Row)
        → rows_of (o.parse_feed payload) ≡ some rows
        → (result.feed_name == "tripupdates") ≡ true
        → (o.observe poll.presence_fails rows
            (o.date_of result.received)
            result.received
            (incrementality_of o settings result payload (o.parse_feed payload))
            c.presence).0
          ≡ true
        → Loses poll c
    unselected :
        (rows : List Row) (e : TrackerError)
        → rows_of (o.parse_feed payload) ≡ some rows
        → selects (lookup result.feed_name c.trackers) rows ≡ err e
        → Loses poll c
    unstaged :
        (rows selected : List Row)
        → rows_of (o.parse_feed payload) ≡ some rows
        → selects (lookup result.feed_name c.trackers) rows ≡ ok selected
        → is_empty selected ≡ false
        → poll.stage_fails ≡ true
        → Loses poll c

  pub parsed-none :
      (message : Option F) (l : Locals F)
      → rows_of message ≡ none
      → l.parse_ok ≡ false
      → (parsed o settings result payload message l).parse_ok ≡ false
  unfolding parsed
  parsed-none none l h e = e
  parsed-none (some feed) l h e = ground arith

  pub parsed-some :
      (message : Option F) (l : Locals F) (rows : List Row)
      → rows_of message ≡ some rows
      → ((parsed o settings result payload message l).parse_ok ≡ true)
        × ((parsed o settings result payload message l).parsed_rows ≡ rows)
        × ((parsed o settings result payload message l).feed ≡ message)
  unfolding parsed
  parsed-some none l rows h = cc
  parsed-some (some feed) l rows h = ground arith

  abbrev pub read : Work F P → Read F P
  read w = record {
    parse_ok = w.locals.parse_ok;
    parsed_rows = w.locals.parsed_rows;
    feed = w.locals.feed;
    presence = w.collector.presence;
    trackers = w.collector.trackers;
  }

  auxiliary_of-read :
      (poll : Poll) (message : Option F) (w : Work F P)
      → read (auxiliary_of o settings result payload poll message w) ≡ read w
  unfolding auxiliary_of archive_step
  auxiliary_of-read poll none w = refl
  auxiliary_of-read poll (some feed) w =
      let sha = o.sha256 (framed (sorted o.bytes_before (o.auxiliary_entities feed))) in
      let changed = not (some sha == w.collector.archived_auxiliary) in
      at_if (λ (x : Work F P). read x) (read w) (changed && not w.locals.raw_archived) refl refl

  pub auxiliary_step-read :
      (poll : Poll) (w : Work F P) → read (auxiliary_step o settings result payload poll w) ≡ read w
  unfolding auxiliary_step
  auxiliary_step-read poll w =
      at_if read (read w) (w.locals.parse_ok && (result.feed_name == "tripupdates"))
        (auxiliary_of-read poll w.locals.feed w) refl

  -- Each step notes its own failure.
  pub presence_step-fails :
      (poll : Poll) (w : Work F P)
      → (result.feed_name == "tripupdates") ≡ true
      → w.locals.parse_ok ≡ true
      → (o.observe poll.presence_fails w.locals.parsed_rows
          (o.date_of result.received)
          result.received
          (incrementality_of o settings result payload w.locals.feed)
          w.collector.presence).0
        ≡ true
      → (presence_step o settings result payload poll w).locals.presence_ok ≡ false
  unfolding presence_step
  presence_step-fails poll w trips parses raises = rw (trips, parses, raises) refl

  pub filter_with-fails :
      (tracker : Option Tracker) (w : Work F P) (e : TrackerError)
      → selects tracker w.locals.parsed_rows ≡ err e
      → (filter_with o settings result payload tracker w).locals.change_tracking_ok ≡ false
  unfolding filter_with
  filter_with-fails none w e h = cc
  filter_with-fails (some t) w e h = rw h refl

  pub filter_with-selects :
      (tracker : Option Tracker) (w : Work F P) (selected : List Row)
      → selects tracker w.locals.parsed_rows ≡ ok selected
      → (filter_with o settings result payload tracker w).locals.emitted_rows ≡ selected
  unfolding filter_with
  filter_with-selects none w selected h = ground arith
  filter_with-selects (some t) w selected h = rw h refl

  pub stage_step-fails :
      (poll : Poll) (w : Work F P)
      → w.locals.parse_ok ≡ true
      → is_empty w.locals.emitted_rows ≡ false
      → poll.stage_fails ≡ true
      → all_ok o settings result payload (stage_step o settings result payload poll w).locals
        ≡ false
  unfolding stage_step
  stage_step-fails poll w parses rows fails = ground arith

  -- A step does not take back what an earlier one noted.
  pub presence_step_keeps :
      (poll : Poll) (w : Work F P)
      → ((presence_step o settings result payload poll w).locals.parse_ok ≡ w.locals.parse_ok)
        × ((presence_step o settings result payload poll w).locals.parsed_rows
            ≡ w.locals.parsed_rows)
        × ((presence_step o settings result payload poll w).collector.trackers
            ≡ w.collector.trackers)
  unfolding presence_step
  presence_step_keeps poll w = ground arith

  filtered_keeps :
      (rows : Result (List Row)) (l : Locals F)
      → ((filtered o settings result payload rows l).parse_ok ≡ l.parse_ok)
        × ((filtered o settings result payload rows l).presence_ok ≡ l.presence_ok)
  unfolding filtered
  filtered_keeps (ok rows) l = (refl, refl)
  filtered_keeps (err e) l = (refl, refl)

  filter_with_keeps :
      (tracker : Option Tracker) (w : Work F P)
      → ((filter_with o settings result payload tracker w).locals.parse_ok ≡ w.locals.parse_ok)
        × ((filter_with o settings result payload tracker w).locals.presence_ok
            ≡ w.locals.presence_ok)
  unfolding filter_with
  filter_with_keeps none w = (refl, refl)
  filter_with_keeps (some t) w =
      filtered_keeps
        (filter t w.locals.parsed_rows (o.date_of result.received) result.received false).0 w.locals

  pub filter_step_keeps :
      (w : Work F P)
      → ((filter_step o settings result payload w).locals.parse_ok ≡ w.locals.parse_ok)
        × ((filter_step o settings result payload w).locals.presence_ok ≡ w.locals.presence_ok)
  unfolding filter_step
  filter_step_keeps w =
      let kept = filter_with_keeps (lookup result.feed_name w.collector.trackers) w in
      (
        at_if (λ (x : Work F P). x.locals.parse_ok) w.locals.parse_ok w.locals.parse_ok kept.0 refl,
        at_if (λ (x : Work F P). x.locals.presence_ok) w.locals.presence_ok w.locals.parse_ok kept.1
            refl,
      )

  pub filter_step_parsed :
      (w : Work F P)
      → w.locals.parse_ok ≡ true
      → filter_step o settings result payload w
        ≡ filter_with o settings result payload (lookup result.feed_name w.collector.trackers) w
  unfolding filter_step
  filter_step_parsed w h = rw h refl

  pub stage_step_keeps :
      (poll : Poll) (w : Work F P)
      → ((stage_step o settings result payload poll w).locals.parse_ok ≡ w.locals.parse_ok)
        × ((stage_step o settings result payload poll w).locals.presence_ok ≡ w.locals.presence_ok)
        × ((stage_step o settings result payload poll w).locals.change_tracking_ok
            ≡ w.locals.change_tracking_ok)
  unfolding stage_step
  stage_step_keeps poll w = ground arith

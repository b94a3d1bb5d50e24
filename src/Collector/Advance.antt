-- ===== src/Collector/Advance.antt =====
-- collector.py, `process_result`: how far a poll advances the change tracker and the spool.
use bkk_collector.Base.{
  String, ◌≡◌, refl, sym, ap, subst, ◌∙◌, arith, Bool, true, false, not, ◌&&◌, some, List, is_empty,
  from_some, if◌then◌else◌, Bool-cases, inl, inr, ==_refl, string_eq, option_eq,
}
use bkk_collector.Base.Dict.{Dict, lookup, insert, lookup-insert}
use bkk_collector.RawLog.{Bytes}
use bkk_collector.Archive.{RawPath, path_eq}
use bkk_collector.Tracker.{Row, Tracker, Result, ok, err, filter, commit}
use bkk_collector.Tracker.Staging.{SameView, filter-commit}
use bkk_collector.Spool.{Partition, stage}
use bkk_collector.Spool.Refinement.{no_files}
use bkk_collector.Collector.{Collector, FetchResult, Outside, Poll, PollSettings}
use bkk_collector.Collector.Work.{Work, path_of, partition_at, filtered, commit_with, stage_step}

-- What the change tracker and the spool have to do with a work.
pub record Seen : Type 0 where
  pub trackers : Dict String Tracker
  pub spool : Dict RawPath (Partition String String Row)
  pub parse_ok : Bool
  pub change_tracking_ok : Bool
  pub spool_ok : Bool
  pub parsed_rows : List Row
  pub emitted_rows : List Row

-- The rows are in the spool.
abbrev pub is_staged : Seen → Bool
is_staged v = v.parse_ok && v.change_tracking_ok && v.spool_ok

module _ {F P : Type 0} (o : Outside F P) (settings : PollSettings) (result : FetchResult)
    (payload : Bytes) where
  abbrev pub seen : Work F P → Seen
  seen w = record {
    trackers = w.collector.trackers;
    spool = w.collector.spool;
    parse_ok = w.locals.parse_ok;
    change_tracking_ok = w.locals.change_tracking_ok;
    spool_ok = w.locals.spool_ok;
    parsed_rows = w.locals.parsed_rows;
    emitted_rows = w.locals.emitted_rows;
  }

  abbrev selection : Tracker → List Row → Bool → Result (List Row) × Tracker
  selection t rows updates = filter t rows (o.date_of result.received) result.received updates

  -- The rows that the tracker selected are in the spool, and it remembers them.
  pub record Staged (name : String) (t : Tracker)
      (spool : Dict RawPath (Partition String String Row)) (v : Seen) : Type 0 where
    pub selected : (selection t v.parsed_rows false).0 ≡ ok v.emitted_rows
    pub stored :
        partition_at (path_of o settings result payload) v.spool
        ≡ stage name v.emitted_rows (partition_at (path_of o settings result payload) spool)
    pub after : Tracker
    pub is_after : lookup result.feed_name v.trackers ≡ some after
    pub remembers : SameView after.last (selection t v.parsed_rows true).1.last

  -- Nothing is in the spool, and the tracker at most selected.
  pub record Unstaged (t : Tracker) (spool : Dict RawPath (Partition String String Row)) (v : Seen)
      : Type 0 where
    pub stored : v.spool ≡ spool
    pub is_after :
        lookup result.feed_name v.trackers
        ≡ some (if v.parse_ok then (selection t v.parsed_rows false).1 else t)

  pub record Advanced (name : String) (t : Tracker)
      (spool : Dict RawPath (Partition String String Row)) (v : Seen) : Type 0 where
    pub yes : is_staged v ≡ true → Staged name t spool v
    pub no : is_staged v ≡ false → Unstaged t spool v

  lookup-inserted :
      {V : Type 0} (v : V) (d : Dict String V)
      → lookup result.feed_name (insert result.feed_name v d) ≡ some v
  lookup-inserted v d =
      lookup-insert result.feed_name result.feed_name v d
      ∙ ap (λ b. if b then some v else lookup result.feed_name d) (==_refl result.feed_name)

  partition_at-inserted :
      (p : Partition String String Row) (d : Dict RawPath (Partition String String Row))
      → partition_at
          (path_of o settings result payload)
          (insert (path_of o settings result payload) p d)
        ≡ p
  partition_at-inserted p d =
      let path = path_of o settings result payload in
      ap (from_some no_files)
        (lookup-insert path path p d ∙ ap (λ b. if b then some p else lookup path d) (==_refl path))

  -- What a successful stage makes of the collector.
  abbrev staged_as : Poll → Work F P → Collector P
  staged_as poll w = record w.collector {
    spool =
        insert (path_of o settings result payload)
          (stage poll.segment_name w.locals.emitted_rows
            (partition_at (path_of o settings result payload) w.collector.spool))
          w.collector.spool;
    trackers =
        commit_with o settings result payload (lookup result.feed_name w.collector.trackers)
          w.locals.emitted_rows w.collector.trackers;
  }

  -- The three ways of a stage.
  pub stage_step_skips :
      (poll : Poll) (w : Work F P)
      → (w.locals.parse_ok && w.locals.change_tracking_ok) ≡ false
      → seen (stage_step o settings result payload poll w) ≡ seen w
  unfolding stage_step
  stage_step_skips poll w h = rw h refl

  stage_step_fails :
      (poll : Poll) (w : Work F P)
      → (w.locals.parse_ok && w.locals.change_tracking_ok) ≡ true
      → (poll.stage_fails && not (is_empty w.locals.emitted_rows)) ≡ true
      → seen (stage_step o settings result payload poll w) ≡ record (seen w) { spool_ok = false }
  unfolding stage_step
  stage_step_fails poll w h f = rw (h, f) refl

  stage_step_stages :
      (poll : Poll) (w : Work F P)
      → (w.locals.parse_ok && w.locals.change_tracking_ok) ≡ true
      → (poll.stage_fails && not (is_empty w.locals.emitted_rows)) ≡ false
      → seen (stage_step o settings result payload poll w) ≡ record (seen w) {
        trackers = (staged_as poll w).trackers;
        spool = (staged_as poll w).spool;
      }
  unfolding stage_step
  stage_step_stages poll w h f = rw (h, f) refl

  committed :
      (t : Tracker) (rows : List Row) (d : Dict String Tracker)
      → lookup result.feed_name (commit_with o settings result payload (some t) rows d)
        ≡ some (commit t rows (o.date_of result.received) result.received)
  unfolding commit_with
  committed t rows d = lookup-inserted (commit t rows (o.date_of result.received) result.received) d

  -- A stage behind a selection.
  pub stage_step-Advanced :
      (poll : Poll) (t : Tracker) (w : Work F P) (r : Result (List Row))
      → (selection t w.locals.parsed_rows false).0 ≡ r
      → w.locals.parse_ok ≡ true
      → w.locals.change_tracking_ok ≡ true
      → w.locals.spool_ok ≡ true
      → Advanced poll.segment_name t w.collector.spool (
          seen (
            stage_step o settings result payload poll (record {
              collector = record w.collector {
                trackers =
                    insert result.feed_name
                      (selection t w.locals.parsed_rows false).1
                      w.collector.trackers;
              };
              locals = filtered o settings result payload r w.locals;
            })))
  unfolding filtered
  stage_step-Advanced poll t w (err e) h p c s =
      let t' = (selection t w.locals.parsed_rows false).1 in
      let w' : Work F P = record {
        collector = record w.collector {
          trackers = insert result.feed_name t' w.collector.trackers;
        };
        locals = filtered o settings result payload (err e) w.locals;
      } in
      subst (Advanced poll.segment_name t w.collector.spool)
        (sym (stage_step_skips poll w' (ground arith)))
        (record {
          yes = λ y. absurd (ground (arith, y));
          no = λ n. record {
            stored = refl;
            is_after =
                lookup-inserted t' w.collector.trackers
                ∙ ap (λ b. some (if b then t' else t)) (sym p);
          };
        })
  stage_step-Advanced poll t w (ok rows) h p c s =
      let t' = (selection t w.locals.parsed_rows false).1 in
      let w' : Work F P = record {
        collector = record w.collector {
          trackers = insert result.feed_name t' w.collector.trackers;
        };
        locals = filtered o settings result payload (ok rows) w.locals;
      } in
      let all : (w'.locals.parse_ok && w'.locals.change_tracking_ok) ≡ true =
        ground (arith, p, c) in
      elim (Bool-cases (poll.stage_fails && not (is_empty rows))) [
        | inl f ↦
            subst (Advanced poll.segment_name t w.collector.spool)
              (sym (stage_step_fails poll w' all f))
              (record {
                yes = λ y. absurd (ground (arith, y));
                no = λ n. record {
                  stored = refl;
                  is_after =
                      lookup-inserted t' w.collector.trackers
                      ∙ ap (λ b. some (if b then t' else t)) (sym p);
                };
              })
        | inr f ↦
            subst (Advanced poll.segment_name t w.collector.spool)
              (sym (stage_step_stages poll w' all f))
              (record {
                yes = λ y. record {
                  selected = h;
                  stored =
                      partition_at-inserted
                        (stage poll.segment_name rows
                          (partition_at (path_of o settings result payload) w.collector.spool))
                        w.collector.spool;
                  after = commit t' rows (o.date_of result.received) result.received;
                  is_after =
                      ap
                        (λ x.
                          lookup result.feed_name
                            (commit_with o settings result payload x rows w'.collector.trackers))
                        (lookup-inserted t' w.collector.trackers)
                      ∙ committed t' rows w'.collector.trackers;
                  remembers =
                      filter-commit t w.locals.parsed_rows rows (o.date_of result.received)
                        result.received h;
                };
                no = λ n. absurd (ground (arith, n, p, c, s));
              })
      ]

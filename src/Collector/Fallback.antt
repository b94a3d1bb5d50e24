-- ===== src/Collector/Fallback.antt =====
-- collector.py, `process_result`: a response of which a step failed is in the raw archive, or the
-- failure of the raw archive shows.
use bkk_collector.Base.{
  ℕ, String, ◌≡◌, refl, sym, ap, subst, ◌∙◌, arith, from_some, Bool, true, false, not, ◌&&◌, Option,
  none, some, List, ◌++◌, any, any-append, if◌then◌else◌, Bool-cases, inl, inr, ◌⊎◌, ◌==◌,
  string_eq,
}
use bkk_collector.Base.Dict.{lookup}
use bkk_collector.RawLog.{Bytes, LogFile, append_record}
use bkk_collector.Archive.{
  path_eq, Archive, Attempt, Response, Archived, not_due, raw_archived, raw_ok, archive_raw, is_due,
  log_at, after_repairs, append_response, appended_to, repair_pending,
}
use bkk_collector.Monitoring.Feeds.{
  Flag, protobuf_parse_failed, change_tracker_failed, entity_timestamp_stale, derived_spool_failed,
  tripupdates_presence_failed, older, evaluate_freshness, header_since, payload_since,
  soften_alerts, raw_archive_failed, FeedHealth, Limits, Success, success_flags, failure_flags,
  flag_if,
}
use bkk_collector.Collector.{FetchResult, Outside, PollSettings}
use bkk_collector.Collector.Work.{Work, path_of, archive_step, all_ok}
use bkk_collector.Collector.Calls.{at_if}

abbrev pub is_raw_failure : Flag → Bool
is_raw_failure raw_archive_failed = true
is_raw_failure _ = false

module _ {A : Type 0} where
  any_left : (test : A → Bool) (xs ys : List A) → any test xs ≡ true → any test (xs ++ ys) ≡ true
  any_left test xs ys h = ground (arith, any-append test xs ys, h)

  any_right : (test : A → Bool) (xs ys : List A) → any test ys ≡ true → any test (xs ++ ys) ≡ true
  any_right test xs ys h = ground (arith, any-append test xs ys, h)

-- The flag of the raw archive is raised where it failed.
failure_flags-raw :
    (limits : Limits) (feed : String) (s : Success)
    → s.raw_ok ≡ false
    → any is_raw_failure (failure_flags limits feed s) ≡ true
unfolding failure_flags
failure_flags-raw limits feed s h =
    let before =
      flag_if (not s.parse_ok) protobuf_parse_failed
      ++ flag_if (not s.change_tracking_ok)
          (from_some change_tracker_failed s.change_tracking_failure_flag)
      ++ flag_if (not (feed == "alerts") && older s.now limits.stale s.max_entity_timestamp)
          entity_timestamp_stale in
    let here = flag_if (not s.raw_ok) raw_archive_failed in
    let spool = flag_if (not s.spool_ok) derived_spool_failed in
    any_left is_raw_failure (before ++ here ++ spool)
      (flag_if (not s.presence_ok) tripupdates_presence_failed)
      (any_left is_raw_failure (before ++ here) spool (
        any_right is_raw_failure before here
          (ap (λ b. any is_raw_failure (flag_if (not b) raw_archive_failed)) h)))

pub success_flags-raw :
    (limits : Limits) (feed : String) (state : FeedHealth) (s : Success)
    → s.raw_ok ≡ false
    → any is_raw_failure (success_flags limits feed state s) ≡ true
unfolding success_flags
success_flags-raw limits feed state s h =
    let frozen = if feed == "alerts" then limits.alerts_frozen else limits.frozen in
    let fresh =
      evaluate_freshness s.now s.header_timestamp (header_since state s) (payload_since state s)
        limits.stale frozen in
    any_right is_raw_failure
      (if feed == "alerts" then soften_alerts s.entity_count fresh else fresh)
      (failure_flags limits feed s) (failure_flags-raw limits feed s h)

-- An attempt to archive that is due either archives or fails.
abbrev Decided : Archived → Type 0
Decided r = (raw_archived r ≡ true) ⊎ (raw_ok r ≡ false)

holds_due :
    {b : Bool} (x y : Archived × Archive) → b ≡ true → Decided x.0 → Decided (if b then x else y).0
holds_due x y h d = subst (λ b. Decided (if b then x else y).0) (sym h) d

module _ (compress : Bytes → Bytes) (decompress : Bytes → Option Bytes) where
  appended_to-Decided :
      (attempt : Attempt) (r : Response) (log : Option LogFile) (fails : Option ℕ) (a : Archive)
      → Decided (appended_to compress attempt r log fails a).0
  unfolding appended_to
  appended_to-Decided attempt r none fails a = inr refl
  appended_to-Decided attempt r (some log) none a = inl refl
  appended_to-Decided attempt r (some log) (some bytes) a = inr refl

  after_repairs-Decided :
      (fsync : Bool) (attempt : Attempt) (r : Response) (s : Bool × Archive)
      → Decided (after_repairs compress fsync attempt r s).0
  unfolding after_repairs append_response
  after_repairs-Decided fsync attempt r (true, a) = inr refl
  after_repairs-Decided fsync attempt r (false, a) =
      appended_to-Decided attempt r
        (append_record compress fsync r.received r.payload (log_at r.path a))
        attempt.write_fails_after a

  is_due_forced : (interval now : ℕ) (last : Option ℕ) → is_due true interval now last ≡ true
  unfolding is_due
  is_due_forced interval now none = refl
  is_due_forced interval now (some at) = refl

  archive_raw-Decided :
      (fsync : Bool) (interval : ℕ) (attempt : Attempt) (r : Response) (a : Archive)
      → Decided (archive_raw compress decompress fsync interval true attempt r a).0
  unfolding archive_raw
  archive_raw-Decided fsync interval attempt r a =
      let s = repair_pending decompress attempt r.path a.needs_repair a in
      holds_due (after_repairs compress fsync attempt r s) (not_due, a)
        (is_due_forced interval attempt.now (lookup r.path.feed a.last_archived))
        (after_repairs-Decided fsync attempt r s)

module _ {F P : Type 0} (o : Outside F P) (settings : PollSettings) (result : FetchResult)
    (payload : Bytes) where
  -- The response is in the raw archive, or its failure is noted.
  abbrev pub Saved : Work F P → Type 0
  Saved w = (w.locals.raw_archived ≡ true) ⊎ (w.locals.raw_ok ≡ false)

  archive_step-Saved :
      (attempt : Attempt) (w : Work F P)
      → Saved (archive_step o settings result payload true attempt w)
  unfolding archive_step
  archive_step-Saved attempt w =
      archive_raw-Decided o.compress o.decompress settings.raw_fsync
        (settings.raw_archive_interval result.feed_name) attempt
        (record {
          path = path_of o settings result payload;
          received = result.stamp;
          payload = payload;
        })
        w.collector.archive

  pub archive_if-Saved :
      (b : Bool) (attempt : Attempt) (w w' : Work F P)
      → b ≡ true
      → w'.locals.raw_archived ≡ w.locals.raw_archived
      → Saved (
          if b && not w.locals.raw_archived
          then archive_step o settings result payload true attempt w'
          else w')
  archive_if-Saved b attempt w w' h same = elim (Bool-cases w.locals.raw_archived) [
    | inl e ↦
        subst
          (λ c. Saved (if c then archive_step o settings result payload true attempt w' else w'))
          {x = false} (ground (arith, h, e)) (inl (same ∙ e))
    | inr e ↦
        subst
          (λ c. Saved (if c then archive_step o settings result payload true attempt w' else w'))
          {x = true} (ground (arith, h, e)) (archive_step-Saved attempt w')
  ]

  -- An archival keeps what the steps found.
  pub archive_if-all_ok :
      (b : Bool) (attempt : Attempt) (w w' : Work F P)
      → all_ok o settings result payload w'.locals ≡ all_ok o settings result payload w.locals
      → all_ok o settings result payload
          (if b then archive_step o settings result payload true attempt w' else w').locals
        ≡ all_ok o settings result payload w.locals
  unfolding archive_step
  archive_if-all_ok b attempt w w' h =
      at_if (λ (x : Work F P). all_ok o settings result payload x.locals)
        (all_ok o settings result payload w.locals) b h h

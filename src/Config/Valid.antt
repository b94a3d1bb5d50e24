-- ===== src/Config/Valid.antt =====
-- config.py, what an accepted configuration guarantees.
use bkk_collector.Base.{
  ◌≡◌, refl, arith, String, Bool, false, not, Option, none, some, [], ◌∷◌, if◌then◌else◌,
}
use bkk_collector.Base.Int.{ℤ, pos, ltb_ℤ, ◌≤ℤ◌}
use bkk_collector.Base.Dict.{Dict}
use bkk_collector.Config.{
  too_short, not_positive, negative, disk_order, CollectorConfig, ConfigError, min_interval,
  first_refused, or_else, interval_from, common_interval, feed_intervals, raw_archive_intervals,
  trip_update_numeric_tolerances, positive_values, nonnegative_values, config_error,
}

-- Every value of a table satisfies a predicate.
abbrev pub Values : (ℤ → Type 0) → Dict String ℤ → Type 0
Values P [] = Unit
Values P ((name, value) ∷ values) = P value × Values P values

first_refused-none :
    (refuses : ℤ → Bool) (error : String → ConfigError) (values : Dict String ℤ)
    → first_refused refuses error values ≡ none
    → Values (λ v. refuses v ≡ false) values
unfolding first_refused
first_refused-none refuses error [] h = tt
first_refused-none refuses error ((name, value) ∷ values) h =
    (ground arith, first_refused-none refuses error values (ground arith))

or_else-none : (a b : Option ConfigError) → or_else a b ≡ none → (a ≡ none) × (b ≡ none)
or_else-none none b h = (refl, h)
or_else-none (some e) b h = absurd (cc h)

Values-map :
    {P Q : ℤ → Type 0}
    → ((v : ℤ) → P v → Q v)
    → (values : Dict String ℤ) → Values P values
    → Values Q values
Values-map f [] h = tt
Values-map f ((name, value) ∷ values) (h, hs) = (f value h, Values-map f values hs)

not_below : (a v : ℤ) → ltb_ℤ v a ≡ false → a ≤ℤ v
not_below a v h = ground arith

above_zero : (v : ℤ) → not (ltb_ℤ (pos 0) v) ≡ false → pos 1 ≤ℤ v
above_zero v h = ground arith

-- The checks of `__post_init__` from the third one, and from the fourth one.
abbrev nonnegative_on : CollectorConfig → Option ConfigError
nonnegative_on c =
    or_else (first_refused (λ v. ltb_ℤ v (pos 0)) negative (nonnegative_values c))
      (if ltb_ℤ c.disk_warn_free c.disk_critical_free then some disk_order else none)

abbrev positive_on : CollectorConfig → Option ConfigError
positive_on c =
    or_else (first_refused (λ v. not (ltb_ℤ (pos 0) v)) not_positive (positive_values c))
      (nonnegative_on c)

raw_archive-Values :
    (c : CollectorConfig)
    → Values (λ v. pos 0 ≤ℤ v) (nonnegative_values c)
    → Values (λ v. pos 0 ≤ℤ v) (raw_archive_intervals c)
unfolding nonnegative_values raw_archive_intervals
raw_archive-Values c (flush, (archive, (sample, rest))) =
    (omega arith, (ground (arith, archive, sample), (omega arith, tt)))

tolerances-Values :
    (c : CollectorConfig)
    → Values (λ v. pos 0 ≤ℤ v) (nonnegative_values c)
    → Values (λ v. pos 0 ≤ℤ v) (trip_update_numeric_tolerances c)
unfolding nonnegative_values trip_update_numeric_tolerances
tolerances-Values c (flush, (archive, (sample, (delay, (prediction, (distance, rest)))))) =
    (prediction, (prediction, (distance, tt)))

-- What the scheduler, the archive, the change tracker, the client and the monitor rely on.
pub record IsSound (c : CollectorConfig) : Type 0 where
  pub vehicles : min_interval ≤ℤ interval_from c c.vehicle_positions_interval (pos 10000)
  pub trips : min_interval ≤ℤ interval_from c c.trip_updates_interval (pos 10000)
  pub alerts : min_interval ≤ℤ interval_from c c.alerts_interval (pos 30000)
  pub heartbeat : pos 1 ≤ℤ c.heartbeat
  pub guard : pos 1 ≤ℤ c.change_tracker_null_guard_rows
  pub connect : pos 1 ≤ℤ c.connect_timeout
  pub reads : pos 1 ≤ℤ c.read_timeout
  pub stale : pos 1 ≤ℤ c.feed_stale
  pub absent : pos 1 ≤ℤ c.feed_absent
  pub frozen : pos 1 ≤ℤ c.frozen_payload
  pub alerts_frozen : pos 1 ≤ℤ c.alerts_frozen_payload
  pub flush : pos 0 ≤ℤ c.parquet_flush
  pub archive : pos 0 ≤ℤ c.tripupdates_raw_archive
  pub sample : pos 0 ≤ℤ c.tripupdates_analysis_sample
  pub delay : pos 0 ≤ℤ c.delay_change_threshold
  pub prediction : pos 0 ≤ℤ c.prediction_time_change_threshold
  pub retries : pos 0 ≤ℤ c.http_connect_retries
  pub backoff : pos 0 ≤ℤ c.http_backoff
  pub disk_critical : pos 0 ≤ℤ c.disk_critical_free
  pub disk_order : c.disk_critical_free ≤ℤ c.disk_warn_free

IsSound-of_Values :
    (c : CollectorConfig)
    → Values (λ v. min_interval ≤ℤ v) (feed_intervals c)
    → Values (λ v. pos 1 ≤ℤ v) (positive_values c)
    → Values (λ v. pos 0 ≤ℤ v) (nonnegative_values c)
    → (c.disk_critical_free ≤ℤ c.disk_warn_free)
    → IsSound c
unfolding feed_intervals positive_values nonnegative_values
IsSound-of_Values c (vehicles, (trips, (alerts, _)))
      (heartbeat, (guard, (connect, (reads, (stale, (absent, (frozen, (alerts_frozen, _))))))))
      (
        flush,
        (
          archive,
          (
            sample,
            (delay, (prediction, (distance, (warn, (disk_critical, (retries, (backoff, _))))))),
          ),
        ),
      )
      order =
    record {
      vehicles = vehicles;
      trips = trips;
      alerts = alerts;
      heartbeat = heartbeat;
      guard = guard;
      connect = connect;
      reads = reads;
      stale = stale;
      absent = absent;
      frozen = frozen;
      alerts_frozen = alerts_frozen;
      flush = flush;
      archive = archive;
      sample = sample;
      delay = delay;
      prediction = prediction;
      retries = retries;
      backoff = backoff;
      disk_critical = disk_critical;
      disk_order = order;
    }

-- An accepted configuration polls each of the three feeds at least five seconds apart; its
-- heartbeat, null guard, timeouts and monitor limits are positive; its flush and sampling
-- intervals, thresholds, retries and disk limits are not negative; it warns of a full disk no later
-- than it calls it critical; and the archival intervals and tolerances that it derives are not
-- negative.
pub config_error-none :
    (c : CollectorConfig)
    → config_error c ≡ none
    → IsSound c
      × Values (λ v. pos 0 ≤ℤ v) (raw_archive_intervals c)
      × Values (λ v. pos 0 ≤ℤ v) (trip_update_numeric_tolerances c)
config_error-none c h =
    let intervals = feed_intervals c in
    let (common, h1) =
      or_else-none
        (first_refused (λ v. ltb_ℤ v min_interval) too_short (common_interval c.poll_interval))
        (or_else (first_refused (λ v. ltb_ℤ v min_interval) too_short intervals) (positive_on c))
        (unfold config_error in h) in
    let (spaced, h2) =
      or_else-none (first_refused (λ v. ltb_ℤ v min_interval) too_short intervals) (positive_on c)
        h1 in
    let (positive, h3) =
      or_else-none (first_refused (λ v. not (ltb_ℤ (pos 0) v)) not_positive (positive_values c))
        (nonnegative_on c) h2 in
    let (nonnegative, ordered) =
      or_else-none (first_refused (λ v. ltb_ℤ v (pos 0)) negative (nonnegative_values c))
        (if ltb_ℤ c.disk_warn_free c.disk_critical_free then some disk_order else none) h3 in
    let values =
      Values-map (not_below (pos 0)) (nonnegative_values c)
        (first_refused-none (λ v. ltb_ℤ v (pos 0)) negative (nonnegative_values c) nonnegative) in
    (
      IsSound-of_Values c
          (Values-map (not_below min_interval) intervals
            (first_refused-none (λ v. ltb_ℤ v min_interval) too_short intervals spaced))
          (Values-map above_zero (positive_values c) (
            first_refused-none (λ v. not (ltb_ℤ (pos 0) v)) not_positive (positive_values c)
              positive))
          values (ground arith),
      raw_archive-Values c values,
      tolerances-Values c values,
    )

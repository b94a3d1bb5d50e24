-- ===== src/Config.antt =====
-- config.py: the validation of `CollectorConfig` and the intervals that it gives to the scheduler
-- and to the raw archive. A number is an integer, of milliseconds where it is a time and of bytes
-- where it is a size, and so is finite.
pub mod Valid
use bkk_collector.Base.{
  ℕ, String, Bool, true, false, not, Option, none, some, List, [], ◌∷◌, if◌then◌else◌, from_some,
}
use bkk_collector.Base.Int.{ℤ, pos, ltb_ℤ}
use bkk_collector.Base.Dict.{Dict, from_option}

-- `MIN_REALTIME_INTERVAL_SECONDS`
abbrev pub min_interval : ℤ
min_interval = pos 5000

pub record CollectorConfig : Type 0 where
  pub poll_interval : Option ℤ
  pub vehicle_positions_interval : Option ℤ
  pub trip_updates_interval : Option ℤ
  pub alerts_interval : Option ℤ
  pub parquet_flush : ℤ
  pub tripupdates_raw_archive : ℤ
  pub tripupdates_analysis_sample : ℤ
  pub delay_change_threshold : ℤ
  pub prediction_time_change_threshold : ℤ
  pub bkk_stop_distance_change_threshold : Option ℤ
  pub change_tracker_null_guard_rows : ℤ
  pub heartbeat : ℤ
  pub disk_warn_free : ℤ
  pub disk_critical_free : ℤ
  pub connect_timeout : ℤ
  pub read_timeout : ℤ
  pub http_connect_retries : ℤ
  pub http_backoff : ℤ
  pub feed_stale : ℤ
  pub feed_absent : ℤ
  pub frozen_payload : ℤ
  pub alerts_frozen_payload : ℤ

-- The messages of the `ValueError`.
pub data ConfigError : Type 0 where
  too_short : String → ConfigError
  not_positive : String → ConfigError
  negative : String → ConfigError
  disk_order : ConfigError

-- The interval of a feed: its own, else the common one, else the default.
abbrev pub interval_from : CollectorConfig → Option ℤ → ℤ → ℤ
interval_from c own default = from_some default (from_option c.poll_interval own)

-- `feed_intervals`
unfoldable pub feed_intervals : CollectorConfig → Dict String ℤ
feed_intervals c =
    ("vehiclepositions", interval_from c c.vehicle_positions_interval (pos 10000))
    ∷ ("tripupdates", interval_from c c.trip_updates_interval (pos 10000))
    ∷ ("alerts", interval_from c c.alerts_interval (pos 30000))
    ∷ []

abbrev pub min_ℤ : ℤ → ℤ → ℤ
min_ℤ a b = if ltb_ℤ b a then b else a

-- `raw_archive_intervals`
unfoldable pub raw_archive_intervals : CollectorConfig → Dict String ℤ
raw_archive_intervals c =
    ("vehiclepositions", pos 0)
    ∷ (
      "tripupdates",
      if ltb_ℤ (pos 0) c.tripupdates_analysis_sample
          then min_ℤ c.tripupdates_raw_archive c.tripupdates_analysis_sample
          else c.tripupdates_raw_archive,
    )
    ∷ ("alerts", pos 0)
    ∷ []

-- `trip_update_numeric_tolerances`
unfoldable pub trip_update_numeric_tolerances : CollectorConfig → Dict String ℤ
trip_update_numeric_tolerances c =
    ("arrival_time", c.prediction_time_change_threshold)
    ∷ ("departure_time", c.prediction_time_change_threshold)
    ∷ ("bkk_stop_distance", from_some c.delay_change_threshold c.bkk_stop_distance_change_threshold)
    ∷ []

-- A loop of `__post_init__`: the error of the first value that a test refuses.
unfoldable pub first_refused :
    (ℤ → Bool) → (String → ConfigError) → Dict String ℤ → Option ConfigError
first_refused refuses error [] = none
first_refused refuses error ((name, value) ∷ values) =
    let rest = first_refused refuses error values in
    if refuses value then some (error name) else rest

abbrev pub common_interval : Option ℤ → Dict String ℤ
common_interval none = []
common_interval (some interval) = ("POLL_INTERVAL_SECONDS", interval) ∷ []

unfoldable pub positive_values : CollectorConfig → Dict String ℤ
positive_values c =
    ("heartbeat_seconds", c.heartbeat)
    ∷ ("change_tracker_null_guard_rows", c.change_tracker_null_guard_rows)
    ∷ ("connect_timeout_seconds", c.connect_timeout)
    ∷ ("read_timeout_seconds", c.read_timeout)
    ∷ ("feed_stale_seconds", c.feed_stale)
    ∷ ("feed_absent_seconds", c.feed_absent)
    ∷ ("frozen_payload_seconds", c.frozen_payload)
    ∷ ("alerts_frozen_payload_seconds", c.alerts_frozen_payload)
    ∷ []

unfoldable pub nonnegative_values : CollectorConfig → Dict String ℤ
nonnegative_values c =
    ("parquet_flush_seconds", c.parquet_flush)
    ∷ ("tripupdates_raw_archive_seconds", c.tripupdates_raw_archive)
    ∷ ("tripupdates_analysis_sample_seconds", c.tripupdates_analysis_sample)
    ∷ ("delay_change_threshold_seconds", c.delay_change_threshold)
    ∷ ("prediction_time_change_threshold_seconds", c.prediction_time_change_threshold)
    ∷ (
      "bkk_stop_distance_change_threshold",
      from_some c.delay_change_threshold c.bkk_stop_distance_change_threshold,
    )
    ∷ ("disk_warn_free_gb", c.disk_warn_free)
    ∷ ("disk_critical_free_gb", c.disk_critical_free)
    ∷ ("http_connect_retries", c.http_connect_retries)
    ∷ ("http_backoff_seconds", c.http_backoff)
    ∷ []

-- The first of two errors.
abbrev pub or_else : Option ConfigError → Option ConfigError → Option ConfigError
or_else none second = second
or_else (some error) second = some error

-- `__post_init__`: the exception, if there is one.
unfoldable pub config_error : CollectorConfig → Option ConfigError
unfolding first_refused feed_intervals positive_values nonnegative_values
config_error c =
    or_else (first_refused (λ v. ltb_ℤ v min_interval) too_short (common_interval c.poll_interval))
      (or_else (first_refused (λ v. ltb_ℤ v min_interval) too_short (feed_intervals c)) (
        or_else (first_refused (λ v. not (ltb_ℤ (pos 0) v)) not_positive (positive_values c)) (
          or_else (first_refused (λ v. ltb_ℤ v (pos 0)) negative (nonnegative_values c))
            (if ltb_ℤ c.disk_warn_free c.disk_critical_free then some disk_order else none))))

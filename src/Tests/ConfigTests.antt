-- ===== src/Tests/ConfigTests.antt =====
-- config.py on the defaults, with an interval of its own for Alerts.
use bkk_collector.Base.{none, some, refl, ◌≡◌}
use bkk_collector.Base.Int.{pos, ◌≤ℤ◌}
use bkk_collector.Config.{
  CollectorConfig, config_error, feed_intervals, raw_archive_intervals,
  trip_update_numeric_tolerances, positive_values, first_refused, nonnegative_values,
}
use bkk_collector.Config.Valid.{Values, IsSound, config_error-none}

abbrev defaults : CollectorConfig
defaults = record {
  poll_interval = none;
  vehicle_positions_interval = none;
  trip_updates_interval = none;
  alerts_interval = some (pos 60000);
  parquet_flush = pos 300000;
  tripupdates_raw_archive = pos 300000;
  tripupdates_analysis_sample = pos 0;
  delay_change_threshold = pos 15;
  prediction_time_change_threshold = pos 2;
  bkk_stop_distance_change_threshold = none;
  change_tracker_null_guard_rows = pos 1000;
  heartbeat = pos 1800000;
  disk_warn_free = pos 8000000000;
  disk_critical_free = pos 4000000000;
  connect_timeout = pos 5000;
  read_timeout = pos 15000;
  http_connect_retries = pos 1;
  http_backoff = pos 300;
  feed_stale = pos 180000;
  feed_absent = pos 180000;
  frozen_payload = pos 300000;
  alerts_frozen_payload = pos 86400000;
}

accepted : config_error defaults ≡ none
unfolding config_error first_refused feed_intervals positive_values nonnegative_values
accepted = refl

config_error-none_example :
    IsSound defaults
    × Values (λ v. pos 0 ≤ℤ v) (raw_archive_intervals defaults)
    × Values (λ v. pos 0 ≤ℤ v) (trip_update_numeric_tolerances defaults)
config_error-none_example = config_error-none defaults accepted

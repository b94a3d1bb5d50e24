-- ===== src/Tests/MonitoringTests.antt =====
-- monitoring.py on a few polls.
use bkk_collector.Base.{
  ℕ, ◌≡◌, ◌↔◌, refl, String, true, false, Option, none, some, List, [], ◌∷◌, all, All, from_some,
  string_eq, option_eq, ==_iff,
}
use bkk_collector.Base.Dict.{Dict, lookup}
use bkk_collector.Monitoring.Feeds.{
  Success, FeedHealth, Limits, is_warning, success_flags, payload_since, record_success, feed_names,
}
use bkk_collector.Monitoring.Status.{FeedSnapshot, Surroundings, no_health, write_status}
use bkk_collector.Monitoring.Verdict.{IsWell, IsSound, write_status-healthy}
use bkk_collector.Monitoring.Flags.{success_flags-alerts}
use bkk_collector.Monitoring.Frozen.{success_flags-record_polls}
use bkk_collector.Monitoring.Unchanged.{
  Poll, succeeds, fails, record_poll, record_polls, payload_since-record_polls,
}

abbrev pub limits : Limits
limits = record { stale = 120000; absent = 60000; frozen = 300000; alerts_frozen = 900000 }

abbrev success : ℕ → String → Success
success now hash = record {
  now = now;
  header_timestamp = some 1000;
  content_sha256 = hash;
  min_entity_timestamp = none;
  max_entity_timestamp = none;
  parse_ok = true;
  presence_ok = true;
  change_tracking_ok = true;
  change_tracking_failure_flag = none;
  raw_ok = true;
  spool_ok = true;
  entity_count = some 2;
  http_status = some 200;
  payload_size = some 10;
  payload_sha256 = some hash;
}

abbrev known : FeedHealth
known = (record_success limits "alerts" no_health (success 1000000 "a")).1

abbrev polls : List Poll
polls = fails 1010000 "timeout" none ∷ succeeds (success 1020000 "a") ∷ []

payload_since-record_polls_example :
    payload_since
      (record_polls limits "alerts" no_health (succeeds (success 1000000 "a") ∷ polls))
      (success 1030000 "a")
    ≡ 1000000
payload_since-record_polls_example =
    payload_since-record_polls limits "alerts" no_health (success 1000000 "a") (success 1030000 "a")
      polls (λ e. cc e) (tt, (refl, tt)) refl

success_flags-alerts_example :
    all is_warning (success_flags limits "alerts" no_health (success 9000000 "a")) ≡ true
success_flags-alerts_example = success_flags-alerts limits no_health (success 9000000 "a") refl

-- The content changed at 1200000, the header has stood since 1000000.
success_flags-record_polls_example :
    all is_warning (
      success_flags limits "tripupdates"
        (record_polls limits "tripupdates"
          (record_polls limits "tripupdates" no_health
            (succeeds (success 1000000 "a") ∷ succeeds (success 1100000 "b") ∷ []))
          (succeeds (success 1200000 "c") ∷ fails 1250000 "timeout" none ∷ []))
        (success 1350000 "c"))
    ≡ false
unfolding record_polls record_poll record_success
success_flags-record_polls_example =
    success_flags-record_polls limits "tripupdates" no_health (success 1000000 "a")
      (success 1200000 "c") (success 1350000 "c") (succeeds (success 1100000 "b") ∷ [])
      (fails 1250000 "timeout" none ∷ []) refl refl (λ e. cc e) (refl, tt) refl (tt, tt) refl
      (λ e. cc ((==_iff {A = Option String} (some "b") (some "c")).1 e)) (tt, tt) refl

abbrev well : FeedHealth
well = record no_health { last_success = some (success 1000000 "a") }

abbrev feeds : Dict String FeedHealth
feeds = ("vehiclepositions", well) ∷ ("tripupdates", well) ∷ ("alerts", well) ∷ []

abbrev quiet : Surroundings
quiet = record {
  disk_free = 9;
  disk_warn = 5;
  disk_critical_below = 2;
  flush_errors = [];
  cycle_errors = [];
  worker = some (true, 0);
}

write_status-healthy_example : ((write_status limits 1010000 feeds [] quiet).healthy ≡ true) ↔ (
    All
      (λ feed.
        IsWell limits 1010000
          (from_some no_health (lookup feed feeds))
          (lookup {V = FeedSnapshot} feed []))
      feed_names
    × IsSound quiet)
write_status-healthy_example = write_status-healthy limits 1010000 feeds [] quiet

is_healthy : (write_status limits 1010000 feeds [] quiet).healthy ≡ true
unfolding write_status lookup
is_healthy = refl

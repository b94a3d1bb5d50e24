-- ===== src/Monitoring/Feeds.antt =====
-- monitoring.py: `evaluate_freshness`, and record_success and record_failure of `HealthMonitor`.
-- Times are in milliseconds; a list of flags stands for the sorted set that the source makes of it.
use bkk_collector.Base.{
  ℕ, ◌-◌, ◌*◌, ◌+◌, String, Bool, true, false, not, ◌&&◌, Option, none, some, List, [], ◌∷◌, ◌++◌,
  ltb, from_some, ◌==◌, string_eq, nat_eq, option_eq, nat_beq, keep, any, if◌then◌else◌,
}
use bkk_collector.Base.Dict.{from_option}

-- `FEED_NAMES`
abbrev pub feed_names : List String
feed_names = "vehiclepositions" ∷ "tripupdates" ∷ "alerts" ∷ []

-- The freshness flags.
pub data Flag : Type 0 where
  source_timestamp_stale : Flag
  payload_frozen : Flag
  source_timestamp_frozen : Flag
  source_timestamp_unchanged_warning : Flag
  payload_unchanged_warning : Flag
  protobuf_parse_failed : Flag
  change_tracker_signal_missing : Flag
  change_tracker_failed : Flag
  entity_timestamp_stale : Flag
  raw_archive_failed : Flag
  derived_spool_failed : Flag
  tripupdates_presence_failed : Flag

-- `flag.endswith("_warning")`
abbrev pub is_warning : Flag → Bool
is_warning source_timestamp_unchanged_warning = true
is_warning payload_unchanged_warning = true
is_warning _ = false

abbrev pub is_header_flag : Flag → Bool
is_header_flag source_timestamp_stale = true
is_header_flag source_timestamp_frozen = true
is_header_flag _ = false

abbrev pub is_payload_frozen : Flag → Bool
is_payload_frozen payload_frozen = true
is_payload_frozen _ = false

-- A flag that is there under a condition.
abbrev pub flag_if : Bool → Flag → List Flag
flag_if b flag = if b then flag ∷ [] else []

abbrev pub older : ℕ → ℕ → Option ℕ → Bool
older now limit none = false
older now limit (some at) = ltb limit (now - at * 1000)

-- `evaluate_freshness`; the header's timestamp is in seconds.
unfoldable pub evaluate_freshness : ℕ → Option ℕ → ℕ → ℕ → ℕ → ℕ → List Flag
evaluate_freshness now header header_since payload_since stale frozen =
    flag_if (older now stale header) source_timestamp_stale
    ++ flag_if (ltb frozen (now - payload_since)) payload_frozen
    ++ flag_if (ltb frozen (now - header_since)) source_timestamp_frozen

-- The arguments of `record_success`.
pub record Success : Type 0 where
  pub now : ℕ
  pub header_timestamp : Option ℕ
  pub content_sha256 : String
  pub min_entity_timestamp : Option ℕ
  pub max_entity_timestamp : Option ℕ
  pub parse_ok : Bool
  pub presence_ok : Bool
  pub change_tracking_ok : Bool
  pub change_tracking_failure_flag : Option Flag
  pub raw_ok : Bool
  pub spool_ok : Bool
  pub entity_count : Option ℕ
  pub http_status : Option ℕ
  pub payload_size : Option ℕ
  pub payload_sha256 : Option String

-- The state of a feed; `none` is a key that is not there. What `state.update` copies from the
-- arguments of the last success is `last_success`, which holds `last_success_timestamp` too.
pub record FeedHealth : Type 0 where
  pub content_sha256 : Option String
  pub payload_sha256 : Option String
  pub header_timestamp : Option ℕ
  pub payload_unchanged_since : Option ℕ
  pub header_unchanged_since : Option ℕ
  pub last_success : Option Success
  pub last_attempt : Option ℕ
  pub last_http_status : Option ℕ
  pub last_error : Option String
  pub consecutive_failures : ℕ
  pub freshness_flags : List Flag
  pub poll_journal_ok : Option Bool

-- The thresholds of `HealthMonitor`.
pub record Limits : Type 0 where
  pub stale : ℕ
  pub absent : ℕ
  pub frozen : ℕ
  pub alerts_frozen : ℕ

-- When the content last changed, as of this success.
unfoldable pub payload_since : FeedHealth → Success → ℕ
payload_since state s =
    if from_option state.payload_sha256 state.content_sha256 == some s.content_sha256
    then from_some s.now state.payload_unchanged_since
    else s.now

-- When the header's timestamp last changed, as of this success.
unfoldable pub header_since : FeedHealth → Success → ℕ
header_since state s =
    if state.header_timestamp == s.header_timestamp
    then from_some s.now state.header_unchanged_since
    else s.now

-- The flags of an unchanged Alerts feed are advisory.
unfoldable pub soften_alerts : Option ℕ → List Flag → List Flag
soften_alerts entity_count flags =
    keep (λ f. not (is_header_flag f) && not (is_payload_frozen f)) flags
    ++ flag_if (any is_header_flag flags) source_timestamp_unchanged_warning
    ++ flag_if (any is_payload_frozen flags && not (nat_beq (from_some 0 entity_count) 0))
        payload_unchanged_warning

-- The flags of the steps that failed.
unfoldable pub failure_flags : Limits → String → Success → List Flag
failure_flags limits feed s =
    flag_if (not s.parse_ok) protobuf_parse_failed
    ++ flag_if (not s.change_tracking_ok)
        (from_some change_tracker_failed s.change_tracking_failure_flag)
    ++ flag_if (not (feed == "alerts") && older s.now limits.stale s.max_entity_timestamp)
        entity_timestamp_stale
    ++ flag_if (not s.raw_ok) raw_archive_failed
    ++ flag_if (not s.spool_ok) derived_spool_failed
    ++ flag_if (not s.presence_ok) tripupdates_presence_failed

unfoldable pub success_flags : Limits → String → FeedHealth → Success → List Flag
unfolding evaluate_freshness soften_alerts failure_flags
success_flags limits feed state s =
    let frozen = if feed == "alerts" then limits.alerts_frozen else limits.frozen in
    let fresh =
      evaluate_freshness s.now s.header_timestamp (header_since state s) (payload_since state s)
        limits.stale frozen in
    (if feed == "alerts" then soften_alerts s.entity_count fresh else fresh)
    ++ failure_flags limits feed s

-- `record_success`: the flags and the feed's new state.
unfoldable pub record_success : Limits → String → FeedHealth → Success → List Flag × FeedHealth
unfolding success_flags payload_since header_since
record_success limits feed state s =
    let flags = success_flags limits feed state s in
    (
      flags,
      record state {
        content_sha256 = some s.content_sha256;
        header_timestamp = s.header_timestamp;
        payload_unchanged_since = some (payload_since state s);
        header_unchanged_since = some (header_since state s);
        last_success = some s;
        last_attempt = some s.now;
        last_http_status = s.http_status;
        consecutive_failures = 0;
        freshness_flags = flags;
      },
    )

-- `record_failure`
unfoldable pub record_failure : ℕ → String → Option ℕ → FeedHealth → FeedHealth
record_failure now error http_status state = record state {
  last_attempt = some now;
  last_error = some error;
  last_http_status = http_status;
  consecutive_failures = state.consecutive_failures + 1;
}

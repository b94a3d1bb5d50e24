-- ===== src/Monitoring/Frozen.antt =====
-- monitoring.py, when a feed other than Alerts counts as frozen, over its successes and failures.
use bkk_collector.Base.{
  ℕ, ◌-◌, ◌≡◌, ◌≢◌, refl, ap, ◌∙◌, String, false, not, ◌&&◌, Option, some, List, [], ◌∷◌, ltb, ◌==◌,
  ==_iff, ==_refl, string_eq, option_eq, nat_eq, All, all, inl, inr, Bool-cases,
}
use mathlib.Core.Path.{ap₂}
use bkk_collector.Base.Dict.{from_option}
use bkk_collector.Monitoring.Feeds.{
  is_warning, older, Success, FeedHealth, Limits, payload_since, header_since, success_flags,
  record_success, record_failure,
}
use bkk_collector.Monitoring.Flags.{steps_ok, Fails, success_flags_other}
use bkk_collector.Monitoring.Unchanged.{
  Poll, succeeds, fails, Same, record_poll, record_polls, payload_since-record_polls,
}

-- Every poll that succeeds has this header.
abbrev pub SameHeader : Option ℕ → Poll → Type 0
SameHeader header (succeeds s) = s.header_timestamp ≡ header
SameHeader header (fails now error status) = Unit

-- The header is this one, unchanged since a time.
abbrev Kept : Option ℕ → ℕ → FeedHealth → Type 0
Kept header since state =
    (state.header_timestamp ≡ header) × (state.header_unchanged_since ≡ some since)

header_since_new :
    (state : FeedHealth) (s : Success)
    → state.header_timestamp ≢ s.header_timestamp
    → header_since state s ≡ s.now
unfolding header_since
header_since_new state s new = elim (Bool-cases (state.header_timestamp == s.header_timestamp)) [
  | inl same ↦ absurd (new ((==_iff state.header_timestamp s.header_timestamp).0 same))
  | inr other ↦ rw other refl
]

header_since_same :
    (header : Option ℕ) (since : ℕ) (state : FeedHealth) (s : Success)
    → Kept header since state
    → s.header_timestamp ≡ header
    → header_since state s ≡ since
unfolding header_since
header_since_same header since state s (h, t) e = rw (h, t, e, ==_refl header) refl

record_poll-Kept :
    (limits : Limits) (feed : String) (header : Option ℕ) (since : ℕ) (state : FeedHealth)
    (p : Poll)
    → Kept header since state
    → SameHeader header p
    → Kept header since (record_poll limits feed state p)
unfolding record_poll record_success record_failure
record_poll-Kept limits feed header since state (succeeds s) k e =
    (e, ap some (header_since_same header since state s k e))
record_poll-Kept limits feed header since state (fails now error status) k e = k

record_polls-Kept :
    (limits : Limits) (feed : String) (header : Option ℕ) (since : ℕ) (state : FeedHealth)
    (polls : List Poll)
    → Kept header since state
    → All (SameHeader header) polls
    → Kept header since (record_polls limits feed state polls)
unfolding record_polls
record_polls-Kept limits feed header since state [] k h = k
record_polls-Kept limits feed header since state (p ∷ polls) k (h, hs) =
    record_polls-Kept limits feed header since (record_poll limits feed state p) polls
      (record_poll-Kept limits feed header since state p k h) hs

first-Kept :
    (limits : Limits) (feed : String) (state : FeedHealth) (first : Success) (polls : List Poll)
    → state.header_timestamp ≢ first.header_timestamp
    → All (SameHeader first.header_timestamp) polls
    → Kept first.header_timestamp first.now
        (record_polls limits feed state (succeeds first ∷ polls))
unfolding record_polls record_poll record_success
first-Kept limits feed state first polls new same =
    record_polls-Kept limits feed first.header_timestamp first.now
      (record_poll limits feed state (succeeds first)) polls
      (unfold record_poll record_success in (refl, ap some (header_since_new state first new))) same

-- A feed other than Alerts gets a new header with the success `head` and keeps it over the polls
-- behind it; with the later success `body` it gets a new content and keeps that too, failures
-- between them or not. Then the next success with both gives no flag but warnings exactly when every
-- step of it succeeded, its header and its entities are not stale, and neither the time since `head`
-- nor the time since `body` is above the limit for a frozen feed; a failed change tracker is taken to
-- hand over no warning as its flag.
pub success_flags-record_polls :
    (limits : Limits) (feed : String) (state : FeedHealth) (head body next : Success)
    (polls later : List Poll)
    → (feed == "alerts") ≡ false
    → Fails next.change_tracking_failure_flag
    → state.header_timestamp ≢ head.header_timestamp
    → All (SameHeader head.header_timestamp) polls
    → body.header_timestamp ≡ head.header_timestamp
    → All (SameHeader head.header_timestamp) later
    → next.header_timestamp ≡ head.header_timestamp
    → let between = record_polls limits feed state (succeeds head ∷ polls) in
      from_option between.payload_sha256 between.content_sha256 ≢ some body.content_sha256
      → All (Same body.content_sha256) later
      → next.content_sha256 ≡ body.content_sha256
      → all is_warning (
          success_flags limits feed
            (record_polls limits feed
              (record_polls limits feed state (succeeds head ∷ polls))
              (succeeds body ∷ later))
            next)
        ≡ (steps_ok next
            && not (older next.now limits.stale head.header_timestamp)
            && not (older next.now limits.stale next.max_entity_timestamp)
            && not (ltb limits.frozen (next.now - body.now))
            && not (ltb limits.frozen (next.now - head.now)))
success_flags-record_polls limits feed state head body next polls later other fails_flag new same
      same_body same_later same_next new_content same_content e =
    let between = record_polls limits feed state (succeeds head ∷ polls) in
    let after = record_polls limits feed between (succeeds body ∷ later) in
    let kept : Kept head.header_timestamp head.now after =
      record_polls-Kept limits feed head.header_timestamp head.now between (succeeds body ∷ later)
        (first-Kept limits feed state head polls new same) (same_body, same_later) in
    success_flags_other limits feed after next other fails_flag
    ∙ ap
        (λ h.
          steps_ok next
          && not (older next.now limits.stale h)
          && not (older next.now limits.stale next.max_entity_timestamp)
          && not (ltb limits.frozen (next.now - payload_since after next))
          && not (ltb limits.frozen (next.now - header_since after next)))
        same_next
    ∙ ap₂
        (λ p h.
          steps_ok next
          && not (older next.now limits.stale head.header_timestamp)
          && not (older next.now limits.stale next.max_entity_timestamp)
          && not (ltb limits.frozen (next.now - p))
          && not (ltb limits.frozen (next.now - h)))
        (payload_since-record_polls limits feed between body next later new_content same_content e)
        (header_since_same head.header_timestamp head.now after next kept same_next)

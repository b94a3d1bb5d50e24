-- ===== src/Monitoring/Unchanged.antt =====
-- monitoring.py, since when the content of a feed is unchanged, over successes and failures.
use bkk_collector.Base.{
  ℕ, ◌≡◌, ◌≢◌, refl, ap, String, Option, some, List, [], ◌∷◌, ◌==◌, ==_iff, ==_refl, string_eq,
  option_eq, All, inl, inr, Bool-cases,
}
use bkk_collector.Base.Dict.{from_option}
use bkk_collector.Monitoring.Feeds.{
  Success, FeedHealth, Limits, payload_since, record_success, record_failure,
}

-- The end of a poll, as the monitor learns of it.
pub data Poll : Type 0 where
  succeeds : Success → Poll
  fails : ℕ → String → Option ℕ → Poll

unfoldable pub record_poll : Limits → String → FeedHealth → Poll → FeedHealth
record_poll limits feed state (succeeds s) = (record_success limits feed state s).1
record_poll limits feed state (fails now error status) = record_failure now error status state

unfoldable pub record_polls : Limits → String → FeedHealth → List Poll → FeedHealth
record_polls limits feed state [] = state
record_polls limits feed state (p ∷ polls) =
    record_polls limits feed (record_poll limits feed state p) polls

-- Every poll that succeeds has this content.
abbrev pub Same : String → Poll → Type 0
Same hash (succeeds s) = s.content_sha256 ≡ hash
Same hash (fails now error status) = Unit

-- The content is `hash`, unchanged since a time.
abbrev Unchanged : String → ℕ → FeedHealth → Type 0
Unchanged hash since state =
    (state.content_sha256 ≡ some hash) × (state.payload_unchanged_since ≡ some since)

payload_since_new :
    (state : FeedHealth) (s : Success)
    → from_option state.payload_sha256 state.content_sha256 ≢ some s.content_sha256
    → payload_since state s ≡ s.now
unfolding payload_since
payload_since_new state s new =
    let before = from_option state.payload_sha256 state.content_sha256 in
    elim (Bool-cases (before == some s.content_sha256)) [
      | inl same ↦ absurd (new ((==_iff before (some s.content_sha256)).0 same))
      | inr other ↦ rw other refl
    ]

payload_since_same :
    (hash : String) (since : ℕ) (state : FeedHealth) (s : Success)
    → Unchanged hash since state
    → s.content_sha256 ≡ hash
    → payload_since state s ≡ since
unfolding payload_since
payload_since_same hash since state s (h, t) e = rw (h, t, e, ==_refl (some hash)) refl

record_poll-Unchanged :
    (limits : Limits) (feed hash : String) (since : ℕ) (state : FeedHealth) (p : Poll)
    → Unchanged hash since state
    → Same hash p
    → Unchanged hash since (record_poll limits feed state p)
unfolding record_poll record_success record_failure
record_poll-Unchanged limits feed hash since state (succeeds s) u e =
    (ap some e, ap some (payload_since_same hash since state s u e))
record_poll-Unchanged limits feed hash since state (fails now error status) u e = u

record_polls-Unchanged :
    (limits : Limits) (feed hash : String) (since : ℕ) (state : FeedHealth) (polls : List Poll)
    → Unchanged hash since state
    → All (Same hash) polls
    → Unchanged hash since (record_polls limits feed state polls)
unfolding record_polls
record_polls-Unchanged limits feed hash since state [] u h = u
record_polls-Unchanged limits feed hash since state (p ∷ polls) u (h, hs) =
    record_polls-Unchanged limits feed hash since (record_poll limits feed state p) polls
      (record_poll-Unchanged limits feed hash since state p u h) hs

-- After a success with new content, polls with that content, among them any failures, do not move
-- the time since when the content counts as unchanged: the next success with it measures from
-- there.
pub payload_since-record_polls :
    (limits : Limits) (feed : String) (state : FeedHealth) (first next : Success)
    (polls : List Poll)
    → from_option state.payload_sha256 state.content_sha256 ≢ some first.content_sha256
    → All (Same first.content_sha256) polls
    → next.content_sha256 ≡ first.content_sha256
    → payload_since (record_polls limits feed state (succeeds first ∷ polls)) next ≡ first.now
payload_since-record_polls limits feed state first next polls new same e =
    payload_since_same first.content_sha256 first.now
      (record_polls limits feed state (succeeds first ∷ polls)) next
      (unfold record_polls in
        record_polls-Unchanged limits feed first.content_sha256 first.now
          (record_poll limits feed state (succeeds first)) polls
          (unfold record_poll record_success in (refl, ap some (payload_since_new state first new)))
          same)
      e

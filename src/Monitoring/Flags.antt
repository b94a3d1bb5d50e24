-- ===== src/Monitoring/Flags.antt =====
-- monitoring.py, which flags of `record_success` fail a feed and which only warn.
use bkk_collector.Base.{
  ℕ, ◌-◌, ◌≡◌, refl, ap, ◌∙◌, append_assoc, arith, String, Bool, true, false, not, ◌&&◌, ◌||◌,
  Option, List, [], ◌∷◌, ◌++◌, ltb, from_some, ◌==◌, string_eq, keep, any, all, nat_beq,
}
use bkk_collector.Monitoring.Feeds.{
  Flag, is_warning, is_header_flag, is_payload_frozen, flag_if, older, evaluate_freshness, Success,
  FeedHealth, Limits, payload_since, header_since, soften_alerts, failure_flags, success_flags,
  change_tracker_failed, source_timestamp_unchanged_warning, payload_unchanged_warning,
}

all-append :
    {A : Type 0} (p : A → Bool) (xs ys : List A) → all p (xs ++ ys) ≡ (all p xs && all p ys)
all-append p [] ys = refl
all-append p (x ∷ xs) ys = ground (arith, all-append p xs ys)

all-flag_if : (b : Bool) (f : Flag) → all is_warning (flag_if b f) ≡ (not b || is_warning f)
all-flag_if true f = ground arith
all-flag_if false f = refl

-- Every step of the poll succeeded.
abbrev pub steps_ok : Success → Bool
steps_ok s = s.parse_ok && s.change_tracking_ok && s.raw_ok && s.spool_ok && s.presence_ok

-- The flag that a failed change tracker hands over is no warning.
abbrev pub Fails : Option Flag → Type 0
Fails flag = is_warning (from_some change_tracker_failed flag) ≡ false

all-failure_flags :
    (limits : Limits) (feed : String) (s : Success)
    → Fails s.change_tracking_failure_flag
    → all is_warning (failure_flags limits feed s) ≡ (
        steps_ok s
        && not (not (feed == "alerts") && older s.now limits.stale s.max_entity_timestamp))
unfolding failure_flags
all-failure_flags limits feed s h = ground arith

abbrev softened : Flag → Bool
softened f = is_warning f || is_header_flag f || is_payload_frozen f

all-keep :
    (flags : List Flag)
    → all is_warning (keep (λ f. not (is_header_flag f) && not (is_payload_frozen f)) flags)
      ≡ all softened flags
all-keep [] = refl
all-keep (f ∷ flags) = ground (arith, all-keep flags)

-- The two flags that replace those of an unchanged feed.
all-warnings :
    (b c : Bool)
    → all is_warning
        (flag_if b source_timestamp_unchanged_warning ++ flag_if c payload_unchanged_warning)
      ≡ true
all-warnings true true = refl
all-warnings true false = refl
all-warnings false true = refl
all-warnings false false = refl

and-true : (b : Bool) → (b && true) ≡ b
and-true true = refl
and-true false = refl

all-soften_alerts :
    (entity_count : Option ℕ) (flags : List Flag)
    → all is_warning (soften_alerts entity_count flags) ≡ all softened flags
unfolding soften_alerts
all-soften_alerts entity_count flags =
    let kept = keep (λ f. not (is_header_flag f) && not (is_payload_frozen f)) flags in
    let header = any is_header_flag flags in
    let frozen = any is_payload_frozen flags && not (nat_beq (from_some 0 entity_count) 0) in
    ap (all is_warning) (
      append_assoc kept (flag_if header source_timestamp_unchanged_warning)
        (flag_if frozen payload_unchanged_warning))
    ∙ all-append is_warning kept (
        flag_if header source_timestamp_unchanged_warning
        ++ flag_if frozen payload_unchanged_warning)
    ∙ ap (λ b. all is_warning kept && b) (all-warnings header frozen)
    ∙ and-true (all is_warning kept)
    ∙ all-keep flags

all-evaluate_freshness :
    (now : ℕ) (header : Option ℕ) (header_since payload_since stale frozen : ℕ)
    → all is_warning (evaluate_freshness now header header_since payload_since stale frozen) ≡ (
        not (older now stale header)
        && not (ltb frozen (now - payload_since))
        && not (ltb frozen (now - header_since)))
unfolding evaluate_freshness
all-evaluate_freshness now header header_since payload_since stale frozen = ground arith

soft-evaluate_freshness :
    (now : ℕ) (header : Option ℕ) (header_since payload_since stale frozen : ℕ)
    → all softened (evaluate_freshness now header header_since payload_since stale frozen) ≡ true
unfolding evaluate_freshness
soft-evaluate_freshness now header header_since payload_since stale frozen = ground arith

abbrev fresh_flags : Limits → ℕ → FeedHealth → Success → List Flag
fresh_flags limits frozen state s =
    evaluate_freshness s.now s.header_timestamp (header_since state s) (payload_since state s)
      limits.stale frozen

-- A success of the Alerts feed gives no flag but warnings exactly when every step of it succeeded,
-- however old its header and its content are; a failed change tracker is taken to hand over no
-- warning as its flag.
pub success_flags-alerts :
    (limits : Limits) (state : FeedHealth) (s : Success)
    → Fails s.change_tracking_failure_flag
    → all is_warning (success_flags limits "alerts" state s) ≡ steps_ok s
success_flags-alerts limits state s h =
    let fresh = fresh_flags limits limits.alerts_frozen state s in
    let soft = soften_alerts s.entity_count fresh in
    let split : all is_warning (success_flags limits "alerts" state s)
        ≡ all is_warning (soft ++ failure_flags limits "alerts" s) =
      unfold success_flags in refl in
    ground (
      arith,
      split,
      all-append is_warning soft (failure_flags limits "alerts" s),
      all-soften_alerts s.entity_count fresh,
      soft-evaluate_freshness s.now s.header_timestamp (header_since state s)
          (payload_since state s) limits.stale limits.alerts_frozen,
      all-failure_flags limits "alerts" s h,
    )

-- The flags of another feed.
pub success_flags_other :
    (limits : Limits) (feed : String) (state : FeedHealth) (s : Success)
    → (feed == "alerts") ≡ false
    → Fails s.change_tracking_failure_flag
    → all is_warning (success_flags limits feed state s) ≡ (
        steps_ok s
        && not (older s.now limits.stale s.header_timestamp)
        && not (older s.now limits.stale s.max_entity_timestamp)
        && not (ltb limits.frozen (s.now - payload_since state s))
        && not (ltb limits.frozen (s.now - header_since state s)))
success_flags_other limits feed state s other h =
    let fresh = fresh_flags limits limits.frozen state s in
    let split : all is_warning (success_flags limits feed state s)
        ≡ all is_warning (fresh ++ failure_flags limits feed s) =
      unfold success_flags in rw other refl in
    ground (
      arith,
      split,
      other,
      all-append is_warning fresh (failure_flags limits feed s),
      all-evaluate_freshness s.now s.header_timestamp (header_since state s) (payload_since state s)
          limits.stale limits.frozen,
      all-failure_flags limits feed s h,
    )

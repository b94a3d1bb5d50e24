-- ===== src/Archive/Runs.antt =====
-- collector.py, `_archive_raw` over a run of the process, against what a reader of the logs finds.
use bkk_collector.Base.{
  ℕ, ◌<◌, ◌^◌, ◌≡◌, refl, Bool, true, false, ◌&&◌, Option, some, List, [], ◌∷◌, ◌++◌, ◌==◌, ==_iff,
  string_eq, if◌then◌else◌, Bool-cases, inl, inr, All, ap, subst, sym, ◌∙◌, append-nil,
  append_assoc,
}
use mathlib.Core.List.{Sublistᴰ}
use bkk_collector.Base.Dict.{lookup}
use bkk_collector.RawLog.{Bytes, bytes_of, iter_records}
use bkk_collector.RawLog.Lives.{fresh}
use bkk_collector.RawLog.Crashes.{Life-reads}
use bkk_collector.Archive.{
  RawPath, path_eq, Archive, log_at, Attempt, Response, Archived, raw_archived, archive_raw,
}
use bkk_collector.Archive.Damage.{Holds}
use bkk_collector.Archive.Durable.{item_of, Adds, archive_raw-After, archive_raw_other}

-- One call of `_archive_raw`.
pub record Call : Type 0 where
  pub interval : ℕ
  pub force : Bool
  pub attempt : Attempt
  pub response : Response

abbrev pub empty_archive : Archive
empty_archive = record { logs = []; needs_repair = []; last_archived = [] }

append-Sublist :
    {A : Type 0} {ws xs ys zs : List A}
    → Sublistᴰ ws xs
    → Sublistᴰ ys zs
    → Sublistᴰ (ws ++ ys) (xs ++ zs)
append-Sublist Sublistᴰ.slnil t = t
append-Sublist (Sublistᴰ.cons s) t = Sublistᴰ.cons (append-Sublist s t)
append-Sublist (Sublistᴰ.cons-cons e s) t = Sublistᴰ.cons-cons e (append-Sublist s t)

-- The responses of the calls for a path.
unfoldable pub handed_to : RawPath → List Call → List (ℕ × Bytes)
handed_to p [] = []
handed_to p (c ∷ calls) =
    (if c.response.path == p then item_of c.response ∷ [] else []) ++ handed_to p calls

module _ (compress : Bytes → Bytes) (decompress : Bytes → Option Bytes) (fsync : Bool) where
  abbrev pub call : Call → Archive → Archived × Archive
  call c = archive_raw compress decompress fsync c.interval c.force c.attempt c.response

  unfoldable pub run_calls : List Call → Archive → Archive
  run_calls [] a = a
  run_calls (c ∷ calls) a = run_calls calls (call c a).1

  -- The responses for a path whose call reports that it archived them.
  unfoldable pub reported_to : RawPath → List Call → Archive → List (ℕ × Bytes)
  reported_to p [] a = []
  reported_to p (c ∷ calls) a =
      (if c.response.path == p && raw_archived (call c a).0 then item_of c.response ∷ [] else [])
      ++ reported_to p calls (call c a).1

  -- A log that holds `kept` holds, after the calls, these and new responses: all that were reported
  -- and none that was not handed over, in their order.
  record Grown (p : RawPath) (kept : List (ℕ × Bytes)) (calls : List Call) (a : Archive)
      : Type 0 where
    new : List (ℕ × Bytes)
    holds : Holds compress decompress p (kept ++ new) (run_calls calls a)
    reported : Sublistᴰ (reported_to p calls a) new
    handed : Sublistᴰ new (handed_to p calls)

  -- A call for the path, in front of calls from the state it leaves.
  call-Grown :
      (p : RawPath) (kept kept' : List (ℕ × Bytes)) (c : Call) (calls : List Call) (a : Archive)
      → (c.response.path == p) ≡ true
      → Adds compress decompress c.response (call c a).0 kept kept'
      → Grown p kept' calls (call c a).1
      → Grown p kept (c ∷ calls) a
  unfolding run_calls reported_to handed_to
  call-Grown p kept kept' c calls a same adds next = record {
    new = adds.new ++ next.new;
    holds =
        subst (λ xs. Holds compress decompress p xs (run_calls calls (call c a).1))
          (ap (λ xs. xs ++ next.new) adds.grows ∙ append_assoc kept adds.new next.new) next.holds;
    reported = rw same (append-Sublist adds.reported next.reported);
    handed = rw same (append-Sublist adds.handed next.handed);
  }

  call_other-Grown :
      (p : RawPath) (kept : List (ℕ × Bytes)) (c : Call) (calls : List Call) (a : Archive)
      → (c.response.path == p) ≡ false
      → Grown p kept calls (call c a).1
      → Grown p kept (c ∷ calls) a
  unfolding run_calls reported_to handed_to
  call_other-Grown p kept c calls a other next = record {
    new = next.new;
    holds = next.holds;
    reported = rw other next.reported;
    handed = rw other next.handed;
  }

  run_calls-Grown :
      (p : RawPath) (kept : List (ℕ × Bytes)) (calls : List Call) (a : Archive)
      → All (λ c. c.response.received < 2 ^ 64) calls
      → Holds compress decompress p kept a
      → Grown p kept calls a
  run_calls-Grown p kept [] a stamps holds =
      unfold run_calls reported_to handed_to in
      record {
        new = [];
        holds = rw (append-nil kept) holds;
        reported = Sublistᴰ.slnil;
        handed = Sublistᴰ.slnil;
      }
  run_calls-Grown p kept (c ∷ calls) a (stamp, stamps) holds =
      elim (Bool-cases (c.response.path == p)) [
        | inl same ↦
            let e : c.response.path ≡ p = (==_iff c.response.path p).0 same in
            let (kept', after, adds) =
              archive_raw-After compress decompress fsync c.interval c.force c.attempt c.response
                kept a stamp (subst (λ q. Holds compress decompress q kept a) (sym e) holds) in
            call-Grown p kept kept' c calls a same (adds) (
              run_calls-Grown p kept' calls (call c a).1 stamps
                (subst (λ q. Holds compress decompress q kept' (call c a).1) e after))
        | inr other ↦ call_other-Grown p kept c calls a other (
            run_calls-Grown p kept calls (call c a).1 stamps (
              archive_raw_other compress decompress fsync c.interval c.force c.attempt c.response p
                kept a other holds))
      ]

  empty-Holds : (p : RawPath) → Holds compress decompress p [] empty_archive
  unfolding lookup
  empty-Holds p = record { fit = true; life = fresh refl refl; marked = inl refl }

  module _ (gunzip : (raw : Bytes) → decompress (compress raw) ≡ some raw) where
    -- From an empty data directory, with timestamps of 64 bits, whatever fails in the calls of
    -- `_archive_raw` and whichever bytes of a failed append reach the disk: a reader of a feed's
    -- log of a day gets, in their order, all responses that were reported archived there, and none
    -- that was not handed over for it.
    pub run_calls-reads :
        (calls : List Call) (p : RawPath)
        → All (λ c. c.response.received < 2 ^ 64) calls
        → (read : List (ℕ × Bytes)) × (iter_records decompress
              (bytes_of (log_at p (run_calls calls empty_archive)).content)
            ≡ read)
          × Sublistᴰ (reported_to p calls empty_archive) read
          × Sublistᴰ read (handed_to p calls)
    run_calls-reads calls p stamps =
        let grown = run_calls-Grown p [] calls empty_archive stamps (empty-Holds p) in
        (
          grown.new,
          Life-reads compress decompress gunzip (log_at p (run_calls calls empty_archive)) grown.new
              grown.holds.fit grown.holds.life,
          grown.reported,
          grown.handed,
        )

-- ===== src/Collector/Reads.antt =====
-- collector.py, `process_result` for the responses of a process, against what a reader of the raw
-- logs finds.
use bkk_collector.Base.{
  ℕ, ◌<◌, ◌^◌, ◌≡◌, refl, sym, ap, subst, ◌∙◌, Bool, true, false, ◌&&◌, Option, none, some, List,
  [], ◌∷◌, ◌++◌, All, All-append, if◌then◌else◌, Bool-cases, inl, inr, ◌==◌, ==_iff, string_eq,
}
use mathlib.Core.List.{Sublistᴰ}
use bkk_collector.RawLog.{Bytes, bytes_of, iter_records}
use bkk_collector.Archive.{Response, raw_archived, RawPath, path_eq, Archive, log_at}
use bkk_collector.Archive.Durable.{item_of}
use bkk_collector.Archive.Runs.{Call, call, run_calls, reported_to, run_calls-reads, empty_archive}
use bkk_collector.Collector.{Collector, FetchResult, Outside, Poll, PollSettings, ScheduleFields}
use bkk_collector.Collector.Work.{path_of}
use bkk_collector.Collector.Polls.{
  metadata_step, process_failure, process_payload, process_response, process_result, journal_step,
  is_trips,
}
use bkk_collector.Collector.Calls.{at_if, run_calls-append, reported_to-append}
use bkk_collector.Collector.Trace.{Trace, response, process_payload-Trace}

-- A result that is processed, and what its poll meets.
pub record Input : Type 0 where
  pub result : FetchResult
  pub poll : Poll
  pub schedule : ScheduleFields

module _ {F P : Type 0} (o : Outside F P) (settings : PollSettings) where
  unfoldable pub process_all : List Input → Collector P → Collector P
  process_all [] c = c
  process_all (i ∷ inputs) c =
      process_all inputs (process_result o settings i.result i.poll i.schedule c)

  -- What a result adds to the archived responses of a path, as its local variables report it.
  abbrev pub archived_of : RawPath → Input → Option Bytes → Collector P → List (ℕ × Bytes)
  archived_of p i none c = []
  archived_of p i (some payload) c =
      if path_of o settings i.result payload == p
        && (process_payload o settings i.result payload i.poll i.schedule
            (metadata_step i.poll.metadata_fails c)).locals.raw_archived
      then (i.result.stamp, payload) ∷ []
      else []

  unfoldable pub archived_all : RawPath → List Input → Collector P → List (ℕ × Bytes)
  archived_all p [] c = []
  archived_all p (i ∷ inputs) c =
      archived_of p i i.result.payload c
      ++ archived_all p inputs (process_result o settings i.result i.poll i.schedule c)

  -- The calls of `_archive_raw` behind a change of the archive.
  record Calls (p : RawPath) (added : List (ℕ × Bytes)) (a b : Archive) : Type 0 where
    calls : List Call
    leads : b ≡ run_calls o.compress o.decompress settings.raw_fsync calls a
    reported : reported_to o.compress o.decompress settings.raw_fsync p calls a ≡ added
    stamps : All (λ c. c.response.received < 2 ^ 64) calls

  no-Calls : (p : RawPath) (a b : Archive) → b ≡ a → Calls p [] a b
  no-Calls p a b h =
      unfold run_calls reported_to in record { calls = []; leads = h; reported = refl; stamps = tt }

  append-Calls :
      (p : RawPath) (xs ys : List (ℕ × Bytes)) (a b c : Archive)
      → Calls p xs a b
      → Calls p ys b c
      → Calls p (xs ++ ys) a c
  append-Calls p xs ys a b c s t = record {
    calls = s.calls ++ t.calls;
    leads =
        t.leads
        ∙ ap (run_calls o.compress o.decompress settings.raw_fsync t.calls) s.leads
        ∙ sym (run_calls-append o.compress o.decompress settings.raw_fsync s.calls t.calls a);
    reported =
        reported_to-append o.compress o.decompress settings.raw_fsync p s.calls t.calls a
        ∙ ap
            (λ zs.
              zs
              ++ reported_to o.compress o.decompress settings.raw_fsync p t.calls
                  (run_calls o.compress o.decompress settings.raw_fsync s.calls a))
            s.reported
        ∙ ap (λ x. xs ++ reported_to o.compress o.decompress settings.raw_fsync p t.calls x)
            (sym s.leads)
        ∙ ap (λ zs. xs ++ zs) t.reported;
    stamps =
        All-append (λ (c : Call). c.response.received < 2 ^ 64) s.calls t.calls s.stamps t.stamps;
  }

  metadata_step-archive :
      (fails : Bool) (c : Collector P) → (metadata_step fails c).archive ≡ c.archive
  unfolding metadata_step
  metadata_step-archive fails c =
      at_if (λ (x : Collector P). x.archive) c.archive c.run_metadata_written refl
        (at_if (λ (x : Collector P). x.archive) c.archive fails refl refl)

  process_failure-archive :
      (i : Input) (c : Collector P)
      → (process_failure o settings i.result i.poll i.schedule c).archive ≡ c.archive
  unfolding process_failure journal_step
  process_failure-archive i c =
      let e =
        at_if (λ (x : Collector P). x.archive) c.archive (is_trips i.result)
          {x = record c { presence = o.invalidate "http_observation_gap" c.presence }} {y = c} refl
          refl in
      at_if (λ (x : Collector P). x.archive) c.archive i.poll.journal_fails e e

  reported_other :
      (p : RawPath) (r : Response) (calls : List Call) (a : Archive)
      → All (λ c. c.response ≡ r) calls
      → (r.path == p) ≡ false
      → reported_to o.compress o.decompress settings.raw_fsync p calls a ≡ []
  unfolding reported_to
  reported_other p r [] a h e = refl
  reported_other p r (c ∷ calls) a (h, hs) e =
      let other : (c.response.path == p) ≡ false = ap (λ (x : Response). x.path == p) h ∙ e in
      let b = call o.compress o.decompress settings.raw_fsync c a in
      ap
        (λ b'.
          (if b' && raw_archived b.0 then item_of c.response ∷ [] else [])
          ++ reported_to o.compress o.decompress settings.raw_fsync p calls b.1)
        other
      ∙ reported_other p r calls b.1 hs e

  stamped :
      (r : FetchResult) (payload : Bytes) (calls : List Call)
      → r.stamp < 2 ^ 64
      → All (λ c. c.response ≡ response o settings r payload) calls
      → All (λ c. c.response.received < 2 ^ 64) calls
  stamped r payload [] h hs = tt
  stamped r payload (c ∷ calls) h (e, hs) =
      (subst (λ (x : Response). x.received < 2 ^ 64) (sym e) h, stamped r payload calls h hs)

  -- The calls for a response, as a reader of one log sees them.
  Trace-Calls :
      (p : RawPath) (r : FetchResult) (payload : Bytes) (a b : Archive) (done : Bool)
      → r.stamp < 2 ^ 64
      → Trace o settings r payload a (b, done)
      → Calls p
          (if path_of o settings r payload == p && done then (r.stamp, payload) ∷ [] else [])
          a
          b
  Trace-Calls p r payload a b done stamp t = record {
    calls = t.calls;
    leads = t.leads;
    reported = elim (Bool-cases (path_of o settings r payload == p)) [
      | inl same ↦
          subst
            (λ q.
              reported_to o.compress o.decompress settings.raw_fsync q t.calls a
              ≡ (if path_of o settings r payload == p && done then (r.stamp, payload) ∷ [] else []))
            ((==_iff (path_of o settings r payload) p).0 same)
            (t.reported
              ∙ ap (λ b. if b && done then (r.stamp, payload) ∷ [] else []) {x = true} (sym same))
      | inr other ↦
          reported_other p (response o settings r payload) t.calls a t.handed other
          ∙ ap (λ b. if b && done then (r.stamp, payload) ∷ [] else []) {x = false} (sym other)
    ];
    stamps = stamped r payload t.calls stamp t.handed;
  }

  process_response-Calls :
      (p : RawPath) (i : Input) (payload : Option Bytes) (c : Collector P)
      → i.result.stamp < 2 ^ 64
      → Calls p
          (archived_of p i payload c)
          c.archive
          (process_response o settings i.result payload i.poll i.schedule
            (metadata_step i.poll.metadata_fails c)).archive
  process_response-Calls p i none c stamp =
      no-Calls p c.archive
        (process_failure o settings i.result i.poll i.schedule
          (metadata_step i.poll.metadata_fails c)).archive
        (process_failure-archive i (metadata_step i.poll.metadata_fails c)
          ∙ metadata_step-archive i.poll.metadata_fails c)
  process_response-Calls p i (some payload) c stamp =
      let c' = metadata_step i.poll.metadata_fails c in
      let w = process_payload o settings i.result payload i.poll i.schedule c' in
      subst (λ a. Calls p (archived_of p i (some payload) c) a w.collector.archive)
        (metadata_step-archive i.poll.metadata_fails c)
        (Trace-Calls p i.result payload c'.archive w.collector.archive w.locals.raw_archived stamp
          (process_payload-Trace o settings i.result payload i.poll i.schedule c'))

  process_result-Calls :
      (p : RawPath) (i : Input) (c : Collector P)
      → i.result.stamp < 2 ^ 64
      → Calls p
          (archived_of p i i.result.payload c)
          c.archive
          (process_result o settings i.result i.poll i.schedule c).archive
  unfolding process_result
  process_result-Calls p i c stamp = process_response-Calls p i i.result.payload c stamp

  process_all-Calls :
      (p : RawPath) (inputs : List Input) (c : Collector P)
      → All (λ i. i.result.stamp < 2 ^ 64) inputs
      → Calls p (archived_all p inputs c) c.archive (process_all inputs c).archive
  unfolding process_all archived_all
  process_all-Calls p [] c hs = no-Calls p c.archive c.archive refl
  process_all-Calls p (i ∷ inputs) c (h, hs) =
      let c' = process_result o settings i.result i.poll i.schedule c in
      append-Calls p (archived_of p i i.result.payload c) (archived_all p inputs c') c.archive
        c'.archive (process_all inputs c').archive (process_result-Calls p i c h)
        (process_all-Calls p inputs c' hs)

  -- From an empty raw archive, with timestamps of 64 bits and a decompression that inverts the
  -- compression: a reader of a feed's log of a day gets, in their order, all responses of which
  -- `process_result` says in its local variables that they are archived there, each once.
  pub process_all-reads :
      (gunzip : (raw : Bytes) → o.decompress (o.compress raw) ≡ some raw) (inputs : List Input)
      (c : Collector P) (p : RawPath)
      → c.archive ≡ empty_archive
      → All (λ i. i.result.stamp < 2 ^ 64) inputs
      → (read : List (ℕ × Bytes)) × (iter_records o.decompress
            (bytes_of (log_at p (process_all inputs c).archive).content)
          ≡ read)
        × Sublistᴰ (archived_all p inputs c) read
  process_all-reads gunzip inputs c p new stamps =
      let t = process_all-Calls p inputs c stamps in
      let (read, e, sub, handed) =
        run_calls-reads o.compress o.decompress settings.raw_fsync gunzip t.calls p t.stamps in
      (
        read,
        ap (λ a. iter_records o.decompress (bytes_of (log_at p a).content))
              (t.leads ∙ ap (run_calls o.compress o.decompress settings.raw_fsync t.calls) new)
            ∙ e,
        subst (λ xs. Sublistᴰ xs read)
            (ap (reported_to o.compress o.decompress settings.raw_fsync p t.calls) (sym new)
              ∙ t.reported)
            sub,
      )

-- ===== src/Archive.antt =====
-- collector.py, the raw archive of `Collector`: `_archive_raw` with its schedule, the set
-- `raw_needs_repair` and the repairs before an append. What the disk does is an argument.
use bkk_collector.Base.{
  ℕ, String, ◌-◌, ◌≡◌, arith, Bool, true, false, not, ◌&&◌, ◌||◌, Option, none, some, List, [], ◌∷◌,
  leb, from_some, Eq, ◌==◌, ==_iff, string_eq, keep, if◌then◌else◌, ◌↔◌, refl,
}
pub mod Damage
pub mod Repairs
pub mod Durable
pub mod Runs
pub mod Liveness
use mathlib.Core.Option as Option
use bkk_collector.Base.Dict.{Dict, lookup, insert, member}
use bkk_collector.RawLog.{
  Bytes, LogFile, no_log, RepairCut, append_record, append_cut, repair_truncated_tail, repair_cut,
}

-- `_raw_path`: raw/<feed>/date=<date>/<feed>.rawlog
pub record RawPath : Type 0 where
  pub feed : String
  pub date : String

abbrev pub path_beq : RawPath → RawPath → Bool
path_beq p q = p.feed == q.feed && p.date == q.date

pub path_beq_iff : (p q : RawPath) → (path_beq p q ≡ true) ↔ (p ≡ q)
path_beq_iff p q = ground (arith, ==_iff p.feed q.feed, ==_iff p.date q.date)

instance abbrev pub path_eq : Eq RawPath
path_eq = record { beq = path_beq; beq_iff = path_beq_iff }

-- The fields of `Collector` that archiving reads and writes, and the logs on the disk. A feed
-- without a time has not been archived by this process.
pub record Archive : Type 0 where
  pub logs : Dict RawPath LogFile
  pub needs_repair : List RawPath
  pub last_archived : Dict String ℕ

abbrev pub log_at : RawPath → Archive → LogFile
log_at path a = from_some no_log (lookup path a.logs)

abbrev pub put_log : RawPath → LogFile → Archive → Archive
put_log path log a = record a { logs = insert path log a.logs }

-- What one call meets outside: the monotonic clock, the logs that cannot be repaired now and how far
-- their repairs get, and the number of bytes of the record that reach the disk before the append
-- fails, if it fails.
pub record Attempt : Type 0 where
  pub now : ℕ
  pub repair_fails : RawPath → Bool
  pub repair_leaves : RawPath → RepairCut
  pub write_fails_after : Option ℕ

-- A response to archive.
pub record Response : Type 0 where
  pub path : RawPath
  pub received : ℕ
  pub payload : Bytes

-- `_archive_raw`'s three results: (False, True, None), (True, True, path), (False, False, error).
pub data Archived : Type 0 where
  not_due : Archived
  archived : Archived
  failed : Archived

abbrev pub raw_archived : Archived → Bool
raw_archived not_due = false
raw_archived archived = true
raw_archived failed = false

abbrev pub raw_ok : Archived → Bool
raw_ok not_due = true
raw_ok archived = true
raw_ok failed = false

-- `raw_needs_repair.add`
unfoldable pub mark : RawPath → Archive → Archive
mark path a =
    if member path a.needs_repair then a else record a { needs_repair = path ∷ a.needs_repair }

-- `raw_needs_repair.discard`
unfoldable pub discard : RawPath → Archive → Archive
discard path a = record a { needs_repair = keep (λ p. not (p == path)) a.needs_repair }

unfoldable pub is_due : Bool → ℕ → ℕ → Option ℕ → Bool
is_due force interval now none = true
is_due force interval now (some last) = force || leb interval (now - last)

-- What the loop does behind the attempt to repair one path; `none` is the exception that ends it.
unfoldable pub repair_next : RawPath → RawPath → Option LogFile → Archive → Option Archive
unfolding discard
repair_next path pending none a = if pending == path then none else some a
repair_next path pending (some log) a = some (discard pending (put_log pending log a))

module _ (decompress : Bytes → Option Bytes) where
  -- What the attempt to repair a path of the feed leaves of its log where it raises.
  unfoldable pub damage : Attempt → RawPath → RawPath → Archive → Archive
  unfolding repair_cut
  damage attempt path pending a =
      if pending.feed == path.feed && attempt.repair_fails pending
      then put_log pending
          (repair_cut decompress (attempt.repair_leaves pending) (log_at pending a)) a
      else a

  -- `repair_truncated_tail` on the log of a path; `none` is an exception, of which `damage` is what
  -- it leaves.
  unfoldable pub try_repair : Attempt → RawPath → Archive → Option LogFile
  try_repair attempt path a =
      if attempt.repair_fails path
      then none
      else Option.map (λ (r : Option Bytes × LogFile). r.1)
          (repair_truncated_tail decompress (log_at path a))

  -- The body of the loop over the paths that await a repair.
  unfoldable pub repair_one : Attempt → RawPath → RawPath → Archive → Option Archive
  unfolding repair_next
  repair_one attempt path pending a =
      if pending.feed == path.feed
      then repair_next path pending (try_repair attempt pending a) a
      else some a

  -- The loop: whether it raises, and the state.
  unfoldable pub repair_pending : Attempt → RawPath → List RawPath → Archive → Bool × Archive
  repair_pending attempt path [] a = (false, a)
  repair_pending attempt path (pending ∷ rest) a =
      let met = damage attempt path pending a in
      elim (repair_one attempt path pending met) [
        | none ↦ (true, met)
        | some b ↦ repair_pending attempt path rest b
      ]

module _ (compress : Bytes → Bytes) where
  -- What the `try` block or its handler does behind the append: the record that would be in the
  -- log, and the bytes that reach the disk where the append fails.
  unfoldable pub appended_to :
      Attempt → Response → Option LogFile → Option ℕ → Archive → Archived × Archive
  unfolding mark
  appended_to attempt r none fails a = (failed, mark r.path a)
  appended_to attempt r (some log) none a = (
    archived,
    record (put_log r.path log a) {
      last_archived = insert r.path.feed attempt.now a.last_archived;
    },
  )
  appended_to attempt r (some log) (some bytes) a = (
    failed,
    mark r.path
        (put_log r.path (append_cut compress bytes r.received r.payload (log_at r.path a)) a),
  )

  unfoldable pub append_response : Bool → Attempt → Response → Archive → Archived × Archive
  unfolding appended_to
  append_response fsync attempt r a =
      appended_to attempt r (append_record compress fsync r.received r.payload (log_at r.path a))
        attempt.write_fails_after a

  -- The rest of the `try` block and its handler, behind the loop.
  unfoldable pub after_repairs : Bool → Attempt → Response → Bool × Archive → Archived × Archive
  unfolding append_response
  after_repairs fsync attempt r (true, a) = (failed, mark r.path a)
  after_repairs fsync attempt r (false, a) = append_response fsync attempt r a

module _ (compress : Bytes → Bytes) (decompress : Bytes → Option Bytes) where
  -- `_archive_raw`
  unfoldable pub archive_raw : Bool → ℕ → Bool → Attempt → Response → Archive → Archived × Archive
  unfolding repair_pending after_repairs
  archive_raw fsync interval force attempt r a =
      if is_due force interval attempt.now (lookup r.path.feed a.last_archived)
      then after_repairs compress fsync attempt r
          (repair_pending decompress attempt r.path a.needs_repair a)
      else (not_due, a)

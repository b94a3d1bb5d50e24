-- ===== src/Archive/Liveness.antt =====
-- collector.py, when `_archive_raw` archives.
use bkk_collector.Base.{
  ℕ, ◌≤◌, ◌≡◌, refl, arith, Bool, true, false, Option, none, some, List, [], ◌∷◌, string_eq,
  Option-cases, inl, inr, length,
}
use bkk_collector.Base.Dict.{lookup}
use bkk_collector.RawLog.{Bytes, LogFile, append_record, max_compressed_record_bytes}
use bkk_collector.RawLog.Crashes.{Life-repairs}
use bkk_collector.Archive.{
  RawPath, path_eq, path_beq_iff, Archive, log_at, Attempt, Response, archived, is_due, damage,
  try_repair, repair_next, repair_one, repair_pending, appended_to, append_response, after_repairs,
  archive_raw,
}
use bkk_collector.Archive.Damage.{Holds, damage-Holds}
use bkk_collector.Archive.Repairs.{repair_one-Holds, repair_pending_goes_on}

module _ (compress : Bytes → Bytes) (decompress : Bytes → Option Bytes) (fsync : Bool) where
  after_repairs-archived :
      (attempt : Attempt) (r : Response) (s : Bool × Archive)
      → s.0 ≡ false
      → attempt.write_fails_after ≡ none
      → length (compress r.payload) ≤ max_compressed_record_bytes
      → (after_repairs compress fsync attempt r s).0 ≡ archived
  unfolding after_repairs append_response appended_to append_record
  after_repairs-archived attempt r (true, a) h write size = absurd (cc h)
  after_repairs-archived attempt r (false, a) h write size = ground arith

  module _ (gunzip : (raw : Bytes) → decompress (compress raw) ≡ some raw) where
    try_repair-eq-some :
        (attempt : Attempt) (p : RawPath) (kept : List (ℕ × Bytes)) (a : Archive)
        → Holds compress decompress p kept a
        → attempt.repair_fails p ≡ false
        → (log : LogFile) × (try_repair decompress attempt p a ≡ some log)
    try_repair-eq-some attempt p kept a holds h =
        let (found, after, e, kept_life, joined, kept_files) =
          Life-repairs compress decompress gunzip (log_at p a) kept holds.fit holds.life in
        (after, unfold try_repair in ground arith)

    repair_one_no_raise :
        (attempt : Attempt) (r q : RawPath) (kept : List (ℕ × Bytes)) (a : Archive)
        → Holds compress decompress r kept a
        → attempt.repair_fails r ≡ false
        → (b : Archive) × (repair_one decompress attempt r q a ≡ some b)
    repair_one_no_raise attempt r q kept a holds h =
        elim (Option-cases (repair_one decompress attempt r q a)) [
          | inl raises ↦
              let (log, e) = try_repair-eq-some attempt r kept a holds h in
              absurd (unfold repair_one repair_next in ground (arith, raises, e, path_beq_iff q r))
          | inr found ↦ found
        ]

    repair_pending_no_raise :
        (attempt : Attempt) (r : RawPath) (kept : List (ℕ × Bytes)) (ps : List RawPath)
        (a : Archive)
        → Holds compress decompress r kept a
        → attempt.repair_fails r ≡ false
        → (repair_pending decompress attempt r ps a).0 ≡ false
    repair_pending_no_raise attempt r kept [] a holds h = unfold repair_pending in refl
    repair_pending_no_raise attempt r kept (q ∷ ps) a holds h =
        let met = damage decompress attempt r q a in
        let kept_on = damage-Holds compress decompress attempt r q r kept a holds in
        let (b, e) = repair_one_no_raise attempt r q kept met kept_on h in
        rw (repair_pending_goes_on compress decompress attempt r q ps a b e) (
          repair_pending_no_raise attempt r kept ps b
            (repair_one-Holds compress decompress attempt r q r kept met b e kept_on) h)

    -- A due call without a fault of the disk, for a response that is not oversized and a log that
    -- is fit for an append or marked for repair, archives it, also where earlier appends to the log
    -- failed and other logs cannot be repaired.
    pub archive_raw-archives :
        (interval : ℕ) (force : Bool) (attempt : Attempt) (r : Response) (kept : List (ℕ × Bytes))
        (a : Archive)
        → Holds compress decompress r.path kept a
        → is_due force interval attempt.now (lookup r.path.feed a.last_archived) ≡ true
        → attempt.repair_fails r.path ≡ false
        → attempt.write_fails_after ≡ none
        → length (compress r.payload) ≤ max_compressed_record_bytes
        → (archive_raw compress decompress fsync interval force attempt r a).0 ≡ archived
    unfolding archive_raw
    archive_raw-archives interval force attempt r kept a holds due repair write size = rw due (
        after_repairs-archived attempt r (repair_pending decompress attempt r.path a.needs_repair a)
          (repair_pending_no_raise attempt r.path kept a.needs_repair a holds repair) write size)

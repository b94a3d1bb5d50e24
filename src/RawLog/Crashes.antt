-- ===== src/RawLog/Crashes.antt =====
-- storage/raw_log.py, what a reader and a repair find at any point of the life of a log.
use bkk_collector.Base.{
  ℕ, ◌≡◌, refl, Bool, true, Option, none, some, List, [], ◌∷◌, ◌++◌, append-nil, inl, inr, ◌∙◌, ap,
  sym,
}
use bkk_collector.RawLog.{Bytes, LogFile, bytes_of, repair_truncated_tail, iter_records}
use bkk_collector.RawLog.Scanning.{Stored, encode, iter_records-encode}
use bkk_collector.RawLog.Repair.{repaired, found_tail, repair_truncated_tail-encode}
use bkk_collector.RawLog.Lives.{Life, repairs, HasShape, bytes-HasShape}
use bkk_collector.RawLog.Shapes.{repair_missing, Life-HasShape}

-- The forensic files that a repair adds.
abbrev pub forensic : Option Bytes → List Bytes
forensic none = []
forensic (some tail) = tail ∷ []

recovered_tail :
    (log : LogFile) (es : List Stored) (tail : Bytes)
    → (repaired log es tail).recovered ≡ forensic (found_tail tail) ++ log.recovered
recovered_tail log es [] = refl
recovered_tail log es (x ∷ tail) = refl

bytes_of-found_tail : (tail : Bytes) → tail ≡ bytes_of (found_tail tail)
bytes_of-found_tail [] = refl
bytes_of-found_tail (x ∷ tail) = refl

module _ (compress : Bytes → Bytes) (decompress : Bytes → Option Bytes)
    (gunzip : (raw : Bytes) → decompress (compress raw) ≡ some raw) where
  -- Where no append comes behind an append that was cut off unless a repair ran to its end or to
  -- its checkpoint before it, a reader gets exactly the responses whose whole record was written,
  -- its fsync and checkpoint done or not, in order and as they were, also while the beginning of
  -- a record that was cut off is behind them.
  pub Life-reads :
      (log : LogFile) (kept : List (ℕ × Bytes)) (fit : Bool)
      → Life compress decompress log kept fit
      → iter_records decompress (bytes_of log.content) ≡ kept
  Life-reads log kept fit life =
      let h = Life-HasShape compress decompress gunzip life in
      ap (iter_records decompress) (bytes-HasShape compress decompress h)
      ∙ iter_records-encode decompress h.records h.tail h.is_tail h.fits
      ∙ h.decodes

  rejoin :
      {log : LogFile} {kept : List (ℕ × Bytes)} {fit : Bool}
      (h : HasShape compress decompress log kept fit)
      → bytes_of (repaired log h.records h.tail).content ++ bytes_of (found_tail h.tail)
        ≡ bytes_of log.content
  rejoin h = sym (
      bytes-HasShape compress decompress h
      ∙ ap (λ x. encode h.records ++ x) (bytes_of-found_tail h.tail))

  -- Where no append comes behind an append that was cut off unless a repair ran to its end or to
  -- its checkpoint before it, the log can be repaired at any point: the repair succeeds, leaves
  -- the log fit for an append with the same responses in it, and loses no byte, since a new
  -- forensic file beside the log, and the earlier ones, hold what it took off.
  pub Life-repairs :
      (log : LogFile) (kept : List (ℕ × Bytes)) (fit : Bool)
      → Life compress decompress log kept fit
      → (found : Option Bytes) × (after : LogFile) × (repair_truncated_tail decompress log
          ≡ some (found, after))
        × Life compress decompress after kept true
        × (bytes_of after.content ++ bytes_of found ≡ bytes_of log.content)
        × (after.recovered ≡ forensic found ++ log.recovered)
  Life-repairs log kept fit life =
      let h = Life-HasShape compress decompress gunzip life in
      elim h.content [
        | inl e ↦
            let done =
              repair_truncated_tail-encode decompress log h.records h.tail e h.is_tail h.fits
                h.vouches in
            (
              found_tail h.tail,
              repaired log h.records h.tail,
              done,
              repairs (found_tail h.tail) life done,
              rejoin h,
              recovered_tail log h.records h.tail,
            )
        | inr (e, er, et) ↦
            let done = repair_missing compress decompress gunzip log e in
            (none, log, done, repairs none life done, append-nil (bytes_of log.content), refl)
      ]

-- ===== src/RawLog/Lives.antt =====
-- storage/raw_log.py over the life of a log: appends, appends cut off by a crash, repairs, and
-- repairs cut off, before the next append (collector.py repairs at start and before it retries a
-- failed append).
use bkk_collector.Base.{
  ℕ, ◌^◌, ◌≤◌, ◌<◌, ◌≡◌, refl, arith, Bool, true, false, Option, none, some, List, [], ◌∷◌, ◌++◌,
  length, append_assoc, All, ◌⊎◌, inl, inr, ◌∙◌, ap, if◌then◌else◌,
}
use bkk_collector.RawLog.{
  no_log, Bytes, LogFile, Checkpoint, frame, max_compressed_record_bytes, checkpoint_at, bytes_of,
  append_record, append_cut, repair_truncated_tail,
}
use bkk_collector.RawLog.Scanning.{Stored, encode, IsTail, Fits, decoded}
use bkk_collector.RawLog.Repair.{Vouches, for_nothing, for_prefix}

module _ (compress : Bytes → Bytes) (decompress : Bytes → Option Bytes) where
  -- The lives of a log, with the responses of which it has the whole record, and whether the last
  -- event left the log fit for an append: an append comes first, or behind an append that wrote its
  -- whole record, or behind a repair that ran to its end, never behind one that was cut off.
  pub data Life : LogFile → List (ℕ × Bytes) → Bool → Type 0 where
    fresh :
        {log : LogFile} {kept : List (ℕ × Bytes)} → log ≡ no_log → kept ≡ [] → Life log kept true
    appended :
        {log after : LogFile} {kept kept' : List (ℕ × Bytes)} (fsync : Bool) (ts : ℕ) (raw : Bytes)
        → Life log kept true
        → ts < 2 ^ 64
        → append_record compress fsync ts raw log ≡ some after
        → kept' ≡ kept ++ (ts, raw) ∷ []
        → Life after kept' true
    cut :
        {log after : LogFile} {kept : List (ℕ × Bytes)} (written ts : ℕ) (raw : Bytes)
        → Life log kept true
        → length (compress raw) ≤ max_compressed_record_bytes
        → written < length (frame ts (compress raw))
        → after ≡ append_cut compress written ts raw log
        → Life after kept false
    -- the whole record is written, and the fsync or the checkpoint behind it fails
    unconfirmed :
        {log after : LogFile} {kept kept' : List (ℕ × Bytes)} (ts : ℕ) (raw : Bytes)
        → Life log kept true
        → ts < 2 ^ 64
        → length (compress raw) ≤ max_compressed_record_bytes
        → after ≡ append_cut compress (length (frame ts (compress raw))) ts raw log
        → kept' ≡ kept ++ (ts, raw) ∷ []
        → Life after kept' true
    -- a repair fails while it copies the tail
    copies :
        {log after : LogFile} {kept : List (ℕ × Bytes)} {fit : Bool} (copy : Bytes)
        → Life log kept fit
        → after ≡ record log { recovered = copy ∷ log.recovered }
        → Life after kept fit
    -- a repair detaches the tail, and its checkpoint fails
    truncates :
        {log repaired after : LogFile} {kept : List (ℕ × Bytes)} {fit : Bool} (tail : Bytes)
        → Life log kept fit
        → repair_truncated_tail decompress log ≡ some (some tail, repaired)
        → after ≡ record repaired { checkpoint = log.checkpoint }
        → Life after kept true
    repairs :
        {log after : LogFile} {kept : List (ℕ × Bytes)} {fit : Bool} (found : Option Bytes)
        → Life log kept fit
        → repair_truncated_tail decompress log ≡ some (found, after)
        → Life after kept true

  -- The shape of a log: whole records that decode to what was kept, and a tail.
  pub record HasShape (log : LogFile) (kept : List (ℕ × Bytes)) (fit : Bool) : Type 0 where
    pub records : List Stored
    pub tail : Bytes
    pub content :
        (log.content ≡ some (encode records ++ tail))
        ⊎ ((log.content ≡ none) × (records ≡ []) × (tail ≡ []))
    pub is_tail : IsTail tail
    pub fits : All (Fits decompress) records
    pub vouches : Vouches records log.checkpoint
    pub decodes : decoded decompress records ≡ kept
    pub ready : fit ≡ true → tail ≡ []

  pub bytes-HasShape :
      {log : LogFile} {kept : List (ℕ × Bytes)} {fit : Bool} (h : HasShape log kept fit)
      → bytes_of log.content ≡ encode h.records ++ h.tail
  bytes-HasShape h = elim h.content [
    | inl e ↦ ap bytes_of e
    | inr (e, er, et) ↦ rw (e, er, et) (unfold encode in refl)
  ]

  pub decoded-append :
      (xs ys : List Stored)
      → decoded decompress (xs ++ ys) ≡ decoded decompress xs ++ decoded decompress ys
  decoded-append [] ys = refl
  decoded-append (x ∷ xs) ys = ground (arith, decoded-append xs ys)

  pub Vouches-append :
      {es : List Stored} {c : Option Checkpoint} (e : Stored)
      → Vouches es c
      → Vouches (es ++ e ∷ []) c
  Vouches-append e (for_nothing h) = for_nothing h
  Vouches-append e (for_prefix xs ys he hc) =
      for_prefix xs (ys ++ e ∷ []) (ap (λ zs. zs ++ e ∷ []) he ∙ append_assoc xs ys (e ∷ [])) hc

  abbrev pub written : Bool → ℕ → Bytes → LogFile → LogFile
  written fsync ts raw log = record log {
    content = some (bytes_of log.content ++ frame ts (compress raw));
    checkpoint =
        if fsync
        then some (checkpoint_at (length (bytes_of log.content ++ frame ts (compress raw))))
        else log.checkpoint;
  }

  pub append_record-eq-some :
      (fsync : Bool) (ts : ℕ) (raw : Bytes) (log after : LogFile)
      → append_record compress fsync ts raw log ≡ some after
      → (length (compress raw) ≤ max_compressed_record_bytes) × (after ≡ written fsync ts raw log)
  unfolding append_record
  append_record-eq-some fsync ts raw log after h = ground arith

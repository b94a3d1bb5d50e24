-- ===== src/RawLog.antt =====
-- bkk_collector/storage/raw_log.py: the append-only log of compressed responses and its repair.
-- A byte is a number; a timestamp is the 64-bit pattern of its float. gzip is not under the
-- repository, so the definitions take `compress` and `decompress` (`none` is OSError or EOFError).
pub mod Framing
pub mod Scanning
pub mod Repair
pub mod Lives
pub mod Appends
pub mod Shapes
pub mod Crashes
use bkk_collector.Base.{
  ℕ, zero, suc, ◌+◌, ◌*◌, ◌/◌, ◌%◌, ◌^◌, Bool, true, false, ◌&&◌, ◌||◌, not, Option, none, some,
  List, [], ◌∷◌, ◌++◌, ltb, leb, nat_beq, if◌then◌else◌, length, take, drop, is_empty,
}
use mathlib.Core.Option
use bkk_collector.Base.Int.{ℤ, pos, negsuc}

abbrev pub Bytes : Type 0
Bytes = List ℕ

abbrev pub max_compressed_record_bytes : ℕ
max_compressed_record_bytes = 256 * 1024 * 1024

-- `_HEADER.size`
abbrev pub header_size : ℕ
header_size = 12

-- `struct` code `I`, big-endian
abbrev pub pack_u32 : ℕ → Bytes
pack_u32 n = (n / 2 ^ 24 % 256) ∷ (n / 2 ^ 16 % 256) ∷ (n / 2 ^ 8 % 256) ∷ (n % 256) ∷ []

abbrev pub unpack_u32 : Bytes → ℕ
unpack_u32 (a ∷ b ∷ c ∷ d ∷ []) = ((a * 256 + b) * 256 + c) * 256 + d
unpack_u32 _ = 0

-- `struct` code `d`, big-endian, as the bit pattern
abbrev pub pack_double : ℕ → Bytes
pack_double ts = pack_u32 (ts / 2 ^ 32) ++ pack_u32 (ts % 2 ^ 32)

abbrev pub unpack_double : Bytes → ℕ
unpack_double bytes = unpack_u32 (take 4 bytes) * 2 ^ 32 + unpack_u32 (drop 4 bytes)

-- `_HEADER.pack(timestamp, len(compressed)) + compressed`
unfoldable pub frame : ℕ → Bytes → Bytes
frame timestamp compressed = pack_double timestamp ++ pack_u32 (length compressed) ++ compressed

pub record RawLogScan : Type 0 where
  pub complete_records : ℕ
  pub valid_bytes : ℕ
  pub file_bytes : ℕ
  pub clean : Bool

abbrev pub scan_result : ℕ → ℕ → ℕ → Bool → RawLogScan
scan_result count valid_end size clean = record {
  complete_records = count;
  valid_bytes = valid_end;
  file_bytes = size;
  clean = clean;
}

-- The JSON beside a log; `none` is a missing or unreadable file.
pub record Checkpoint : Type 0 where
  pub version : ℕ
  pub valid_bytes : Option ℤ

-- A log, its checkpoint and the forensic files beside it.
pub record LogFile : Type 0 where
  pub content : Option Bytes
  pub checkpoint : Option Checkpoint
  pub recovered : List Bytes

-- A path without a file.
abbrev pub no_log : LogFile
no_log = record { content = none; checkpoint = none; recovered = [] }

abbrev pub checkpoint_at : ℕ → Checkpoint
checkpoint_at n = record { version = 1; valid_bytes = some (pos n) }

-- What a reader finds at its position: the end of the file, less than a record, or one record's
-- header fields and payload, and the bytes behind it. A length above the limit is no record.
pub data Frame : Type 0 where
  end_of_file : Frame
  torn : Frame
  whole : ℕ → Bytes → Bytes → Frame

-- `handle.read(_HEADER.size)`, the tests on it, and `handle.read(length)` with its test.
unfoldable pub read_frame : Bytes → Frame
read_frame rest =
    let header = take header_size rest in
    let body = drop header_size rest in
    let size = unpack_u32 (drop 8 header) in
    let payload = take size body in
    if is_empty header
    then end_of_file
    else if not (nat_beq (length header) header_size)
    then torn
    else if ltb max_compressed_record_bytes size
    then torn
    else if not (nat_beq (length payload) size)
    then torn
    else whole (unpack_double (take 8 header)) payload (drop size body)

-- The offset that a checkpoint vouches for.
unfoldable pub checkpoint_bytes : Option Checkpoint → ℕ → Option ℕ
checkpoint_bytes none size = none
checkpoint_bytes (some c) size =
    if nat_beq c.version 1
    then elim c.valid_bytes [
      | none ↦ none
      | some z ↦ elim z [ pos n ↦ if leb n size then some n else none | negsuc n ↦ none ]
    ]
    else none

-- How far a repair gets that raises: it changes nothing, it has copied these bytes into a forensic
-- file, or it has truncated the log.
pub data RepairCut : Type 0 where
  untouched : RepairCut
  copied : Bytes → RepairCut
  detached : RepairCut

-- What follows the scan: a clean log gets its checkpoint; else the tail behind the valid bytes is
-- copied to a forensic file, and the log is truncated.
unfoldable pub detach : LogFile → Bytes → RawLogScan → Option Bytes × LogFile
detach log file scan =
    let valid = scan.valid_bytes in
    if scan.clean then (none, record log { checkpoint = some (checkpoint_at valid) }) else (
      some (drop valid file),
      record log {
        content = some (take valid file);
        checkpoint = some (checkpoint_at valid);
        recovered = drop valid file ∷ log.recovered;
      },
    )

module _ (decompress : Bytes → Option Bytes) where
  -- `gzip.decompress(payload)` does not raise. `none` of `decompress` is an OSError or an EOFError,
  -- which the source catches; it does not catch zlib.error, for which there is no value here.
  unfoldable pub inflates : Bytes → Bool
  inflates payload = elim (decompress payload) [ none ↦ false | some _ ↦ true ]

  -- `iter_records`: a record that does not decompress is skipped. The fuel bounds the records; a
  -- record takes twelve bytes, so the number of bytes is enough.
  unfoldable pub iter_from : ℕ → Bytes → List (ℕ × Bytes)
  iter_from zero rest = []
  iter_from (suc fuel) rest = elim (read_frame rest) [
    | end_of_file ↦ []
    | torn ↦ []
    | whole timestamp payload behind ↦ elim (decompress payload) [
      | none ↦ iter_from fuel behind
      | some raw ↦ (timestamp, raw) ∷ iter_from fuel behind
    ]
  ]

  unfoldable pub iter_records : Bytes → List (ℕ × Bytes)
  unfolding iter_from
  iter_records file = iter_from (suc (length file)) file

  -- The loop of `scan_raw_log` and of `_scan_raw_log_from`; `none` is fuel that ran out.
  unfoldable pub scan_from : Bool → ℕ → ℕ → ℕ → ℕ → Bytes → Option RawLogScan
  scan_from validate zero size count valid_end rest = none
  scan_from validate (suc fuel) size count valid_end rest = elim (read_frame rest) [
    | end_of_file ↦ some (scan_result count valid_end size (nat_beq valid_end size))
    | torn ↦ some (scan_result count valid_end size false)
    | whole timestamp payload behind ↦ elim (validate && not (inflates payload)) [
      | true ↦ some (scan_result count valid_end size false)
      | false ↦
          scan_from validate fuel size (count + 1) (valid_end + header_size + length payload) behind
    ]
  ]

  -- `scan_raw_log`
  unfoldable pub scan_raw_log : Bool → Bytes → Option RawLogScan
  unfolding scan_from
  scan_raw_log validate file = scan_from validate (suc (length file)) (length file) 0 0 file

  -- `_scan_raw_log_from`
  unfoldable pub scan_raw_log_from : Bytes → ℕ → Option RawLogScan
  unfolding scan_from
  scan_raw_log_from file offset =
      scan_from true (suc (length file)) (length file) 0 offset (drop offset file)

  unfoldable pub scan_for_repair : Bytes → Option ℕ → Option RawLogScan
  scan_for_repair file none = scan_raw_log true file
  scan_for_repair file (some offset) = scan_raw_log_from file offset

  unfoldable pub repair_file : LogFile → Bytes → Option ℕ → Option (Option Bytes × LogFile)
  repair_file log file none = Option.map (detach log file) (scan_for_repair file none)
  repair_file log file (some offset) =
      if nat_beq offset (length file)
      then some (none, log)
      else Option.map (detach log file) (scan_for_repair file (some offset))

  unfoldable pub repair_content : LogFile → Option Bytes → Option (Option Bytes × LogFile)
  repair_content log none = some (none, log)
  repair_content log (some file) =
      repair_file log file (checkpoint_bytes log.checkpoint (length file))

  -- `repair_truncated_tail`; the outer `none` is fuel that ran out.
  unfoldable pub repair_truncated_tail : LogFile → Option (Option Bytes × LogFile)
  unfolding repair_content
  repair_truncated_tail log = repair_content log log.content

  -- What a repair leaves that raises behind the truncation, in front of the checkpoint.
  unfoldable pub truncated : LogFile → Option (Option Bytes × LogFile) → LogFile
  truncated log none = log
  truncated log (some (none, repaired)) = log
  truncated log (some (some tail, repaired)) = record repaired { checkpoint = log.checkpoint }

  -- What a repair leaves that raises.
  unfoldable pub repair_cut : RepairCut → LogFile → LogFile
  unfolding truncated repair_truncated_tail
  repair_cut untouched log = log
  repair_cut (copied bytes) log = record log { recovered = bytes ∷ log.recovered }
  repair_cut detached log = truncated log (repair_truncated_tail log)

abbrev pub bytes_of : Option Bytes → Bytes
bytes_of none = []
bytes_of (some file) = file

module _ (compress : Bytes → Bytes) where
  -- `append_record`, run to its end; `none` is the refusal of an oversized record.
  unfoldable pub append_record : Bool → ℕ → Bytes → LogFile → Option LogFile
  unfolding frame
  append_record fsync timestamp raw log =
      let compressed = compress raw in
      let file = bytes_of log.content ++ frame timestamp compressed in
      if ltb max_compressed_record_bytes (length compressed)
      then none
      else some (record log {
        content = some file;
        checkpoint = if fsync then some (checkpoint_at (length file)) else log.checkpoint;
      })

  -- `append_record` cut off: the first bytes of the record reach the file, the checkpoint does not.
  unfoldable pub append_cut : ℕ → ℕ → Bytes → LogFile → LogFile
  unfolding frame
  append_cut written timestamp raw log = record log {
    content = some (bytes_of log.content ++ take written (frame timestamp (compress raw)));
  }

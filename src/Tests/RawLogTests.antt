-- ===== src/Tests/RawLogTests.antt =====
-- storage/raw_log.py with a stand-in for gzip that puts one byte before the data.
use bkk_collector.Base.{
  true, false, Option, none, some, [], ◌∷◌, ◌++◌, ◌≡◌, refl, arith, length, nat_beq, if◌then◌else◌,
  inr,
}
use bkk_collector.RawLog.{
  no_log, Bytes, LogFile, scan_result, scan_raw_log, scan_raw_log_from, frame, read_frame, torn,
  iter_records, bytes_of, append_record, append_cut, repair_truncated_tail, inflates, checkpoint_at,
}
use bkk_collector.RawLog.Scanning.{
  Stored, encode, Fits, scan_raw_log-encode, scan_raw_log_from-encode,
}
use bkk_collector.RawLog.Repair.{for_prefix, repaired, repair_truncated_tail-encode}
use bkk_collector.RawLog.Lives.{Life, fresh, appended, cut}
use bkk_collector.RawLog.Crashes.{forensic, Life-reads, Life-repairs}

abbrev pub compress : Bytes → Bytes
compress raw = 31 ∷ raw

abbrev pub decompress : Bytes → Option Bytes
decompress [] = none
decompress (b ∷ raw) = if nat_beq b 31 then some raw else none

pub gunzip : (raw : Bytes) → decompress (compress raw) ≡ some raw
gunzip raw = refl

abbrev first : Stored
first = record { timestamp = 100; payload = 31 ∷ 1 ∷ 2 ∷ [] }

abbrev second_one : Stored
second_one = record { timestamp = 200; payload = 31 ∷ 3 ∷ [] }

abbrev header_only : Bytes
header_only = 0 ∷ 0 ∷ 0 ∷ 0 ∷ 0 ∷ 0 ∷ 0 ∷ 1 ∷ 0 ∷ 0 ∷ 0 ∷ 9 ∷ 31 ∷ []

torn_header : read_frame header_only ≡ torn
unfolding read_frame
torn_header = refl

first-Fits : Fits decompress first
unfolding inflates
first-Fits = record { stamp = omega arith; size = omega arith; sound = refl }

second-Fits : Fits decompress second_one
unfolding inflates
second-Fits = record { stamp = omega arith; size = omega arith; sound = refl }

reads_two :
    iter_records decompress (encode (first ∷ second_one ∷ []) ++ header_only)
    ≡ (100, 1 ∷ 2 ∷ []) ∷ (200, 3 ∷ []) ∷ []
unfolding iter_records read_frame encode frame
reads_two = refl

scan_raw_log-encode_example :
    scan_raw_log decompress true (encode (first ∷ second_one ∷ []) ++ header_only)
    ≡ some (scan_result 2 29 42 false)
unfolding encode frame
scan_raw_log-encode_example =
    scan_raw_log-encode decompress true (first ∷ second_one ∷ []) header_only (inr torn_header)
      (first-Fits, (second-Fits, tt))

scan_raw_log_from-encode_example :
    scan_raw_log_from decompress (encode (first ∷ second_one ∷ []) ++ header_only) 15
    ≡ some (scan_result 1 29 42 false)
unfolding encode frame
scan_raw_log_from-encode_example =
    scan_raw_log_from-encode decompress (first ∷ []) (second_one ∷ []) header_only (inr torn_header)
      (second-Fits, tt)

abbrev damaged : LogFile
damaged = record {
  content = some (encode (first ∷ second_one ∷ []) ++ header_only);
  checkpoint = some (checkpoint_at (length (encode (first ∷ []))));
  recovered = [];
}

repair_truncated_tail-encode_example :
    repair_truncated_tail decompress damaged
    ≡ some (some header_only, repaired damaged (first ∷ second_one ∷ []) header_only)
repair_truncated_tail-encode_example =
    repair_truncated_tail-encode decompress damaged (first ∷ second_one ∷ []) header_only refl
      (inr torn_header) (first-Fits, (second-Fits, tt))
      (for_prefix (first ∷ []) (second_one ∷ []) refl refl)

abbrev one_record : LogFile
one_record = record {
  content = some (frame 100 (31 ∷ 1 ∷ 2 ∷ []));
  checkpoint = some (checkpoint_at 15);
  recovered = [];
}

one_append : append_record compress true 100 (1 ∷ 2 ∷ []) no_log ≡ some one_record
unfolding append_record frame
one_append = refl

life : Life compress decompress one_record ((100, 1 ∷ 2 ∷ []) ∷ []) true
life = appended true 100 (1 ∷ 2 ∷ []) (fresh refl refl) (omega arith) one_append refl

abbrev crashed : LogFile
crashed = append_cut compress 5 200 (3 ∷ []) one_record

crashed-Life : Life compress decompress crashed ((100, 1 ∷ 2 ∷ []) ∷ []) false
unfolding frame
crashed-Life = cut 5 200 (3 ∷ []) life (omega arith) (omega arith) refl

Life-reads_example : iter_records decompress (bytes_of crashed.content) ≡ (100, 1 ∷ 2 ∷ []) ∷ []
Life-reads_example =
    Life-reads compress decompress gunzip crashed ((100, 1 ∷ 2 ∷ []) ∷ []) false crashed-Life

Life-repairs_example :
    (found : Option Bytes) × (after : LogFile) × (repair_truncated_tail decompress crashed
      ≡ some (found, after))
    × Life compress decompress after ((100, 1 ∷ 2 ∷ []) ∷ []) true
    × (bytes_of after.content ++ bytes_of found ≡ bytes_of crashed.content)
    × (after.recovered ≡ forensic found ++ crashed.recovered)
Life-repairs_example =
    Life-repairs compress decompress gunzip crashed ((100, 1 ∷ 2 ∷ []) ∷ []) false crashed-Life

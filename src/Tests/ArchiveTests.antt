-- ===== src/Tests/ArchiveTests.antt =====
-- collector.py, `_archive_raw` with an append that is cut off and a repair that fails.
use bkk_collector.Base.{
  ℕ, ◌≡◌, refl, arith, true, false, none, some, List, [], ◌∷◌, inr, All, string_eq, ◌<◌, ◌^◌,
}
use mathlib.Core.List.{Sublistᴰ}
use bkk_collector.RawLog.{
  append_record, repair_file, checkpoint_bytes, scan_for_repair, scan_raw_log_from, detach, no_log,
  Bytes, bytes_of, iter_records, append_cut, frame, read_frame, repair_truncated_tail, untouched,
  detached, repair_cut,
}
use bkk_collector.RawLog.Lives.{fresh, cut}
use bkk_collector.Archive.{
  repair_one, damage, try_repair, RawPath, path_eq, Archive, log_at, Attempt, Response, archived,
  archive_raw, is_due,
}
use bkk_collector.Archive.Damage.{Holds}
use bkk_collector.Archive.Runs.{
  Call, empty_archive, run_calls, reported_to, handed_to, run_calls-reads,
}
use bkk_collector.Archive.Liveness.{archive_raw-archives}
use bkk_collector.Base.Dict.{lookup, insert}
use bkk_collector.Tests.RawLogTests.{compress, decompress, gunzip}

abbrev trips : RawPath
trips = record { feed = "tripupdates"; date = "2024-05-01" }

abbrev sound : Attempt
sound = record {
  now = 400;
  repair_fails = λ p. false;
  repair_leaves = λ p. untouched;
  write_fails_after = none;
}

abbrev torn_write : Attempt
torn_write = record {
  now = 500;
  repair_fails = λ p. false;
  repair_leaves = λ p. untouched;
  write_fails_after = some 3;
}

abbrev no_repair : Attempt
no_repair = record {
  now = 600;
  repair_fails = λ p. true;
  repair_leaves = λ p. detached;
  write_fails_after = none;
}

abbrev response : ℕ → Response
response n = record { path = trips; received = n; payload = n ∷ [] }

abbrev a_call : Attempt → ℕ → Call
a_call attempt n = record { interval = 300; force = true; attempt = attempt; response = response n }

abbrev calls : List Call
calls = a_call sound 1 ∷ a_call torn_write 2 ∷ a_call no_repair 3 ∷ a_call sound 4 ∷ []

stamped : All (λ (c : Call). c.response.received < 2 ^ 64) calls
stamped = (omega arith, (omega arith, (omega arith, (omega arith, tt))))

-- The cut append and the append that finds its log unrepaired are reported failed, and a reader
-- gets the two others.
reads_two :
    iter_records decompress
      (bytes_of (log_at trips (run_calls compress decompress true calls empty_archive)).content)
    ≡ (1, 1 ∷ []) ∷ (4, 4 ∷ []) ∷ []
unfolding run_calls archive_raw iter_records read_frame frame lookup repair_truncated_tail is_due
    append_record insert repair_one damage repair_cut try_repair append_cut repair_file
    checkpoint_bytes scan_for_repair scan_raw_log_from detach
reads_two = refl

run_calls-reads_example :
    (read : List (ℕ × Bytes)) × (iter_records decompress
        (bytes_of (log_at trips (run_calls compress decompress true calls empty_archive)).content)
      ≡ read)
    × Sublistᴰ (reported_to compress decompress true trips calls empty_archive) read
    × Sublistᴰ read (handed_to trips calls)
run_calls-reads_example = run_calls-reads compress decompress true gunzip calls trips stamped

-- The log holds three bytes of a record.
abbrev damaged : Archive
damaged = record {
  logs = (trips, append_cut compress 3 2 (2 ∷ 3 ∷ []) no_log) ∷ [];
  needs_repair = trips ∷ [];
  last_archived = [];
}

damaged-Holds : Holds compress decompress trips [] damaged
unfolding lookup frame
damaged-Holds = record {
  fit = false;
  life = cut 3 2 (2 ∷ 3 ∷ []) (fresh {kept = []} refl refl) (omega arith) (omega arith) refl;
  marked = inr refl;
}

archive_raw-archives_example :
    (archive_raw compress decompress true 300 false sound (response 4) damaged).0 ≡ archived
unfolding is_due lookup
archive_raw-archives_example =
    archive_raw-archives compress decompress true gunzip 300 false sound (response 4) [] damaged
      damaged-Holds refl refl refl (omega arith)

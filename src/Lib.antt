-- ===== src/Lib.antt =====
-- bkk-collector: models and proofs of the realtime research collector's core. Paths are below
-- bkk_collector/.
--
-- A poll of a feed goes through these parts, in this order. realtime/realtime_scheduler.py decides
-- when a request is due and hands its result, once, to the main thread. realtime/dedup.py decides
-- which rows of it are changes. storage/spool_codec.py encodes the staged rows of a segment and
-- restores them for Parquet; storage/parquet_store.py stages the segments and moves them into
-- Parquet, through markers that let it recover a commit that was cut off.
-- realtime/tripupdate_presence.py records which trips and stops each TripUpdates response holds.
-- storage/raw_log.py keeps the response itself, framed and compressed, in an append-only log that
-- survives a crash at any byte that a repair follows; collector.py decides when that happens and
-- repairs a log before it appends behind a failure; its process_result takes a result through all
-- of these parts. monitoring.py turns what happened to the polls into flags and a verdict on the
-- health of the collector.
--
-- Files:
--   Base            names of the library, Boolean tests, lists, ℤ and dictionaries.
--   Tracker         realtime/dedup.py, `ChangeTracker`: filter, commit, expiry, signal guard. Staging:
--                   selection and commit; Coverage: what suppression means; Expiry: forgetting early;
--                   Guard: the count of rows without a signal.
--   Scheduler       realtime/realtime_scheduler.py: FeedSchedule, step (collect, dispatch, put), get,
--                   acknowledge, stop_and_drain. System: the moves of the scheduler, its user and the
--                   environment; Deadlines, Pace, Queue and Drain: proofs.
--   Presence        realtime/tripupdate_presence.py: the sets of trips and stops, observe and the
--                   replay of its records by apply_presence_record, which Observe composes with the
--                   files. Sets, Views, Replay, Observed, Stream, History and Follows: one change, one
--                   record, one file; Process: all observations.
--   RawLog          storage/raw_log.py: framing, append_record, iter_records, scan_raw_log,
--                   _scan_raw_log_from, repair_truncated_tail. Lives: the life of a log; Appends,
--                   Shapes and Crashes: what it holds at any point of it.
--   Archive         collector.py: `_archive_raw`, the logs that await a repair, and their repair before
--                   an append. Damage, Repairs, Durable: one call; Runs: what a reader of the logs finds after
--                   any calls; Liveness: when a call archives.
--   Collector       collector.py, the main thread: the state, and what a poll meets outside. Work has the
--                   steps of process_result, Polls composes them, Loop has the turns of run and the
--                   drain. Calls, Trace, Fallback, Losses, Noted, Saved and Reads: what reaches the raw
--                   archive; Advance and Outcome: what reaches the change tracker and the spool; Turns: what reaches the
--                   health status.
--   Config          config.py, `CollectorConfig`: __post_init__ and the intervals and tolerances that the
--                   other parts are given. Valid: what an accepted configuration guarantees.
--   Monitoring      monitoring.py: Feeds has evaluate_freshness, record_success and record_failure, Status
--                   has write_status. Flags, Unchanged, Frozen and Verdict: proofs.
--   PollJournal     storage/poll_journal.py: `_last_line_start` and `repair_jsonl_tail`. LastLine: what the
--                   first finds; Mending: what the second leaves.
--   Spool           storage/parquet_store.py, `DurableParquetSpool` on the files of one partition: stage,
--                   _commit_segments, _recover_commits, flush. States: what the files stand for;
--                   Transitions, Rows, Commits, Recovery and Staging: one operation, one commit, one
--                   recovery, one poll; Refinement: any history; Completion and Emptying: a flush
--                   that is not cut off.
--   SpoolCodec      storage/spool_codec.py: share_large_strings and restore_shared_strings.
--   Tests           the models on concrete inputs.
--
-- Conventions. A time is a natural number, of milliseconds where the source has seconds as a float
-- (of nanoseconds for the active commit of the worker); a signed value is a ℤ of Base.Int. An
-- exception is `none` or a constructor of the component's result type. A Python dict is an
-- association list without duplicate keys (Base.Dict). A file is its bytes. gzip is a parameter of
-- RawLog, with the hypothesis that decompression inverts compression. A scan over bytes runs on
-- fuel, the number of bytes and one; each record takes at least twelve, and the theorems show that
-- no scan runs out. The search of PollJournal runs on the size of the journal, of which each round
-- drops a block, and its loop over lines on that size too, a line having a byte.
--
-- An interruption of Spool, by a crash or an exception, is a budget of operations on the disk. A
-- marker and an output are both named by a parameter that stands for the SHA-256 of the names of
-- the segments, with the hypothesis that different lists have different names; the loop over
-- batches runs on the number of segments, of which each batch takes one at least.
--
-- The protobuf library, the parsers over it, SHA-256 and the presence journal are the fields of a
-- record that Collector takes; what fails in a poll is an argument of it. process_result raises
-- nothing in the model; a raise that the source does not expect is not modelled.
--
-- Not modelled: threads and the wall clock (a step gets its readings as an argument), HTTP,
-- protobuf decoding, Parquet files, the file system's errors and directory entries, log
-- messages, and a zlib.error of gzip.decompress, which storage/raw_log.py does not catch.
pub mod Base
pub mod Archive
pub mod Collector
pub mod Config
pub mod Monitoring
pub mod PollJournal
pub mod Presence
pub mod RawLog
pub mod Scheduler
pub mod Spool
pub mod SpoolCodec
pub mod Tracker
pub mod Tests

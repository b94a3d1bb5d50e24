-- ===== src/Tests.antt =====
-- Tests of the models on small inputs, and the theorems at concrete inputs.
mod TrackerTests
mod SchedulerTests
mod ArchiveTests
mod MonitoringTests
mod PollJournalTests
mod ConfigTests
mod RawLogTests
mod SpoolCodecTests
mod SpoolTests
mod CollectorTests
mod PresenceTests

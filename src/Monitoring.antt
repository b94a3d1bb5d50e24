-- ===== src/Monitoring.antt =====
-- monitoring.py: the health of the feeds and of the collector.
pub mod Feeds
pub mod Status
pub mod Verdict
pub mod Flags
pub mod Frozen
pub mod Unchanged

-- ===== src/Tests.antt =====
-- The theorems at concrete inputs.
mod Fixtures
mod Grants
mod Resolved
mod Sessions
mod Runs
mod Brokers
mod Stopped
mod Locks
mod Streamed
mod Paths
mod Accounted
mod Unit

-- ===== src/Fetcher.antt =====
-- src/fetcher.rs: the fetcher that claims batches, and the one that listens for new jobs.
pub mod Poll
pub mod Live
mod Tests

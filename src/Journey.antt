-- ===== src/Journey.antt =====
-- A task on its way through several parts: handled behind the layers of src/ack.rs, then waited for with
-- `wait_for` of src/queries/wait_for.rs.
pub mod Waited
mod Tests

-- ===== src/UniqueId.antt =====
-- 06_distributed_systems/09_unique_id_generation.py: Snowflake ids and ticket servers.
pub mod Snowflake
pub mod Tickets
mod Tests

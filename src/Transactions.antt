-- ===== src/Transactions.antt =====
-- 06_distributed_systems/04_distributed_transactions_2pc_saga.py: two-phase commit over participants,
-- and the saga of four services with its compensations.
pub mod TwoPhase
pub mod Saga
mod Tests

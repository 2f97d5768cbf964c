-- ===== src/Raft/Election.antt =====
-- The safety of elections in 06_distributed_systems/03_raft_consensus.py.
pub mod Ballots
pub mod Steady
pub mod Handlers
pub mod Safety
pub mod Leaders

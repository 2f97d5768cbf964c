-- ===== src/Raft.antt =====
-- 06_distributed_systems/03_raft_consensus.py: the nodes of a cluster, its network and clock, and
-- the election of leaders. The printed log lines are not modelled.
pub mod Node
pub mod Cluster
pub mod Election
pub mod Replication
mod Tests

-- ===== src/Consensus.antt =====
-- kvraft/internal/raft: one Raft node, from the messages and the node's state to its handlers.
pub mod Types
pub mod Log
pub mod Storage
pub mod Persister
pub mod Vote
pub mod Append
pub mod Leader
pub mod Backtrack
pub mod Election
pub mod Applier
pub mod Matching
pub mod Invariant
pub mod Node

-- ===== src/Tests.antt =====
-- Tests of the definitions, and the theorems at concrete nodes, stores and messages.
pub mod Data
pub mod Logs
pub mod Nodes
pub mod Snapshots
pub mod Keys
pub mod Clients
pub mod Wire
pub mod Settings
pub mod Clusters
pub mod Turns
pub mod Rounds
pub mod Replicas
pub mod Networks
pub mod Mocked

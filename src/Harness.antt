-- ===== src/Harness.antt =====
-- kvraft/internal/testutils: the network of the tests, and the stand-ins for Raft, the state machine
-- and the persister.
pub mod Network
pub mod Mocks

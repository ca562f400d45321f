-- ===== src/Kv.antt =====
-- The key-value service: the store, the state machine's pending requests, the gRPC handlers and the
-- client, and the model that the tests check histories against.
pub mod Api
pub mod Store
pub mod Model
pub mod Rsm
pub mod Service
pub mod Clerk

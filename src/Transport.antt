-- ===== src/Transport.antt =====
-- kvraft/raftransport: the messages of Raft over gRPC. codec.go and the conversions of client.go and
-- service.go; the RPC itself is left out.
--
-- An int crosses the wire as an int32, with its wrap-around. A number that comes out negative where
-- the node's state has a ℕ is `none`: such a message is outside the model of the node. The gob
-- encoding of a command (encoding/gob) is a parameter.
pub mod Codec
pub mod Calls

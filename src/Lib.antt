-- ===== src/Lib.antt =====
-- kvraft, a key-value store replicated by Raft, as a shallow embedding: every function of the model
-- is the Go function of the same name in snake_case, on an explicit state.
--
-- The program's parts. A Raft node (kvraft/internal/raft) keeps a term, a vote, a log that begins at
-- the end of its snapshot, and, as a leader, nextIndex and matchIndex of each peer. Its peers call
-- RequestVote, AppendEntries and InstallSnapshot over gRPC (kvraft/raftransport); its timers start
-- elections; its applier sends what is committed on a channel to the replicated state machine
-- (kvraft/internal/rsm), which applies each command to the store (kvraft/internal/kvserver), wakes
-- the request that waits for it, and hands snapshots back to Raft. The clerk (kvraft/pkg/clerk) calls
-- the servers until one answers. kvraft/internal/testutils/kvmodel.go is the model that the tests
-- check a cluster's histories against.
--
-- The files.
--   Base             tests, conditionals, lists, the sequencing of calls that may panic
--   Consensus        kvraft/internal/raft
--     Types          kvraft/raft/raft.go and the struct Raft; Log: access to the log (raft.go)
--     Invariant      the well-formedness of a node
--     Storage        storage.go and Make; its children: saving, Snapshot, InstallSnapshot
--     Persister      disk_persister.go: the system calls of Save, and crashes between them
--     Vote           RequestVote and handleHigherTerm; Grant: the votes that may be given
--     Append         AppendEntries; Conflict: the consistency check; Accept: the outcomes; Safety:
--                    the log after a success; Preserve: the invariant
--     Matching       a description of appendNewEntries, `merge`
--     Leader         Start, replication, updateCommitIndex; Replicate: a leader with a
--                    follower; Broadcast: heartbeats
--     Backtrack      the rounds in which a leader goes back in a follower's log
--     Election       ticker.go; Applier: the rounds of applier (raft.go)
--     Node           a node among its events, and its histories with restarts
--   Cluster          the nodes of a cluster with the requests for votes, the answers and the counts
--                    of the goroutines of startElection (ticker.go); Invariant and Safety: who
--                    leads; Count: majorities; AppendOnly, Entries, Steady and Stopping: the
--                    log of a leader; the other children: one kind of step each
--   Transport        Codec: codec.go; Calls: client.go and service.go
--   Kv               Api, Store (Saving: Snapshot and Restore), Service (grpc.go), Rsm, Clerk, and
--                    Model (kvmodel.go)
--     Rsm/Process    Submit and the reader as processes that share rsm.mu and the channels of the
--                    pending entries; Answers, Jam, Deadlock and Replay: what follows
--     Rsm/Notify     who is woken; Entries: the map of the pending entries
--     Rsm/Applied    the reader as a function, behind the applier of a Raft node
--   Config           kvraft/config/config.go
--   Harness          kvraft/internal/testutils: Network (network.go), and Mocks (mock_raft.go,
--                    mock_sm.go and persister.go) behind the reader of rsm.go
--   Tests            concrete nodes, stores and messages
--
-- How the state corresponds. A function that locks a node and changes it is a function from the state
-- to the state; `Option` is a run-time panic or the end of the process, `none`. A `defer` runs at the
-- end of the function. Terms and indices are natural numbers, as is every int of the program that is
-- never negative; votedFor, currentLeader, ConflictTerm and the leader's hint are optional, `none` for
-- -1. On the wire an int is an int32 with its wrap-around, and a version is a uint64 with its own. The
-- map of the store is an association list, and a command is a type of its own, `none` for nil.
--
-- Concurrency. A node and a cluster take one event after another, each under a node's lock; the
-- network may deliver any request to any node, in any order, any number of times or never, and a node
-- restarts whenever it likes. A cluster also keeps the votes that were given, which no code reads. The
-- replicated state machine has finer steps: the reader keeps rsm.mu while it sends on unbuffered
-- channels, and a send is one step of the reader with the Submit that receives. What Raft answers is
-- free at every step, and so is the order in which a `range` goes over the map of the pending entries.
-- The reader as a function takes which Submits receive what they are sent, and does not go on where
-- one does not. An id of a Submit is none of the failed results' -1.
--
-- Loops are structural: the loops over the log go down by one, those over entries, matchIndex and
-- pending requests go through a list, and the clerk's loops go through the list of the outcomes of
-- its calls. There is no fuel.
--
-- What is not modelled. Timers and condition variables: the network and the scheduler choose the
-- events; Kill is not one of them. Logging and metrics have no effect on the state. A gob stream of
-- the node's state is the list of the values in it; encoding/gob for a command is a parameter,
-- `Gob`, with the one law that decoding undoes encoding, and so it is for the store's map,
-- `GobMap`. gRPC itself, the generated kvpb package, the set-up of a server (node.go, cmd) and the
-- other helpers of the tests are left out; the test network takes what rand decides, gob and the
-- methods of a server as parameters, and strconv and sort.Slice are parameters of the
-- configuration. For the node and its events a Save is one step that succeeds, and a restart comes
-- between two events; Persister takes the step apart. In a single node's history the votes that an
-- election has counted are an argument of the event that counts one more; a cluster keeps them.
pub mod Base
pub mod Consensus
pub mod Cluster
pub mod Harness
pub mod Transport
pub mod Kv
pub mod Config
pub mod Tests

-- ===== src/Consensus/Types.antt =====
-- kvraft/raft/raft.go: the messages. kvraft/internal/raft/raft.go: the state of a node.
--
-- An int that is never negative in the program is a native ℕ; one for which -1 is a value of its
-- own (votedFor, currentLeader, ConflictTerm, the results of Start) is an `Option ℕ`, -1 as `none`.
use raft_algorithm_thesis.Base.{ℕ, Bool, Option, List}

-- `Entry`; a command that is nil is `none`.
pub record Entry (C : Type 0) : Type 0 where
  pub index : ℕ
  pub term : ℕ
  pub command : Option C

pub record RequestVoteArgs : Type 0 where
  pub term : ℕ
  pub candidate_id : ℕ
  pub last_log_term : ℕ
  pub last_log_index : ℕ

pub record RequestVoteReply : Type 0 where
  pub term : ℕ
  pub vote_granted : Bool

pub record AppendEntriesArgs (C : Type 0) : Type 0 where
  pub term : ℕ
  pub leader_id : ℕ
  pub prev_log_index : ℕ
  pub prev_log_term : ℕ
  pub entries : List (Entry C)
  pub leader_commit : ℕ

pub record AppendEntriesReply : Type 0 where
  pub term : ℕ
  pub success : Bool
  pub conflict_index : ℕ
  pub conflict_term : Option ℕ

pub record InstallSnapshotArgs : Type 0 where
  pub term : ℕ
  pub leader_id : ℕ
  pub last_included_index : ℕ
  pub last_included_term : ℕ
  pub bytes : List ℕ

pub record InstallSnapshotReply : Type 0 where
  pub term : ℕ

-- `ApplyMsg`: CommandValid selects the first, SnapshotValid the second.
pub data ApplyMsg (C : Type 0) : Type 0 where
  command_msg : (command : Option C) (index : ℕ) → ApplyMsg C
  snapshot_msg : (snapshot : List ℕ) (term index : ℕ) → ApplyMsg C

-- `NodeState`
pub data NodeState : Type 0 where
  follower candidate leader : NodeState

-- A value that a gob encoder writes to its stream.
pub data GobValue (C : Type 0) : Type 0 where
  int : Option ℕ → GobValue C
  entries : List (Entry C) → GobValue C

-- What a persister holds: the gob stream of the Raft state, and the bytes of the snapshot.
pub record Disk (C : Type 0) : Type 0 where
  pub raft_state : List (GobValue C)
  pub snapshot : List ℕ

-- `Raft`, without the timers, condition variables and channel, which no code reads as data.
pub record Raft (C : Type 0) : Type 0 where
  pub peers : ℕ
  pub persister : Disk C
  pub me : ℕ
  pub dead : Bool
  pub state : NodeState
  pub current_term : ℕ
  pub voted_for : Option ℕ
  pub current_leader : Option ℕ
  pub logs : List (Entry C)
  pub commit_index : ℕ
  pub last_applied : ℕ
  pub next_index : List ℕ
  pub match_index : List ℕ
  pub last_included_index : ℕ
  pub last_included_term : ℕ

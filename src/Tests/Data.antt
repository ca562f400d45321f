-- ===== src/Tests/Data.antt =====
-- Nodes of a cluster of three, and the messages between them.
use raft_algorithm_thesis.Base.{ℕ, false, none, some, List, [], ◌∷◌}
use raft_algorithm_thesis.Consensus.Types.{
  Entry, GobValue, Disk, Raft, NodeState, AppendEntriesArgs, AppendEntriesReply, RequestVoteArgs,
  InstallSnapshotArgs,
}

abbrev pub entry : ℕ → ℕ → ℕ → Entry ℕ
entry i t c = record { index = i; term = t; command = some c }

abbrev pub anchor : Entry ℕ
anchor = record { index = 0; term = 0; command = none }

-- A disk with the state of a node that has no snapshot.
abbrev pub disk : ℕ → List (Entry ℕ) → Disk ℕ
disk term logs = record {
  raft_state =
      GobValue.int (some term)
      ∷ GobValue.int none
      ∷ GobValue.entries logs
      ∷ GobValue.int (some 0)
      ∷ GobValue.int (some 0)
      ∷ [];
  snapshot = [];
}

abbrev pub leader_logs : List (Entry ℕ)
leader_logs = anchor ∷ entry 1 1 7 ∷ entry 2 2 8 ∷ entry 3 2 9 ∷ []

-- The leader of term 2; peer 2 has its whole log.
abbrev pub leading : Raft ℕ
leading = record {
  peers = 3;
  persister = disk 2 leader_logs;
  me = 0;
  dead = false;
  state = NodeState.leader;
  current_term = 2;
  voted_for = none;
  current_leader = some 0;
  logs = leader_logs;
  commit_index = 1;
  last_applied = 0;
  next_index = 4 ∷ 2 ∷ 4 ∷ [];
  match_index = 0 ∷ 1 ∷ 3 ∷ [];
  last_included_index = 0;
  last_included_term = 0;
}

abbrev pub follower_logs : List (Entry ℕ)
follower_logs = anchor ∷ entry 1 1 7 ∷ entry 2 1 5 ∷ []

-- A follower with an entry of term 1 that was not committed.
abbrev pub following : Raft ℕ
following = record {
  peers = 3;
  persister = disk 1 follower_logs;
  me = 1;
  dead = false;
  state = NodeState.follower;
  current_term = 1;
  voted_for = none;
  current_leader = none;
  logs = follower_logs;
  commit_index = 1;
  last_applied = 0;
  next_index = 0 ∷ 0 ∷ 0 ∷ [];
  match_index = 0 ∷ 0 ∷ 0 ∷ [];
  last_included_index = 0;
  last_included_term = 0;
}

-- What the leader sends to the follower.
abbrev pub request : AppendEntriesArgs ℕ
request = record {
  term = 2;
  leader_id = 0;
  prev_log_index = 1;
  prev_log_term = 1;
  entries = entry 2 2 8 ∷ entry 3 2 9 ∷ [];
  leader_commit = 1;
}

abbrev pub refusal : AppendEntriesReply
refusal = record { term = 1; success = false; conflict_index = 0; conflict_term = some 0 }

-- The follower afterwards.
abbrev pub followed : Raft ℕ
followed = record following {
  persister = disk 2 leader_logs;
  current_term = 2;
  current_leader = some 0;
  logs = leader_logs;
}

abbrev pub candidacy : RequestVoteArgs
candidacy = record { term = 3; candidate_id = 2; last_log_term = 2; last_log_index = 3 }

-- A snapshot that ends behind the follower's log.
abbrev pub snapshot_args : InstallSnapshotArgs
snapshot_args = record {
  term = 2;
  leader_id = 0;
  last_included_index = 3;
  last_included_term = 2;
  bytes = 1 ∷ 2 ∷ [];
}

-- ===== src/Consensus/Node.antt =====
-- A node among its events: each constructor is one call that the program makes on a `Raft` under
-- its lock, and `step` is the state after it. What the calls send is left to the network, which may
-- deliver any request and any reply, in any order and any number of times.
pub mod Durable
pub mod Votes
pub mod Snapshots
pub mod Leading
pub mod Safety
pub mod Electing
pub mod Replying
pub mod Booting
pub mod WellFormed
use raft_algorithm_thesis.Base.{ℕ, Option, none, some, List, [], ◌∷◌, ◌≡◌, ◌>>=◌}
use raft_algorithm_thesis.Consensus.Types.{
  Entry, Raft, RequestVoteArgs, RequestVoteReply, AppendEntriesArgs, AppendEntriesReply,
  InstallSnapshotArgs, InstallSnapshotReply,
}
use raft_algorithm_thesis.Consensus.Storage.{make, snapshot, install_snapshot}
use raft_algorithm_thesis.Consensus.Vote.{request_vote}
use raft_algorithm_thesis.Consensus.Append.{append_entries}
use raft_algorithm_thesis.Consensus.Leader.{
  start, handle_append_entries_reply, handle_install_snapshot_reply,
}
use raft_algorithm_thesis.Consensus.Election.{election_timeout, request_vote_from_peer}
use raft_algorithm_thesis.Consensus.Applier.{apply_round}

pub data Event (C : Type 0) : Type 0 where
  append_request : AppendEntriesArgs C → Event C
  vote_request : RequestVoteArgs → Event C
  snapshot_request : InstallSnapshotArgs → Event C
  submitted : Option C → Event C
  election_timer : Event C
  vote_reply : RequestVoteArgs → RequestVoteReply → (granted_votes : ℕ) → Event C
  append_reply : (peer : ℕ) → AppendEntriesArgs C → AppendEntriesReply → Event C
  snapshot_reply : (peer : ℕ) → InstallSnapshotArgs → InstallSnapshotReply → Event C
  compacted : (index : ℕ) → (bytes : List ℕ) → Event C
  applied : Event C
  -- The process ends, and starts again from its disk.
  restarted : Event C

module _ {C : Type 0} where
  -- The state of a call that returns a state and a result.
  abbrev pub state_of {ℓ} : {A : Type ℓ} → Option (Raft C × A) → Option (Raft C)
  state_of none = none
  state_of (some (rf, r)) = some rf

  unfoldable pub step : Event C → Raft C → Option (Raft C)
  step (append_request args) rf = state_of (append_entries args rf)
  step (vote_request args) rf = state_of (request_vote args rf)
  step (snapshot_request args) rf = state_of (install_snapshot args rf)
  step (submitted command) rf = some (start command rf).0
  step election_timer rf = state_of (election_timeout rf)
  step (vote_reply args reply granted) rf = state_of (request_vote_from_peer args reply granted rf)
  step (append_reply peer args reply) rf = handle_append_entries_reply peer args reply rf
  step (snapshot_reply peer args reply) rf = handle_install_snapshot_reply peer args reply rf
  step (compacted index bytes) rf = snapshot index bytes rf
  step applied rf = state_of (apply_round rf)
  step restarted rf = make rf.peers rf.me rf.persister

  -- A node's history.
  pub data Reach (rf : Raft C) : Raft C → Type 0 where
    here : Reach rf rf
    next : {rf' rf'' : Raft C} (e : Event C) → Reach rf rf' → step e rf' ≡ some rf'' → Reach rf rf''

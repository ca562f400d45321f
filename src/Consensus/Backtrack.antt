-- ===== src/Consensus/Backtrack.antt =====
-- log_replication.go: a leader that goes back in a follower's log. A round is one request of
-- replicateToPeer, the follower's answer, and the leader's handling of it.
pub mod Sending
pub mod Resolving
pub mod Refusing
pub mod Rounds
pub mod Bound
use raft_algorithm_thesis.Base.{ℕ, suc, ◌≡◌, false, some}
use raft_algorithm_thesis.Consensus.Types.{Raft, AppendEntriesArgs, AppendEntriesReply}
use raft_algorithm_thesis.Consensus.Append.{append_entries}
use raft_algorithm_thesis.Consensus.Leader.{replicate_to_peer, append, handle_append_entries_reply}

module _ {C : Type 0} where
  -- A round that the follower refuses, from the leader and the follower before to both after it.
  pub record Refused (peer : ℕ) (lf rf lf' rf' : Raft C) : Type 0 where
    pub args : AppendEntriesArgs C
    pub reply : AppendEntriesReply
    pub sent : replicate_to_peer peer lf ≡ some (append args)
    pub answered : append_entries args rf ≡ some (rf', reply)
    pub denied : reply.success ≡ false
    pub handled : handle_append_entries_reply peer args reply lf ≡ some lf'

  -- Rounds that are refused one after another.
  pub data Refusals (peer : ℕ) : ℕ → Raft C → Raft C → Type 0 where
    no_more : {lf rf : Raft C} → Refusals peer 0 lf rf
    again :
        {k : ℕ} {lf rf lf' rf' : Raft C}
        → Refused peer lf rf lf' rf'
        → Refusals peer k lf' rf'
        → Refusals peer (suc k) lf rf

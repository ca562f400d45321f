-- ===== src/Consensus/Vote.antt =====
-- kvraft/internal/raft/log_replication.go and raft.go: RequestVote and the terms of replies.
pub mod Grant
use raft_algorithm_thesis.Base.{
  ℕ, Bool, true, false, not, ◌&&◌, ◌||◌, Option, none, some, ltb, leb, ◌==◌, is_none, is_id,
  if◌then◌else◌, ◌>>=◌,
}
use raft_algorithm_thesis.Consensus.Types.{RequestVoteArgs, RequestVoteReply, Raft, NodeState}
use raft_algorithm_thesis.Consensus.Log.{get_last_log}
use raft_algorithm_thesis.Consensus.Storage.{persist}

module _ {C : Type 0} where
  -- `handleHigherTerm`
  unfoldable pub handle_higher_term : ℕ → Raft C → Raft C × Bool
  handle_higher_term term rf =
      if ltb rf.current_term term
      then (
        persist (record rf { current_term = term; voted_for = none; state = NodeState.follower }),
        true,
      )
      else (rf, false)

  -- `isLogUpToDate`
  unfoldable pub is_log_up_to_date : ℕ → ℕ → Raft C → Option Bool
  is_log_up_to_date candidate_term candidate_index rf = do
    last ← get_last_log rf
    some (
        if not (candidate_term == last.term)
        then ltb last.term candidate_term
        else leb last.index candidate_index)

  unfoldable pub adopt_vote_term : RequestVoteArgs → Raft C → Raft C
  adopt_vote_term args rf =
      if ltb rf.current_term args.term
      then record rf { state = NodeState.follower; current_term = args.term; voted_for = none }
      else rf

  unfoldable pub can_vote : RequestVoteArgs → Raft C → Bool
  can_vote args rf = is_none rf.voted_for || is_id rf.voted_for args.candidate_id

  -- `RequestVote`; the deferred persist runs last.
  unfoldable pub request_vote : RequestVoteArgs → Raft C → Option (Raft C × RequestVoteReply)
  request_vote args rf =
      if ltb args.term rf.current_term
      then some (rf, record { term = rf.current_term; vote_granted = false })
      else (do
        let adopted = adopt_vote_term args rf
        up_to_date ← is_log_up_to_date args.last_log_term args.last_log_index adopted
        if can_vote args adopted && up_to_date
            then some (
              persist (record adopted { voted_for = some args.candidate_id }),
              record { term = rf.current_term; vote_granted = true },
            )
            else some (persist adopted, record { term = rf.current_term; vote_granted = false }))

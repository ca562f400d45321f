-- ===== src/Consensus/Election.antt =====
-- kvraft/internal/raft/ticker.go: timeouts, elections and the change of state that they bring.
use raft_algorithm_thesis.Base.{
  ℕ, ◌+◌, ◌/◌, Bool, not, ◌&&◌, Option, none, some, ◌==◌, if◌then◌else◌, ◌>>=◌, set, replicate,
}
use raft_algorithm_thesis.Consensus.Types.{RequestVoteArgs, RequestVoteReply, Raft, NodeState}
use raft_algorithm_thesis.Consensus.Log.{is_leader, is_candidate, get_last_log}
use raft_algorithm_thesis.Consensus.Storage.{persist}
use raft_algorithm_thesis.Consensus.Vote.{handle_higher_term}

module _ {C : Type 0} where
  -- `genRequestVoteArgs`
  unfoldable pub gen_request_vote_args : Raft C → Option RequestVoteArgs
  gen_request_vote_args rf = do
    last ← get_last_log rf
    some (record {
      term = rf.current_term;
      candidate_id = rf.me;
      last_log_index = last.index;
      last_log_term = last.term;
    })

  -- `startElection`, with the arguments that go to every peer.
  unfoldable pub start_election : Raft C → Option (Raft C × RequestVoteArgs)
  start_election rf = do
    let voted = persist (record rf { voted_for = some rf.me; current_leader = none })
    args ← gen_request_vote_args voted
    some (voted, args)

  -- `becomeCandidate`
  unfoldable pub become_candidate : Raft C → Option (Raft C × RequestVoteArgs)
  become_candidate rf =
      start_election
        (persist (record rf { state = NodeState.candidate; current_term = rf.current_term + 1 }))

  -- The election timer's case of `ticker`; `none` inside where no election starts.
  unfoldable pub election_timeout : Raft C → Option (Raft C × Option RequestVoteArgs)
  election_timeout rf =
      if is_leader rf.state
      then some (rf, none)
      else (do (rf', args) ← become_candidate rf; some (rf', some args))

  -- `becomeLeader`; nextIndex and matchIndex have a place for each peer. For a `me` that is no peer,
  -- which no well-formed node has, the source's write panics and this one does nothing.
  unfoldable pub become_leader : Raft C → Option (Raft C)
  become_leader rf = do
    last ← get_last_log rf
    some (record rf {
      state = NodeState.leader;
      current_leader = some rf.me;
      next_index = replicate rf.peers (last.index + 1);
      match_index = set (replicate rf.peers rf.last_included_index) rf.me last.index;
    })

  -- `isStillValidCandidate`
  unfoldable pub is_still_valid_candidate : ℕ → Raft C → Bool
  is_still_valid_candidate election_term rf =
      is_candidate rf.state && (rf.current_term == election_term)

  -- A granted vote, `grantedVotes` being the votes before it.
  unfoldable pub count_vote : ℕ → Raft C → Option (Raft C × ℕ)
  count_vote granted rf =
      if granted + 1 == rf.peers / 2 + 1
      then (do rf' ← become_leader rf; some (rf', granted + 1))
      else some (rf, granted + 1)

  -- requestVoteFromPeer once the reply is there: the node and the votes counted.
  unfoldable pub request_vote_from_peer :
      RequestVoteArgs → RequestVoteReply → ℕ → Raft C → Option (Raft C × ℕ)
  request_vote_from_peer args reply granted rf =
      if not (is_still_valid_candidate args.term rf)
      then some (rf, granted)
      else (let (rf', is_higher) = handle_higher_term reply.term rf in
          if is_higher
          then some (rf', granted)
          else if reply.vote_granted
          then count_vote granted rf'
          else some (rf', granted))

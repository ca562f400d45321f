-- ===== src/Cluster/Granting.antt =====
-- log_replication.go: what a request for a vote leaves in the node that answers it.
use raft_algorithm_thesis.Base.{
  ◌≡◌, ◌∙◌, true, false, ◌&&◌, some, arith, if_cases, Ensures, Ensures->>=, Ensures-some, ltb,
}
use raft_algorithm_thesis.Consensus.Types.{Raft, RequestVoteArgs, RequestVoteReply}
use raft_algorithm_thesis.Consensus.Vote.{
  request_vote, adopt_vote_term, can_vote, is_log_up_to_date,
}
use raft_algorithm_thesis.Cluster.Polls.{persist-IsFrame}

module _ {C : Type 0} where
  abbrev Records : RequestVoteArgs → Raft C × RequestVoteReply → Type 0
  Records args (rf', reply) =
      reply.vote_granted ≡ true
      → (rf'.current_term ≡ args.term) × (rf'.voted_for ≡ some args.candidate_id)

  adopted-term :
      (args : RequestVoteArgs) (rf : Raft C)
      → ltb args.term rf.current_term ≡ false
      → (adopt_vote_term args rf).current_term ≡ args.term
  unfolding adopt_vote_term
  adopted-term args rf h = ground arith

  request_vote-Records :
      (args : RequestVoteArgs) (rf : Raft C) → Ensures (Records args) (request_vote args rf)
  unfolding request_vote
  request_vote-Records args rf =
      if_cases (Ensures (Records args)) (ltb args.term rf.current_term) (λ _ g. cc)
        (λ current. Ensures->>= (Records args) (is_log_up_to_date _ _ _) _ (λ up _.
          if_cases (Ensures (Records args)) (can_vote args (adopt_vote_term args rf) && up)
            (λ _ g.
              let (p, m, s, t, v) = persist-IsFrame _ in (t ∙ adopted-term args rf current, v))
            (λ _ g. cc)))

  -- A vote granted is in the state.
  pub granted_vote :
      (args : RequestVoteArgs) (rf : Raft C) {rf' : Raft C} {reply : RequestVoteReply}
      → request_vote args rf ≡ some (rf', reply)
      → reply.vote_granted ≡ true
      → (rf'.current_term ≡ args.term) × (rf'.voted_for ≡ some args.candidate_id)
  granted_vote args rf run = Ensures-some (Records args) _ (request_vote-Records args rf) run

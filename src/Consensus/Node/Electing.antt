-- ===== src/Consensus/Node/Electing.antt =====
-- log_replication.go, raft.go and ticker.go: votes, Start and elections beside the invariant.
use raft_algorithm_thesis.Base.{
  ℕ, ◌+◌, refl, ◌∙◌, not, ◌&&◌, Option, [], ◌∷◌, arith, Ensures, Ensures-some, Ensures->>=,
  if_cases, length, length-append, length-replicate, length-set, ltb, replicate, ◌==◌,
}
use raft_algorithm_thesis.Consensus.Types.{Entry, Raft, RequestVoteArgs, RequestVoteReply}
use raft_algorithm_thesis.Consensus.Log.{get_len, get_last_log, is_leader}
use raft_algorithm_thesis.Consensus.Invariant.{IsWellFormed, IsContiguous-append}
use raft_algorithm_thesis.Consensus.Storage.Frames.{persist-IsWellFormed}
use raft_algorithm_thesis.Consensus.Vote.{
  handle_higher_term, adopt_vote_term, is_log_up_to_date, can_vote, request_vote,
}
use raft_algorithm_thesis.Consensus.Leader.{start}
use raft_algorithm_thesis.Consensus.Election.{
  gen_request_vote_args, start_election, become_candidate, election_timeout, become_leader,
  count_vote, is_still_valid_candidate, request_vote_from_peer,
}

module _ {C : Type 0} where
  -- The same, of a state with a result.
  abbrev pub FstWellFormed : {A : Type 0} → Raft C × A → Type 0
  FstWellFormed r = IsWellFormed r.0

  adopt-IsWellFormed :
      (args : RequestVoteArgs) (rf : Raft C)
      → IsWellFormed rf
      → IsWellFormed (adopt_vote_term args rf)
  unfolding adopt_vote_term
  adopt-IsWellFormed args rf wf =
      if_cases IsWellFormed (ltb rf.current_term args.term) (λ _. assumption) (λ _. wf)

  pub request_vote-IsWellFormed :
      (args : RequestVoteArgs) (rf : Raft C)
      → IsWellFormed rf
      → Ensures FstWellFormed (request_vote args rf)
  unfolding request_vote
  request_vote-IsWellFormed args rf wf =
      let w = adopt-IsWellFormed args rf wf in
      if_cases (Ensures FstWellFormed) (ltb args.term rf.current_term) (λ _. wf)
        (λ _. Ensures->>= FstWellFormed (is_log_up_to_date _ _ (adopt_vote_term args rf)) _ (λ up _.
          if_cases (Ensures FstWellFormed) (can_vote args (adopt_vote_term args rf) && up)
            (λ _. persist-IsWellFormed _ (assumption)) (λ _. persist-IsWellFormed _ w)))

  pub handle_higher_term-IsWellFormed :
      (term : ℕ) (rf : Raft C) → IsWellFormed rf → IsWellFormed (handle_higher_term term rf).0
  unfolding handle_higher_term
  handle_higher_term-IsWellFormed term rf wf =
      if_cases FstWellFormed (ltb rf.current_term term) (λ _. persist-IsWellFormed _ (assumption))
        (λ _. wf)

  pub start-IsWellFormed :
      (command : Option C) (rf : Raft C) → IsWellFormed rf → IsWellFormed (start command rf).0
  unfolding start get_len
  start-IsWellFormed command rf wf =
      if_cases FstWellFormed (not (is_leader rf.state)) (λ _. wf)
        (λ _. persist-IsWellFormed _ (record {
          contiguous =
              IsContiguous-append rf.last_included_index rf.logs _ wf.contiguous (refl, tt);
          nonempty = omega (arith, length-append rf.logs (entry ∷ []));
          anchored = wf.anchored;
          committed = omega (arith, length-append rf.logs (entry ∷ []), wf.committed);
          applied = wf.applied;
          member = wf.member;
          nexts = wf.nexts;
          matches = wf.matches;
        }))
    where
      entry : Entry C
      entry = record {
        index = rf.last_included_index + length rf.logs;
        term = rf.current_term;
        command = command;
      }

  start_election-IsWellFormed :
      (rf : Raft C) → IsWellFormed rf → Ensures FstWellFormed (start_election rf)
  unfolding start_election
  start_election-IsWellFormed rf wf =
      Ensures->>= FstWellFormed (gen_request_vote_args _) _
        (λ args _. persist-IsWellFormed _ (assumption))

  pub become_candidate-IsWellFormed :
      (rf : Raft C) → IsWellFormed rf → Ensures FstWellFormed (become_candidate rf)
  unfolding become_candidate
  become_candidate-IsWellFormed rf wf =
      start_election-IsWellFormed _ (persist-IsWellFormed _ (assumption))

  pub election_timeout-IsWellFormed :
      (rf : Raft C) → IsWellFormed rf → Ensures FstWellFormed (election_timeout rf)
  unfolding election_timeout
  election_timeout-IsWellFormed rf wf =
      if_cases (Ensures FstWellFormed) (is_leader rf.state) (λ _. wf)
        (λ _.
          Ensures->>= FstWellFormed (become_candidate rf) _
            (λ r run. Ensures-some FstWellFormed _ (become_candidate-IsWellFormed rf wf) run))

  become_leader-IsWellFormed :
      (rf : Raft C) → IsWellFormed rf → Ensures IsWellFormed (become_leader rf)
  unfolding become_leader
  become_leader-IsWellFormed rf wf = Ensures->>= IsWellFormed (get_last_log rf) _ (λ last _.
      record {
        contiguous = wf.contiguous;
        nonempty = wf.nonempty;
        anchored = wf.anchored;
        committed = wf.committed;
        applied = wf.applied;
        member = wf.member;
        nexts = length-replicate rf.peers (last.index + 1);
        matches =
            length-set (replicate rf.peers rf.last_included_index) rf.me last.index
            ∙ length-replicate rf.peers rf.last_included_index;
      })

  pub request_vote_from_peer-IsWellFormed :
      (args : RequestVoteArgs) (reply : RequestVoteReply) (granted : ℕ) (rf : Raft C)
      → IsWellFormed rf
      → Ensures FstWellFormed (request_vote_from_peer args reply granted rf)
  unfolding request_vote_from_peer count_vote
  request_vote_from_peer-IsWellFormed args reply granted rf wf =
      let w = handle_higher_term-IsWellFormed reply.term rf wf in
      if_cases (Ensures FstWellFormed) (not (is_still_valid_candidate args.term rf)) (λ _. wf)
        (λ _.
          if_cases (Ensures FstWellFormed) (handle_higher_term reply.term rf).1 (λ _. w)
            (λ _.
              if_cases (Ensures FstWellFormed) reply.vote_granted
                (λ _.
                  if_cases (Ensures FstWellFormed) (granted + 1 == _)
                    (λ _.
                      Ensures->>= FstWellFormed (become_leader _) _ (λ rf' run.
                        Ensures-some IsWellFormed _ (become_leader-IsWellFormed _ w) run))
                    (λ _. w))
                (λ _. w)))

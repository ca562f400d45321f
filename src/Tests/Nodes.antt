-- ===== src/Tests/Nodes.antt =====
-- Votes, elections and restarts.
use raft_algorithm_thesis.Base.{ℕ, ◌≡◌, refl, true, some, [], ◌∷◌, Returns}
use raft_algorithm_thesis.Consensus.Types.{
  GobValue, Raft, NodeState, RequestVoteArgs, RequestVoteReply,
}
use raft_algorithm_thesis.Consensus.Log.{get_last_log, get_len, get_log, has_entry_at}
use raft_algorithm_thesis.Consensus.Storage.{
  make, read_persist, decode_state, restore, fresh, persist, encode_state,
}
use raft_algorithm_thesis.Consensus.Vote.{
  request_vote, adopt_vote_term, can_vote, is_log_up_to_date,
}
use raft_algorithm_thesis.Consensus.Vote.Grant.{GrantsLawfully, request_vote-GrantsLawfully}
use raft_algorithm_thesis.Consensus.Election.{
  become_candidate, start_election, gen_request_vote_args,
}
use raft_algorithm_thesis.Consensus.Node.{append_request, vote_request, restarted, step, here, next}
use raft_algorithm_thesis.Consensus.Node.Durable.{saved, IsLive}
use raft_algorithm_thesis.Consensus.Node.Safety.{
  one_vote_per_term, candidate_votes_for_itself, restart_recovers,
}
use raft_algorithm_thesis.Consensus.Append.{
  append_entries, append_new_entries, handle_consistency_conflict, follow, finish_append,
  accept_entries, advance_commit_index,
}
use raft_algorithm_thesis.Consensus.Invariant.{IsWellFormed}
use raft_algorithm_thesis.Consensus.Node.WellFormed.{step-IsWellFormed}
use raft_algorithm_thesis.Tests.Logs.{following-IsWellFormed}
use raft_algorithm_thesis.Tests.Data.{request, followed, entry, following, follower_logs, candidacy}

following-IsLive : IsLive following
unfolding make read_persist decode_state restore fresh
following-IsLive = record { alive = refl; durable = refl }

following-last : get_last_log following ≡ some (entry 2 1 5)
unfolding get_last_log
following-last = refl

-- The follower after its vote for node 2 in term 3, and after a restart.
abbrev voted : Raft ℕ
voted = record following {
  current_term = 3;
  voted_for = some 2;
  persister = record {
    raft_state =
        GobValue.int (some 3)
        ∷ GobValue.int (some 2)
        ∷ GobValue.entries follower_logs
        ∷ GobValue.int (some 0)
        ∷ GobValue.int (some 0)
        ∷ [];
    snapshot = [];
  };
}

abbrev again : Raft ℕ
again = record voted { commit_index = 0 }

abbrev granted : RequestVoteReply
granted = record { term = 1; vote_granted = true }

grants : request_vote candidacy following ≡ some (voted, granted)
unfolding request_vote adopt_vote_term can_vote is_log_up_to_date get_last_log persist encode_state
grants = refl

restarts : step restarted voted ≡ some again
unfolding step make read_persist decode_state restore fresh
restarts = refl

again-last : get_last_log again ≡ some (entry 2 1 5)
unfolding get_last_log
again-last = refl

-- The candidate asks again, with a longer log.
abbrev later_candidacy : RequestVoteArgs
later_candidacy = record { term = 3; candidate_id = 2; last_log_term = 2; last_log_index = 4 }

abbrev granted_again : RequestVoteReply
granted_again = record { term = 3; vote_granted = true }

grants_again : request_vote later_candidacy again ≡ some (again, granted_again)
unfolding request_vote adopt_vote_term can_vote is_log_up_to_date get_last_log persist encode_state
grants_again = refl

one_vote_per_term_example : candidacy.candidate_id ≡ later_candidacy.candidate_id
one_vote_per_term_example =
    one_vote_per_term {rf = following} {rf₁ = voted} {rf₂ = again} {rf₃ = again} {reply = granted}
      {reply' = granted_again} {last = entry 2 1 5} {last' = entry 2 1 5} candidacy later_candidacy
      following-IsLive following-last again-last grants refl
      (next {rf' = voted} {rf'' = again} restarted here restarts) grants_again refl refl

votes : step (vote_request candidacy) following ≡ some voted
unfolding step request_vote adopt_vote_term can_vote is_log_up_to_date get_last_log persist
    encode_state
votes = refl

restart_recovers_example :
    (rf'' : Raft ℕ) × (step restarted voted ≡ some rf'') × (saved rf'' ≡ saved voted)
restart_recovers_example =
    restart_recovers {rf = following} {rf' = voted} following-IsLive
      (next {rf' = following} {rf'' = voted} (vote_request candidacy) here votes)

-- The follower as a candidate of term 2.
abbrev standing : Raft ℕ
standing = record following {
  state = NodeState.candidate;
  current_term = 2;
  voted_for = some 1;
  persister = record {
    raft_state =
        GobValue.int (some 2)
        ∷ GobValue.int (some 1)
        ∷ GobValue.entries follower_logs
        ∷ GobValue.int (some 0)
        ∷ GobValue.int (some 0)
        ∷ [];
    snapshot = [];
  };
}

abbrev own_request : RequestVoteArgs
own_request = record { term = 2; candidate_id = 1; last_log_term = 1; last_log_index = 2 }

stands : become_candidate following ≡ some (standing, own_request)
unfolding become_candidate start_election gen_request_vote_args get_last_log persist encode_state
stands = refl

standing-last : get_last_log standing ≡ some (entry 2 1 5)
unfolding get_last_log
standing-last = refl

abbrev granted_itself : RequestVoteReply
granted_itself = record { term = 2; vote_granted = true }

grants_itself : request_vote own_request standing ≡ some (standing, granted_itself)
unfolding request_vote adopt_vote_term can_vote is_log_up_to_date get_last_log persist encode_state
grants_itself = refl

candidate_votes_for_itself_example : own_request.candidate_id ≡ following.me
candidate_votes_for_itself_example =
    candidate_votes_for_itself {rf = following} {rf₁ = standing} {rf₂ = standing} {rf₃ = standing}
      {args = own_request} {reply = granted_itself} {last = entry 2 1 5} own_request
      following-IsLive standing-last stands here grants_itself refl refl

request_vote-GrantsLawfully_example :
    Returns (GrantsLawfully candidacy following (entry 2 1 5)) (request_vote candidacy following)
request_vote-GrantsLawfully_example =
    request_vote-GrantsLawfully candidacy following (entry 2 1 5) following-last

appends : step (append_request request) following ≡ some followed
unfolding step append_entries handle_consistency_conflict has_entry_at get_len get_log follow
    finish_append accept_entries append_new_entries advance_commit_index persist encode_state
appends = refl

step-IsWellFormed_example : IsWellFormed followed
step-IsWellFormed_example =
    step-IsWellFormed (append_request request) following {rf' = followed} following-IsLive
      following-IsWellFormed ((refl, (refl, tt)), tt) appends

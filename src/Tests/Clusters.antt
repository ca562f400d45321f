-- ===== src/Tests/Clusters.antt =====
-- An election in a cluster of three: node 0 stands, node 1 answers, and node 0 counts the answer.
use raft_algorithm_thesis.Base.{ℕ, ◌≡◌, refl, true, some, [], ◌∷◌, inl, arith, put_at}
use raft_algorithm_thesis.Consensus.Types.{Disk, Raft, NodeState, RequestVoteArgs, RequestVoteReply}
use raft_algorithm_thesis.Consensus.Log.{zero_entry, get_len, get_last_log}
use raft_algorithm_thesis.Consensus.Storage.{fresh, save, persist, encode_state}
use raft_algorithm_thesis.Consensus.Vote.{
  handle_higher_term, request_vote, adopt_vote_term, can_vote, is_log_up_to_date,
}
use raft_algorithm_thesis.Consensus.Election.{
  election_timeout, become_candidate, start_election, gen_request_vote_args, become_leader,
  count_vote, is_still_valid_candidate, request_vote_from_peer,
}
use raft_algorithm_thesis.Cluster.{
  Answer, Cluster, cast, set_poll, new_poll, counted_poll, initial, stands, answers, counts, Reach,
  begins, next,
}
use raft_algorithm_thesis.Consensus.Types.{Entry}
use raft_algorithm_thesis.Consensus.Leader.{start}
use raft_algorithm_thesis.Consensus.Node.{submitted, step}
use raft_algorithm_thesis.Cluster.Entries.{KeepsEntries}
use raft_algorithm_thesis.Cluster.AppendOnly.{leader_appends_only}
use raft_algorithm_thesis.Cluster.Safety.{one_leader_per_term, leader_has-IsMajority, backs}
use raft_algorithm_thesis.Cluster.Count.{IsMajority}

abbrev empty : Disk ℕ
empty = record { raft_state = []; snapshot = [] }

abbrev standing : Raft ℕ
standing =
    save [] (record (fresh 3 0 empty) {
      state = NodeState.candidate;
      current_term = 1;
      voted_for = some 0;
    })

abbrev asking : RequestVoteArgs
asking = record { term = 1; candidate_id = 0; last_log_index = 0; last_log_term = 0 }

abbrev voting : Raft ℕ
voting = save [] (record (fresh 3 1 empty) { current_term = 1; voted_for = some 0 })

abbrev yes_vote : RequestVoteReply
yes_vote = record { term = 0; vote_granted = true }

abbrev answer : Answer
answer = record { voter = 1; args = asking; reply = yes_vote }

abbrev leading : Raft ℕ
leading = record standing {
  state = NodeState.leader;
  current_leader = some 0;
  next_index = 1 ∷ 1 ∷ 1 ∷ [];
  match_index = 0 ∷ 0 ∷ 0 ∷ [];
}

stood : election_timeout (fresh 3 0 empty) ≡ some (standing, some asking)
unfolding election_timeout become_candidate start_election gen_request_vote_args get_last_log
    persist save encode_state fresh
stood = refl

voted : request_vote asking (fresh 3 1 empty) ≡ some (voting, yes_vote)
unfolding request_vote adopt_vote_term can_vote is_log_up_to_date get_last_log persist save
    encode_state fresh
voted = refl

won : request_vote_from_peer asking yes_vote 1 standing ≡ some (leading, 2)
unfolding request_vote_from_peer is_still_valid_candidate handle_higher_term count_vote
    become_leader get_last_log save encode_state fresh
won = refl

abbrev candidacy : Cluster ℕ
candidacy = record (initial 3) {
  nodes = put_at 0 standing (initial {C = ℕ} 3).nodes;
  votes = cast 0 1 0 (initial {C = ℕ} 3).votes;
  polls = set_poll 0 1 (new_poll 0) (initial {C = ℕ} 3).polls;
}

abbrev answered : Cluster ℕ
answered = record candidacy {
  nodes = put_at 1 voting candidacy.nodes;
  votes = cast 1 1 0 candidacy.votes;
  answers = answer ∷ [];
}

abbrev led : Cluster ℕ
led = record answered {
  nodes = put_at 0 leading answered.nodes;
  polls = set_poll 0 1 (counted_poll 1 2 (answered.polls 0 1)) answered.polls;
}

reached : Reach 3 led
reached =
    next
      (next (next begins (stands 0 standing asking (omega arith) stood refl))
        (answers 1 asking voting yes_vote voted refl))
      (counts answer leading 2 (omega arith) (inl refl) refl won refl)

one_leader_per_term_example : ◌≡◌ {A = ℕ} 0 0
one_leader_per_term_example = one_leader_per_term {c = led} 0 0 reached refl refl refl

leader_has-IsMajority_example : IsMajority 3 (λ j. backs (led.nodes j) 1 0)
unfolding save
leader_has-IsMajority_example = leader_has-IsMajority {c = led} 0 reached refl

abbrev three : Entry ℕ
three = record { index = 1; term = 1; command = some 3 }

abbrev extended : Raft ℕ
extended = save [] (record leading { logs = zero_entry ∷ three ∷ [] })

extends : step (submitted (some 3)) leading ≡ some extended
unfolding step start persist save get_len fresh
extends = refl

leader_appends_only_example :
    (extended.current_term ≡ leading.current_term) × KeepsEntries leading extended
unfolding save
leader_appends_only_example = leader_appends_only (submitted (some 3)) leading extends refl refl

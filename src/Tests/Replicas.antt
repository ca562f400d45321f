-- ===== src/Tests/Replicas.antt =====
-- Two replicas that apply the same log.
use raft_algorithm_thesis.Base.{
  ℕ, ◌<◌, ◌≡◌, refl, Bool, false, true, some, none, List, [], ◌∷◌, map, arith,
}
use raft_algorithm_thesis.Consensus.Types.{Entry, Raft, NodeState, ApplyMsg, command_msg}
use raft_algorithm_thesis.Consensus.Log.{get_log, get_physical_index}
use raft_algorithm_thesis.Consensus.Applier.{slice, apply_msg, apply_entries, apply_round}
use raft_algorithm_thesis.Consensus.Invariant.{IsWellFormed}
use raft_algorithm_thesis.Kv.Rsm.{Op, Rsm}
use raft_algorithm_thesis.Kv.Rsm.Applied.{RaftAnswers, read_all, execute_log}
use raft_algorithm_thesis.Kv.Rsm.Applied.Rounds.{
  AppliedRound, apply_round-AppliedRound, replicas_agree,
}
use raft_algorithm_thesis.Tests.Turns.{adder}

abbrev add : ℕ → ℕ → ℕ → Entry (Op ℕ)
add index id n = record { index = index; term = 1; command = some (record { id = id; req = n }) }

abbrev node : ℕ → NodeState → Raft (Op ℕ)
node me state = record {
  peers = 3;
  persister = record { raft_state = []; snapshot = [] };
  me = me;
  dead = false;
  state = state;
  current_term = 1;
  voted_for = some 0;
  current_leader = some 0;
  logs = record { index = 0; term = 0; command = none } ∷ add 1 11 5 ∷ add 2 12 6 ∷ [];
  commit_index = 2;
  last_applied = 0;
  next_index = 3 ∷ 3 ∷ 3 ∷ [];
  match_index = 2 ∷ 2 ∷ 0 ∷ [];
  last_included_index = 0;
  last_included_term = 0;
}

node-IsWellFormed : (me : ℕ) (state : NodeState) → me < 3 → IsWellFormed (node me state)
node-IsWellFormed me state lt = record {
  contiguous = (refl, (refl, (refl, tt)));
  nonempty = omega arith;
  anchored = omega arith;
  committed = omega arith;
  applied = omega arith;
  member = lt;
  nexts = refl;
  matches = refl;
}

abbrev answers : Bool → RaftAnswers
answers is_leader = record {
  leads = is_leader;
  term = 1;
  is_leader = is_leader;
  persist_bytes = 0;
  hears = λ index id. true;
}

abbrev second : Bool → List (RaftAnswers × ApplyMsg (Op ℕ))
second is_leader = (answers is_leader, command_msg (some (record { id = 12; req = 6 })) 2) ∷ []

abbrev heard : Bool → List (RaftAnswers × ApplyMsg (Op ℕ))
heard is_leader =
    (answers is_leader, command_msg (some (record { id = 11; req = 5 })) 1) ∷ second is_leader

-- The Submit of the first command waits.
abbrev replica : Rsm ℕ
replica = record {
  sm = 1;
  pending = record { index = 1; id = 11; term = 1 } ∷ [];
  last_applied = 0;
}

applies :
    (me : ℕ) (state : NodeState) (is_leader : Bool)
    → apply_round (node me state)
      ≡ some (record (node me state) { last_applied = 2 }, map (λ p. p.1) (heard is_leader))
unfolding apply_round apply_entries slice apply_msg get_physical_index
applies me state is_leader = refl

apply_round-AppliedRound_example :
    AppliedRound adder none
      (node 0 NodeState.leader)
      (record (node 0 NodeState.leader) { last_applied = 2 })
      replica
      (read_all adder none (heard true) replica)
apply_round-AppliedRound_example =
    apply_round-AppliedRound adder none (node 0 NodeState.leader) replica (heard true)
      (node-IsWellFormed 0 NodeState.leader (omega arith)) (λ i d. refl, (λ i d. refl, tt))
      (omega arith) (applies 0 NodeState.leader true)

-- A follower that has applied the first command.
abbrev ahead : Raft (Op ℕ)
ahead = record (node 1 NodeState.follower) { last_applied = 1 }

ahead-IsWellFormed : IsWellFormed ahead
ahead-IsWellFormed = record {
  contiguous = (refl, (refl, (refl, tt)));
  nonempty = omega arith;
  anchored = omega arith;
  committed = omega arith;
  applied = omega arith;
  member = omega arith;
  nexts = refl;
  matches = refl;
}

applies_second :
    apply_round ahead ≡ some (record ahead { last_applied = 2 }, map (λ p. p.1) (second false))
unfolding apply_round apply_entries slice apply_msg get_physical_index
applies_second = refl

abbrev replica_ahead : Rsm ℕ
replica_ahead = record { sm = 6; pending = []; last_applied = 1 }

replicas_agree_example :
    (rsm' : Rsm ℕ) × (rsn' : Rsm ℕ) × (read_all adder none (heard true) replica ≡ some rsm')
    × (read_all adder none (second false) replica_ahead ≡ some rsn')
    × (rsm'.sm ≡ rsn'.sm)
unfolding get_log execute_log get_physical_index
replicas_agree_example =
    replicas_agree adder none (node 0 NodeState.leader) ahead replica replica_ahead (heard true)
      (second false) (node-IsWellFormed 0 NodeState.leader (omega arith)) ahead-IsWellFormed
      (λ i d. refl, (λ i d. refl, tt)) (λ i d. refl, tt) (omega arith) refl (omega arith)
      (omega arith) (λ k lt. refl) (omega arith) (omega arith) refl
      (applies 0 NodeState.leader true) applies_second

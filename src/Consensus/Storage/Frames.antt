-- ===== src/Consensus/Storage/Frames.antt =====
-- storage.go: persist, beside the log and the invariant.
use raft_algorithm_thesis.Base.{ℕ, ◌≡◌, Bool-cases, if_cases, inl, inr}
use raft_algorithm_thesis.Consensus.Types.{Raft}
use raft_algorithm_thesis.Consensus.Log.{get_log}
use raft_algorithm_thesis.Consensus.Storage.{persist}
use raft_algorithm_thesis.Consensus.Invariant.{IsWellFormed}

module _ {C : Type 0} where
  pub get_log-persist : (rf : Raft C) (i : ℕ) → get_log (persist rf) i ≡ get_log rf i
  unfolding persist get_log
  get_log-persist rf i = elim (Bool-cases rf.dead) [ inl dead ↦ rw dead | inr alive ↦ rw alive ]

  pub persist-IsWellFormed : (rf : Raft C) → IsWellFormed rf → IsWellFormed (persist rf)
  unfolding persist
  persist-IsWellFormed rf wf = if_cases IsWellFormed rf.dead (λ _. wf) (λ _. assumption)

-- ===== src/Cluster/Local.antt =====
-- raft.go: no event but those of an election makes a node a leader.
use raft_algorithm_thesis.Base.{refl, Option, none, some, List, [], ◌∷◌, Ensures, Ensures->>=}
use raft_algorithm_thesis.Consensus.Types.{GobValue, Raft}
use raft_algorithm_thesis.Consensus.Storage.{make, read_persist, decode_state, restore, fresh}
use raft_algorithm_thesis.Consensus.Node.{
  Event, append_request, vote_request, snapshot_request, submitted, election_timer, vote_reply,
  append_reply, snapshot_reply, compacted, applied, restarted, state_of, step,
}
use raft_algorithm_thesis.Cluster.{IsLocal}
use raft_algorithm_thesis.Cluster.Promotion.{
  NoPromotion, FstNoPromotion, demoted, start-NoPromotion, append_entries-NoPromotion,
}
use raft_algorithm_thesis.Cluster.Standing.{
  install_snapshot-NoPromotion, snapshot-NoPromotion, append_reply-NoPromotion,
  snapshot_reply-NoPromotion, apply_round-NoPromotion,
}

module _ {C : Type 0} where
  read-NoPromotion :
      (rf : Raft C) (stream : List (GobValue C))
      → Ensures (NoPromotion rf) (read_persist stream (fresh rf.peers rf.me rf.persister))
  unfolding read_persist fresh restore
  read-NoPromotion rf [] = demoted rf _ refl refl refl
  read-NoPromotion rf (v ∷ stream) =
      Ensures->>= (NoPromotion rf) (decode_state (v ∷ stream)) _
        (λ s _. demoted rf _ refl refl refl)

  restart-NoPromotion : (rf : Raft C) → Ensures (NoPromotion rf) (make rf.peers rf.me rf.persister)
  unfolding make
  restart-NoPromotion rf = read-NoPromotion rf rf.persister.raft_state

  state_of-NoPromotion :
      {A : Type 0} (rf : Raft C) (m : Option (Raft C × A))
      → Ensures (FstNoPromotion rf) m
      → Ensures (NoPromotion rf) (state_of m)
  state_of-NoPromotion rf none e = tt
  state_of-NoPromotion rf (some (rf', r)) e = e

  pub step-NoPromotion :
      (e : Event C) (rf : Raft C) → IsLocal e → Ensures (NoPromotion rf) (step e rf)
  unfolding step
  step-NoPromotion (append_request args) rf l =
      state_of-NoPromotion rf _ (append_entries-NoPromotion args rf)
  step-NoPromotion (vote_request args) rf l = absurd l
  step-NoPromotion (snapshot_request args) rf l =
      state_of-NoPromotion rf _ (install_snapshot-NoPromotion args rf)
  step-NoPromotion (submitted command) rf l = start-NoPromotion command rf
  step-NoPromotion election_timer rf l = absurd l
  step-NoPromotion (vote_reply args reply granted) rf l = absurd l
  step-NoPromotion (append_reply peer args reply) rf l = append_reply-NoPromotion peer args reply rf
  step-NoPromotion (snapshot_reply peer args reply) rf l =
      snapshot_reply-NoPromotion peer args reply rf
  step-NoPromotion (compacted index bytes) rf l = snapshot-NoPromotion index bytes rf
  step-NoPromotion applied rf l = state_of-NoPromotion rf _ (apply_round-NoPromotion rf)
  step-NoPromotion restarted rf l = restart-NoPromotion rf

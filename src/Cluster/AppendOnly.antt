-- ===== src/Cluster/AppendOnly.antt =====
-- raft.go, ticker.go and log_replication.go: what a leader's log keeps.
use raft_algorithm_thesis.Base.{
  ℕ, ◌≡◌, refl, sym, ◌∙◌, ap, inl, inr, Option, none, some, Ensures, Ensures-some, Ensures-mono,
}
use raft_algorithm_thesis.Consensus.Types.{Raft, NodeState, RequestVoteArgs, RequestVoteReply}
use raft_algorithm_thesis.Consensus.Election.{
  election_timeout, is_still_valid_candidate, request_vote_from_peer,
}
use raft_algorithm_thesis.Consensus.Vote.{request_vote}
use raft_algorithm_thesis.Consensus.Node.{
  Event, append_request, vote_request, snapshot_request, submitted, election_timer, vote_reply,
  append_reply, snapshot_reply, compacted, applied, restarted, state_of, step,
}
use raft_algorithm_thesis.Consensus.Backtrack.Refusing.{SameLog}
use raft_algorithm_thesis.Cluster.{IsLocal}
use raft_algorithm_thesis.Cluster.Promotion.{NoPromotion, FstNoPromotion, request_vote-NoPromotion}
use raft_algorithm_thesis.Cluster.Local.{step-NoPromotion}
use raft_algorithm_thesis.Cluster.Steady.{
  FstSameLog, request_vote-SameLog, append_reply-SameLog, snapshot_reply-SameLog,
  apply_round-SameLog,
}
use raft_algorithm_thesis.Cluster.Stopping.{
  Stops, append_entries-Stops, install_snapshot-Stops, restart-Stops,
}
use raft_algorithm_thesis.Cluster.Entries.{
  KeepsEntries, SameLog-KeepsEntries, start-KeepsEntries, snapshot-KeepsEntries,
}

module _ {C : Type 0} where
  abbrev LedLog : Raft C → Raft C → Type 0
  LedLog rf rf' = rf'.state ≡ NodeState.leader → KeepsEntries rf rf'

  same-LedLog :
      {A : Type 0} (rf : Raft C) (m : Option (Raft C × A))
      → Ensures (FstSameLog rf) m
      → Ensures (LedLog rf) (state_of m)
  same-LedLog rf none h = tt
  same-LedLog rf (some (rf', r)) h = λ _. SameLog-KeepsEntries rf rf' h

  Stops-LedLog :
      {A : Type 0} (rf : Raft C) (m : Option (Raft C × A))
      → Ensures (Stops rf) m
      → Ensures (LedLog rf) (state_of m)
  Stops-LedLog rf none h = tt
  Stops-LedLog rf (some (rf', r)) (inl same) = λ _.
      SameLog-KeepsEntries rf rf'
        (ap (λ (r : Raft C). r.logs) same, ap (λ (r : Raft C). r.last_included_index) same)
  Stops-LedLog rf (some (rf', r)) (inr f) =
      λ l. let clash : NodeState.follower ≡ NodeState.leader = sym f ∙ l in absurd (cc)

  -- A leader neither stands for election nor counts votes.
  timeout-idle : (rf : Raft C) → rf.state ≡ NodeState.leader → election_timeout rf ≡ some (rf, none)
  unfolding election_timeout
  timeout-idle rf l = rw l refl

  count-idle :
      (args : RequestVoteArgs) (reply : RequestVoteReply) (granted : ℕ) (rf : Raft C)
      → rf.state ≡ NodeState.leader
      → request_vote_from_peer args reply granted rf ≡ some (rf, granted)
  unfolding request_vote_from_peer is_still_valid_candidate
  count-idle args reply granted rf l = rw l refl

  unmoved : (rf : Raft C) → LedLog rf rf
  unmoved rf l i e le q = q

  step-LedLog :
      (e : Event C) (rf : Raft C) → rf.state ≡ NodeState.leader → Ensures (LedLog rf) (step e rf)
  unfolding step
  step-LedLog (append_request args) rf l = Stops-LedLog rf _ (append_entries-Stops args rf)
  step-LedLog (vote_request args) rf l = same-LedLog rf _ (request_vote-SameLog args rf)
  step-LedLog (snapshot_request args) rf l = Stops-LedLog rf _ (install_snapshot-Stops args rf)
  step-LedLog (submitted command) rf l = λ _. start-KeepsEntries command rf
  step-LedLog election_timer rf l = rw (timeout-idle rf l, Ensures) (unmoved rf)
  step-LedLog (vote_reply args reply granted) rf l =
      rw (count-idle args reply granted rf l, Ensures) (unmoved rf)
  step-LedLog (append_reply peer args reply) rf l =
      Ensures-mono (SameLog rf) (LedLog rf) (λ r h _. SameLog-KeepsEntries rf r h) _
        (append_reply-SameLog peer args reply rf)
  step-LedLog (snapshot_reply peer args reply) rf l =
      Ensures-mono (SameLog rf) (LedLog rf) (λ r h _. SameLog-KeepsEntries rf r h) _
        (snapshot_reply-SameLog peer args reply rf)
  step-LedLog (compacted index bytes) rf l =
      Ensures-mono (KeepsEntries rf) (LedLog rf) (λ r h _. h) _
        (snapshot-KeepsEntries index bytes rf)
  step-LedLog applied rf l = same-LedLog rf _ (apply_round-SameLog rf)
  step-LedLog restarted rf l =
      Ensures-mono (λ (r : Raft C). r.state ≡ NodeState.follower) (LedLog rf)
        (λ r f k. let clash : NodeState.follower ≡ NodeState.leader = sym f ∙ k in absurd (cc)) _
        (restart-Stops rf)

  abbrev LedTerm : Raft C → Raft C → Type 0
  LedTerm rf rf' = rf'.state ≡ NodeState.leader → rf'.current_term ≡ rf.current_term

  local-LedTerm : (e : Event C) (rf : Raft C) → IsLocal e → Ensures (LedTerm rf) (step e rf)
  local-LedTerm e rf h =
      Ensures-mono (NoPromotion rf) (LedTerm rf) (λ r p l. (p.led l).1) _ (step-NoPromotion e rf h)

  vote-LedTerm :
      (rf : Raft C) (m : Option (Raft C × RequestVoteReply))
      → Ensures (FstNoPromotion rf) m
      → Ensures (LedTerm rf) (state_of m)
  vote-LedTerm rf none h = tt
  vote-LedTerm rf (some (rf', r)) h = λ l. (h.led l).1

  step-LedTerm :
      (e : Event C) (rf : Raft C) → rf.state ≡ NodeState.leader → Ensures (LedTerm rf) (step e rf)
  step-LedTerm (append_request args) rf l = local-LedTerm (append_request args) rf tt
  step-LedTerm (vote_request args) rf l =
      unfold step in vote-LedTerm rf (request_vote args rf) (request_vote-NoPromotion args rf)
  step-LedTerm (snapshot_request args) rf l = local-LedTerm (snapshot_request args) rf tt
  step-LedTerm (submitted command) rf l = local-LedTerm (submitted command) rf tt
  step-LedTerm election_timer rf l = unfold step in rw (timeout-idle rf l, Ensures) (λ _. refl)
  step-LedTerm (vote_reply args reply granted) rf l =
      unfold step in rw (count-idle args reply granted rf l, Ensures) (λ _. refl)
  step-LedTerm (append_reply peer args reply) rf l =
      local-LedTerm (append_reply peer args reply) rf tt
  step-LedTerm (snapshot_reply peer args reply) rf l =
      local-LedTerm (snapshot_reply peer args reply) rf tt
  step-LedTerm (compacted index bytes) rf l = local-LedTerm (compacted index bytes) rf tt
  step-LedTerm applied rf l = local-LedTerm applied rf tt
  step-LedTerm restarted rf l = local-LedTerm restarted rf tt

  -- A leader appends only: if a node leads before and after an event, whatever the event is, then
  -- its term is the same, and each entry that its log had, and that lies not before the end of its
  -- snapshot afterwards, is at its index still.
  pub leader_appends_only :
      (e : Event C) (rf : Raft C) {rf' : Raft C}
      → step e rf ≡ some rf'
      → rf.state ≡ NodeState.leader
      → rf'.state ≡ NodeState.leader
      → (rf'.current_term ≡ rf.current_term) × KeepsEntries rf rf'
  leader_appends_only e rf run l l' = (
    Ensures-some (LedTerm rf) (step e rf) (step-LedTerm e rf l) run l',
    Ensures-some (LedLog rf) (step e rf) (step-LedLog e rf l) run l',
  )

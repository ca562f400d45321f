-- ===== src/Consensus/Leader/Broadcast.antt =====
-- log_replication.go, ticker.go and raft.go: the heartbeat to all peers, a round of a peer's
-- replicator, and what Raft tells the state machine of itself.
use raft_algorithm_thesis.Base.{
  ℕ, zero, suc, Bool, Option, some, List, [], ◌∷◌, ◌==◌, if◌then◌else◌, ◌>>=◌,
}
use raft_algorithm_thesis.Consensus.Types.{Raft}
use raft_algorithm_thesis.Consensus.Log.{is_leader}
use raft_algorithm_thesis.Consensus.Leader.{Sent, nothing, needs_replication, replicate_to_peer}

module _ {C : Type 0} where
  -- `signalBroadcastReplication(true)`, down from a peer: what is sent, by peer, where no other event
  -- comes between the heartbeat and the goroutines that it starts.
  unfoldable pub broadcast_below : Raft C → ℕ → Option (List (ℕ × Sent C))
  broadcast_below rf zero = some []
  broadcast_below rf (suc peer) =
      let rest = broadcast_below rf peer in
      if peer == rf.me
      then rest
      else do sent ← replicate_to_peer peer rf; others ← rest; some ((peer, sent) ∷ others)

  -- The heartbeat timer's case of `ticker`.
  unfoldable pub heartbeat : Raft C → Option (List (ℕ × Sent C))
  heartbeat rf = if is_leader rf.state then broadcast_below rf rf.peers else some []

  -- A round of `replicator`: with nothing to replicate it waits.
  unfoldable pub replicator_round : ℕ → Raft C → Option (Sent C)
  replicator_round peer rf = do
    needs ← needs_replication peer rf
    if needs then replicate_to_peer peer rf else some nothing

  -- `State`
  unfoldable pub get_state : Raft C → ℕ × Bool
  get_state rf = (rf.current_term, is_leader rf.state)

  -- `Leader`
  unfoldable pub get_leader : Raft C → Option ℕ
  get_leader rf = rf.current_leader

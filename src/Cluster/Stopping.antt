-- ===== src/Cluster/Stopping.antt =====
-- log_replication.go, storage.go and raft.go: the calls that leave a node a follower.
use raft_algorithm_thesis.Base.{
  ℕ, ◌≡◌, refl, ◌∙◌, inl, inr, ◌⊎◌, Option, none, some, List, [], ◌∷◌, if_cases, Ensures,
  Ensures->>=, Ensures-some, Ensures-mono, ltb, leb,
}
use raft_algorithm_thesis.Consensus.Types.{
  GobValue, Raft, NodeState, AppendEntriesArgs, AppendEntriesReply, InstallSnapshotArgs,
}
use raft_algorithm_thesis.Consensus.Storage.{
  persist, save, truncate_log_with_snapshot, install_newer, install_snapshot, adopt_snapshot_term,
  make, read_persist, decode_state, restore, fresh,
}
use raft_algorithm_thesis.Consensus.Append.{
  append_entries, finish_append, accept_entries, follow, handle_consistency_conflict,
}
use raft_algorithm_thesis.Cluster.Promotion.{Same, accept-Same}
use raft_algorithm_thesis.Cluster.Standing.{truncate-Same}
use raft_algorithm_thesis.Cluster.Polls.{persist-IsFrame}

module _ {C : Type 0} where
  -- The call does nothing, or leaves a follower.
  abbrev pub Stops : {A : Type 0} → Raft C → Raft C × A → Type 0
  Stops rf r = (r.0 ≡ rf) ⊎ (r.0.state ≡ NodeState.follower)

  persist-state : (rf : Raft C) → (persist rf).state ≡ rf.state
  persist-state rf = let (p, m, s, t, v) = persist-IsFrame rf in s

  finish-state :
      (args : AppendEntriesArgs C) (reply : AppendEntriesReply) (rf : Raft C)
      (conflict : Option AppendEntriesReply)
      → Ensures
          (λ (r : Raft C × AppendEntriesReply). r.0.state ≡ rf.state)
          (finish_append args reply rf conflict)
  unfolding finish_append
  finish-state args reply rf (some refused) = persist-state rf
  finish-state args reply rf none =
      Ensures->>= (λ (r : Raft C × AppendEntriesReply). r.0.state ≡ rf.state)
        (accept_entries args rf) _
        (λ rf' run.
          let (p, m, s, t) = Ensures-some (Same rf) _ (accept-Same args rf) run in
          persist-state rf' ∙ s)

  pub append_entries-Stops :
      (args : AppendEntriesArgs C) (rf : Raft C) → Ensures (Stops rf) (append_entries args rf)
  unfolding append_entries
  append_entries-Stops args rf =
      if_cases (Ensures (Stops rf)) (ltb args.term rf.current_term) (λ _. inl refl)
        (λ _. Ensures->>= (Stops rf) (handle_consistency_conflict _ _ _) _ (λ conflict _.
          Ensures-mono (λ (r : Raft C × AppendEntriesReply). r.0.state ≡ (follow args rf).state)
            (Stops rf) (λ r s. inr (s ∙ (unfold follow in refl))) _
            (finish-state args _ (follow args rf) conflict)))

  install_newer-state :
      (args : InstallSnapshotArgs) (rf : Raft C)
      → Ensures (λ (r : Raft C). r.state ≡ rf.state) (install_newer args rf)
  unfolding install_newer save
  install_newer-state args rf =
      Ensures->>= (λ (r : Raft C). r.state ≡ rf.state) (truncate_log_with_snapshot _ _ rf) _
        (λ cut run. let (p, m, s, t) = Ensures-some (Same rf) _ (truncate-Same _ _ rf) run in s)

  pub install_snapshot-Stops :
      (args : InstallSnapshotArgs) (rf : Raft C) → Ensures (Stops rf) (install_snapshot args rf)
  unfolding install_snapshot
  install_snapshot-Stops args rf =
      if_cases (Ensures (Stops rf)) (ltb args.term rf.current_term) (λ _. inl refl)
        (λ _.
          if_cases (Ensures (Stops rf))
            (leb args.last_included_index (adopt_snapshot_term args rf).last_included_index)
            (λ _. inr refl)
            (λ _. Ensures->>= (Stops rf) (install_newer args _) _ (λ installed run. inr (
              Ensures-some (λ (r : Raft C). r.state ≡ NodeState.follower) _
                (install_newer-state args _) run))))

  read-state :
      (peers me : ℕ) (stream : List (GobValue C)) (rf : Raft C)
      → rf.state ≡ NodeState.follower
      → Ensures (λ (r : Raft C). r.state ≡ NodeState.follower) (read_persist stream rf)
  unfolding read_persist restore
  read-state peers me [] rf f = f
  read-state peers me (v ∷ stream) rf f =
      Ensures->>= (λ (r : Raft C). r.state ≡ NodeState.follower) (decode_state (v ∷ stream)) _
        (λ s _. f)

  pub restart-Stops :
      (rf : Raft C)
      → Ensures (λ (r : Raft C). r.state ≡ NodeState.follower) (make rf.peers rf.me rf.persister)
  unfolding make fresh
  restart-Stops rf = read-state rf.peers rf.me rf.persister.raft_state _ refl

-- ===== src/Cluster/Standing.antt =====
-- storage.go, log_replication.go, raft.go and ticker.go: a node's events but those of an election,
-- and elections.
use raft_algorithm_thesis.Base.{
  ℕ, ◌+◌, ◌≡◌, refl, not, ◌&&◌, ◌||◌, none, some, List, if_cases, Ensures, Ensures->>=,
  Ensures-some, Ensures-mono, ltb, leb, ◌==◌, get_elem?, length,
}
use raft_algorithm_thesis.Consensus.Types.{
  Raft, NodeState, AppendEntriesArgs, AppendEntriesReply, InstallSnapshotArgs, InstallSnapshotReply,
}
use raft_algorithm_thesis.Consensus.Log.{is_leader, get_physical_index, slice_from, get_first_log}
use raft_algorithm_thesis.Consensus.Storage.{
  snapshot, adopt_snapshot_term, truncate_log_with_snapshot, keeps_suffix, install_newer,
  install_snapshot,
}
use raft_algorithm_thesis.Consensus.Vote.{handle_higher_term}
use raft_algorithm_thesis.Consensus.Leader.{
  should_ignore_reply, resolve_conflict, conflict_next, write, advance_peer_indices,
  update_commit_index, find_commit, handle_append_entries_reply, raise,
  handle_install_snapshot_reply,
}
use raft_algorithm_thesis.Consensus.Applier.{slice, apply_entries, apply_round}
use raft_algorithm_thesis.Cluster.Promotion.{
  NoPromotion, FstNoPromotion, none_promoted, NoPromotion-trans, demoted, persist-NoPromotion,
  save-NoPromotion, higher-NoPromotion, Same, Same-NoPromotion,
}

module _ {C : Type 0} where
  abbrev Placed : Raft C → Raft C → Type 0
  Placed rf rf' = (rf'.peers ≡ rf.peers) × (rf'.me ≡ rf.me)

  adopt_snapshot-Placed :
      (args : InstallSnapshotArgs) (rf : Raft C) → Placed rf (adopt_snapshot_term args rf)
  unfolding adopt_snapshot_term
  adopt_snapshot-Placed args rf =
      if_cases (Placed rf) (ltb rf.current_term args.term)
        (λ _.
          let p = persist-NoPromotion (record rf { current_term = args.term; voted_for = none }) in
          (p.peers, p.me))
        (λ _. (refl, refl))

  pub truncate-Same :
      (index term : ℕ) (rf : Raft C) → Ensures (Same rf) (truncate_log_with_snapshot index term rf)
  unfolding truncate_log_with_snapshot
  truncate-Same index term rf = Ensures->>= (Same rf) (keeps_suffix index term rf) _ (λ keep _.
      if_cases (Ensures (Same rf)) keep
        (λ suffix. Ensures->>= (Same rf) (get_physical_index rf index) _ (λ p _.
          Ensures->>= (Same rf) (slice_from rf.logs p) _ (λ rest _. (refl, refl, refl, refl))))
        (λ all_new. (refl, refl, refl, refl)))

  install_newer-NoPromotion :
      (args : InstallSnapshotArgs) (rf : Raft C) → Ensures (NoPromotion rf) (install_newer args rf)
  unfolding install_newer
  install_newer-NoPromotion args rf =
      Ensures->>= (NoPromotion rf) (truncate_log_with_snapshot _ _ rf) _ (λ cut run.
        NoPromotion-trans
          (Same-NoPromotion rf cut (Ensures-some (Same rf) _ (truncate-Same _ _ rf) run))
          (NoPromotion-trans (Same-NoPromotion cut _ (refl, refl, refl, refl))
            (save-NoPromotion _ _)))

  pub install_snapshot-NoPromotion :
      (args : InstallSnapshotArgs) (rf : Raft C)
      → Ensures (FstNoPromotion rf) (install_snapshot args rf)
  unfolding install_snapshot
  install_snapshot-NoPromotion args rf =
      if_cases (Ensures (FstNoPromotion rf)) (ltb args.term rf.current_term) (λ _. none_promoted rf)
        (λ _.
          if_cases (Ensures (FstNoPromotion rf))
            (leb args.last_included_index (adopt_snapshot_term args rf).last_included_index)
            (λ _. followed)
            (λ _. Ensures->>= (FstNoPromotion rf) (install_newer args _) _ (λ installed run.
              NoPromotion-trans followed
                (Ensures-some (NoPromotion _) _ (install_newer-NoPromotion args _) run))))
    where
      followed : NoPromotion rf (record (adopt_snapshot_term args rf) {
        current_leader = some args.leader_id;
        state = NodeState.follower;
      })
      followed = let (p, m) = adopt_snapshot-Placed args rf in demoted rf _ p m refl

  pub snapshot-NoPromotion :
      (index : ℕ) (bytes : List ℕ) (rf : Raft C)
      → Ensures (NoPromotion rf) (snapshot index bytes rf)
  unfolding snapshot
  snapshot-NoPromotion index bytes rf =
      if_cases (Ensures (NoPromotion rf))
        (leb index rf.last_included_index || ltb rf.commit_index index) (λ skip. none_promoted rf)
        (λ cut. Ensures->>= (NoPromotion rf) (get_physical_index rf index) _ (λ p _.
          Ensures->>= (NoPromotion rf) (slice_from rf.logs p) _ (λ rest _.
            Ensures->>= (NoPromotion rf) (get_first_log _) _ (λ first _.
              NoPromotion-trans (Same-NoPromotion rf _ (refl, refl, refl, refl))
                (save-NoPromotion bytes _)))))

  resolve-Same :
      (peer : ℕ) (args : AppendEntriesArgs C) (reply : AppendEntriesReply) (rf : Raft C)
      → Ensures (Same rf) (resolve_conflict peer args reply rf)
  unfolding resolve_conflict
  resolve-Same peer args reply rf =
      if_cases (Ensures (Same rf)) (ltb args.prev_log_index rf.last_included_index)
        (λ compacted. (refl, refl, refl, refl))
        (λ kept.
          Ensures->>= (Same rf) (conflict_next reply.conflict_term args reply rf) _ (λ next _.
            Ensures->>= (Same rf) (write rf.next_index peer next) _
              (λ nexts _. (refl, refl, refl, refl))))

  advance_peer-Same :
      (peer : ℕ) (args : AppendEntriesArgs C) (rf : Raft C)
      → Ensures (Same rf) (advance_peer_indices peer args rf)
  unfolding advance_peer_indices
  advance_peer-Same peer args rf = Ensures->>= (Same rf) (get_elem? rf.match_index peer) _ (λ old _.
      if_cases (Ensures (Same rf)) (ltb old (args.prev_log_index + length args.entries))
        (λ grows. Ensures->>= (Same rf) (write _ _ _) _ (λ matches _.
          Ensures->>= (Same rf) (write _ _ _) _ (λ nexts _. (refl, refl, refl, refl))))
        (λ stays. (refl, refl, refl, refl)))

  update_commit-NoPromotion : (rf : Raft C) → Ensures (NoPromotion rf) (update_commit_index rf)
  unfolding update_commit_index
  update_commit-NoPromotion rf =
      Ensures->>= (NoPromotion rf) (find_commit rf _) _
        (λ n _. Same-NoPromotion rf _ (refl, refl, refl, refl))

  pub append_reply-NoPromotion :
      (peer : ℕ) (args : AppendEntriesArgs C) (reply : AppendEntriesReply) (rf : Raft C)
      → Ensures (NoPromotion rf) (handle_append_entries_reply peer args reply rf)
  unfolding handle_append_entries_reply should_ignore_reply
  append_reply-NoPromotion peer args reply rf =
      if_cases (Ensures (NoPromotion rf)) (should_ignore_reply args.term reply.term rf).1
        (λ ignored. higher)
        (λ heard.
          Ensures-mono (NoPromotion rf') (NoPromotion rf) (λ r k. NoPromotion-trans higher k) _
            (if_cases (Ensures (NoPromotion rf')) (not reply.success)
              (λ failed.
                Ensures-mono (Same rf') (NoPromotion rf') (λ r k. Same-NoPromotion rf' r k) _
                  (resolve-Same peer args reply rf'))
              (λ done.
                Ensures->>= (NoPromotion rf') (advance_peer_indices peer args rf') _
                  (λ advanced run.
                    Ensures-mono (NoPromotion advanced) (NoPromotion rf')
                      (λ r k.
                        NoPromotion-trans
                          (Same-NoPromotion rf' advanced
                            (Ensures-some (Same rf') _ (advance_peer-Same peer args rf') run))
                          k)
                      _ (update_commit-NoPromotion advanced)))))
    where
      rf' : Raft C
      rf' = (handle_higher_term reply.term rf).0

      higher : NoPromotion rf rf'
      higher = higher-NoPromotion reply.term rf

  pub snapshot_reply-NoPromotion :
      (peer : ℕ) (args : InstallSnapshotArgs) (reply : InstallSnapshotReply) (rf : Raft C)
      → Ensures (NoPromotion rf) (handle_install_snapshot_reply peer args reply rf)
  unfolding handle_install_snapshot_reply
  snapshot_reply-NoPromotion peer args reply rf =
      if_cases (Ensures (NoPromotion rf)) (handle_higher_term reply.term rf).1 (λ higher. kept)
        (λ same.
          if_cases (Ensures (NoPromotion rf))
            (is_leader rf'.state && (rf'.current_term == args.term))
            (λ leads. Ensures->>= (NoPromotion rf) (raise rf'.next_index _ _) _ (λ nexts _.
              Ensures->>= (NoPromotion rf) (raise rf'.match_index _ _) _ (λ matches _.
                NoPromotion-trans kept (Same-NoPromotion rf' _ (refl, refl, refl, refl)))))
            (λ ignored. kept))
    where
      rf' : Raft C
      rf' = (handle_higher_term reply.term rf).0

      kept : NoPromotion rf rf'
      kept = higher-NoPromotion reply.term rf

  pub apply_round-NoPromotion : (rf : Raft C) → Ensures (FstNoPromotion rf) (apply_round rf)
  unfolding apply_round apply_entries
  apply_round-NoPromotion rf =
      if_cases (Ensures (FstNoPromotion rf)) (leb rf.commit_index rf.last_applied)
        (λ _. none_promoted rf)
        (λ _.
          if_cases (Ensures (FstNoPromotion rf)) (ltb rf.last_applied rf.last_included_index)
            (λ _. Same-NoPromotion rf _ (refl, refl, refl, refl))
            (λ _. Ensures->>= (FstNoPromotion rf) (get_physical_index rf _) _ (λ lo _.
              Ensures->>= (FstNoPromotion rf) (get_physical_index rf _) _ (λ hi _.
                Ensures->>= (FstNoPromotion rf) (slice rf.logs lo _) _
                  (λ es _. Same-NoPromotion rf _ (refl, refl, refl, refl))))))

-- ===== src/Cluster/Steady.antt =====
-- log_replication.go, ticker.go and raft.go: the calls that leave the log alone.
use raft_algorithm_thesis.Base.{
  ℕ, ◌+◌, refl, ◌∙◌, not, ◌&&◌, some, if_cases, Ensures, Ensures->>=, Ensures-some, Ensures-mono,
  ltb, leb, ◌==◌, get_elem?, length,
}
use raft_algorithm_thesis.Consensus.Types.{
  Raft, RequestVoteArgs, AppendEntriesArgs, AppendEntriesReply, InstallSnapshotArgs,
  InstallSnapshotReply,
}
use raft_algorithm_thesis.Consensus.Log.{get_physical_index, is_leader}
use raft_algorithm_thesis.Consensus.Storage.{persist}
use raft_algorithm_thesis.Consensus.Vote.{
  handle_higher_term, request_vote, adopt_vote_term, can_vote, is_log_up_to_date,
}
use raft_algorithm_thesis.Consensus.Leader.{
  should_ignore_reply, resolve_conflict, conflict_next, write, advance_peer_indices,
  update_commit_index, find_commit, handle_append_entries_reply, raise,
  handle_install_snapshot_reply,
}
use raft_algorithm_thesis.Consensus.Applier.{slice, apply_entries, apply_round}
use raft_algorithm_thesis.Consensus.Backtrack.Refusing.{SameLog, persist-SameLog}

module _ {C : Type 0} where
  abbrev pub FstSameLog : {A : Type 0} → Raft C → Raft C × A → Type 0
  FstSameLog rf r = SameLog rf r.0

  SameLog-trans : (rf rf' rf'' : Raft C) → SameLog rf rf' → SameLog rf' rf'' → SameLog rf rf''
  SameLog-trans rf rf' rf'' (l, i) (l', i') = (l' ∙ l, i' ∙ i)

  higher-SameLog : (term : ℕ) (rf : Raft C) → SameLog rf (handle_higher_term term rf).0
  unfolding handle_higher_term
  higher-SameLog term rf =
      if_cases (FstSameLog rf) (ltb rf.current_term term) (λ _. persist-SameLog _)
        (λ _. (refl, refl))

  adopt-SameLog : (args : RequestVoteArgs) (rf : Raft C) → SameLog rf (adopt_vote_term args rf)
  unfolding adopt_vote_term
  adopt-SameLog args rf =
      if_cases (SameLog rf) (ltb rf.current_term args.term) (λ _. (refl, refl)) (λ _. (refl, refl))

  pub request_vote-SameLog :
      (args : RequestVoteArgs) (rf : Raft C) → Ensures (FstSameLog rf) (request_vote args rf)
  unfolding request_vote
  request_vote-SameLog args rf =
      let adopted = adopt-SameLog args rf in
      if_cases (Ensures (FstSameLog rf)) (ltb args.term rf.current_term) (λ _. (refl, refl))
        (λ _. Ensures->>= (FstSameLog rf) (is_log_up_to_date _ _ _) _ (λ up _.
          if_cases (Ensures (FstSameLog rf)) (can_vote args (adopt_vote_term args rf) && up)
            (λ _.
              SameLog-trans rf (adopt_vote_term args rf) (persist voted) adopted
                (persist-SameLog voted))
            (λ _.
              SameLog-trans rf (adopt_vote_term args rf) (persist (adopt_vote_term args rf)) adopted
                (persist-SameLog (adopt_vote_term args rf)))))
    where
      voted : Raft C
      voted = record (adopt_vote_term args rf) { voted_for = some args.candidate_id }

  resolve-SameLog :
      (peer : ℕ) (args : AppendEntriesArgs C) (reply : AppendEntriesReply) (rf : Raft C)
      → Ensures (SameLog rf) (resolve_conflict peer args reply rf)
  unfolding resolve_conflict
  resolve-SameLog peer args reply rf =
      if_cases (Ensures (SameLog rf)) (ltb args.prev_log_index rf.last_included_index)
        (λ _. (refl, refl))
        (λ _.
          Ensures->>= (SameLog rf) (conflict_next reply.conflict_term args reply rf) _ (λ next _.
            Ensures->>= (SameLog rf) (write rf.next_index peer next) _ (λ nexts _. (refl, refl))))

  advance_peer-SameLog :
      (peer : ℕ) (args : AppendEntriesArgs C) (rf : Raft C)
      → Ensures (SameLog rf) (advance_peer_indices peer args rf)
  unfolding advance_peer_indices
  advance_peer-SameLog peer args rf =
      Ensures->>= (SameLog rf) (get_elem? rf.match_index peer) _ (λ old _.
        if_cases (Ensures (SameLog rf)) (ltb old (args.prev_log_index + length args.entries))
          (λ _.
            Ensures->>= (SameLog rf) (write _ _ _) _
              (λ matches _. Ensures->>= (SameLog rf) (write _ _ _) _ (λ nexts _. (refl, refl))))
          (λ _. (refl, refl)))

  update_commit-SameLog : (rf : Raft C) → Ensures (SameLog rf) (update_commit_index rf)
  unfolding update_commit_index
  update_commit-SameLog rf = Ensures->>= (SameLog rf) (find_commit rf _) _ (λ n _. (refl, refl))

  pub append_reply-SameLog :
      (peer : ℕ) (args : AppendEntriesArgs C) (reply : AppendEntriesReply) (rf : Raft C)
      → Ensures (SameLog rf) (handle_append_entries_reply peer args reply rf)
  unfolding handle_append_entries_reply should_ignore_reply
  append_reply-SameLog peer args reply rf =
      if_cases (Ensures (SameLog rf)) (should_ignore_reply args.term reply.term rf).1 (λ _. higher)
        (λ _.
          Ensures-mono (SameLog rf') (SameLog rf) (λ r k. SameLog-trans rf rf' r higher k) _
            (if_cases (Ensures (SameLog rf')) (not reply.success)
              (λ _. resolve-SameLog peer args reply rf')
              (λ _.
                Ensures->>= (SameLog rf') (advance_peer_indices peer args rf') _ (λ advanced run.
                  Ensures-mono (SameLog advanced) (SameLog rf')
                    (λ r k.
                      SameLog-trans rf' advanced r
                        (Ensures-some (SameLog rf') _ (advance_peer-SameLog peer args rf') run) k)
                    _ (update_commit-SameLog advanced)))))
    where
      rf' : Raft C
      rf' = (handle_higher_term reply.term rf).0

      higher : SameLog rf rf'
      higher = higher-SameLog reply.term rf

  pub snapshot_reply-SameLog :
      (peer : ℕ) (args : InstallSnapshotArgs) (reply : InstallSnapshotReply) (rf : Raft C)
      → Ensures (SameLog rf) (handle_install_snapshot_reply peer args reply rf)
  unfolding handle_install_snapshot_reply
  snapshot_reply-SameLog peer args reply rf =
      if_cases (Ensures (SameLog rf)) (handle_higher_term reply.term rf).1 (λ _. kept)
        (λ _.
          if_cases (Ensures (SameLog rf)) (is_leader rf'.state && (rf'.current_term == args.term))
            (λ _. Ensures->>= (SameLog rf) (raise rf'.next_index _ _) _ (λ nexts _.
              Ensures->>= (SameLog rf) (raise rf'.match_index _ _) _ (λ matches _. kept)))
            (λ _. kept))
    where
      rf' : Raft C
      rf' = (handle_higher_term reply.term rf).0

      kept : SameLog rf rf'
      kept = higher-SameLog reply.term rf

  pub apply_round-SameLog : (rf : Raft C) → Ensures (FstSameLog rf) (apply_round rf)
  unfolding apply_round apply_entries
  apply_round-SameLog rf =
      if_cases (Ensures (FstSameLog rf)) (leb rf.commit_index rf.last_applied) (λ _. (refl, refl))
        (λ _.
          if_cases (Ensures (FstSameLog rf)) (ltb rf.last_applied rf.last_included_index)
            (λ _. (refl, refl))
            (λ _. Ensures->>= (FstSameLog rf) (get_physical_index rf _) _ (λ lo _.
              Ensures->>= (FstSameLog rf) (get_physical_index rf _) _ (λ hi _.
                Ensures->>= (FstSameLog rf) (slice rf.logs lo _) _ (λ es _. (refl, refl))))))

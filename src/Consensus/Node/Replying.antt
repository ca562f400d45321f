-- ===== src/Consensus/Node/Replying.antt =====
-- log_replication.go: the replies to a leader beside the invariant.
use raft_algorithm_thesis.Base.{
  ℕ, ◌-◌, ◌≡◌, refl, sym, ◌∙◌, subst, not, ◌&&◌, List, arith, Ensures, Ensures-some, Ensures->>=,
  if_cases, length, length-set, ltb, inl, inr, get_elem?,
}
use raft_algorithm_thesis.Consensus.Types.{
  Raft, AppendEntriesArgs, AppendEntriesReply, InstallSnapshotArgs, InstallSnapshotReply,
}
use raft_algorithm_thesis.Consensus.Log.{get_len, is_leader}
use raft_algorithm_thesis.Consensus.Invariant.{IsWellFormed}
use raft_algorithm_thesis.Consensus.Vote.{handle_higher_term}
use raft_algorithm_thesis.Consensus.Leader.{
  write, raise, conflict_next, resolve_conflict, advance_peer_indices, update_commit_index,
  should_ignore_reply, handle_append_entries_reply, handle_install_snapshot_reply,
}
use raft_algorithm_thesis.Consensus.Leader.Commit.{
  IsLastReplicated, update_commit_index-IsLastReplicated,
}
use raft_algorithm_thesis.Consensus.Node.Electing.{handle_higher_term-IsWellFormed}

-- A write keeps the number of the places.
abbrev HasLength : ℕ → List ℕ → Type 0
HasLength n xs = length xs ≡ n

write-HasLength : (xs : List ℕ) (i v : ℕ) → Ensures (HasLength (length xs)) (write xs i v)
unfolding write
write-HasLength xs i v =
    if_cases (Ensures (HasLength (length xs))) (ltb i (length xs)) (λ _. length-set xs i v)
      (λ _. tt)

raise-HasLength : (xs : List ℕ) (i v : ℕ) → Ensures (HasLength (length xs)) (raise xs i v)
unfolding raise
raise-HasLength xs i v = Ensures->>= (HasLength (length xs)) (get_elem? xs i) _ (λ old _.
    if_cases (Ensures (HasLength (length xs))) (ltb old v) (λ _. write-HasLength xs i v)
      (λ _. refl))

module _ {C : Type 0} where
  -- New tables of the same lengths.
  indexed-IsWellFormed :
      (rf : Raft C) (nexts matches : List ℕ)
      → IsWellFormed rf
      → HasLength (length rf.next_index) nexts
      → HasLength (length rf.match_index) matches
      → IsWellFormed (record rf { next_index = nexts; match_index = matches })
  indexed-IsWellFormed rf nexts matches wf n m = record {
    contiguous = wf.contiguous;
    nonempty = wf.nonempty;
    anchored = wf.anchored;
    committed = wf.committed;
    applied = wf.applied;
    member = wf.member;
    nexts = n ∙ wf.nexts;
    matches = m ∙ wf.matches;
  }

  resolve_conflict-IsWellFormed :
      (peer : ℕ) (args : AppendEntriesArgs C) (reply : AppendEntriesReply) (rf : Raft C)
      → IsWellFormed rf
      → Ensures IsWellFormed (resolve_conflict peer args reply rf)
  unfolding resolve_conflict
  resolve_conflict-IsWellFormed peer args reply rf wf =
      if_cases (Ensures IsWellFormed) (ltb args.prev_log_index rf.last_included_index) (λ _. wf)
        (λ _.
          Ensures->>= IsWellFormed (conflict_next reply.conflict_term args reply rf) _ (λ next _.
            Ensures->>= IsWellFormed (write rf.next_index peer next) _ (λ nexts run.
              indexed-IsWellFormed rf nexts rf.match_index wf
                (Ensures-some (HasLength _) _ (write-HasLength rf.next_index peer next) run) refl)))

  advance_peer_indices-IsWellFormed :
      (peer : ℕ) (args : AppendEntriesArgs C) (rf : Raft C)
      → IsWellFormed rf
      → Ensures IsWellFormed (advance_peer_indices peer args rf)
  unfolding advance_peer_indices
  advance_peer_indices-IsWellFormed peer args rf wf =
      Ensures->>= IsWellFormed (get_elem? rf.match_index peer) _ (λ old _.
        if_cases (Ensures IsWellFormed) (ltb old _)
          (λ _. Ensures->>= IsWellFormed (write rf.match_index peer _) _ (λ matches run.
            Ensures->>= IsWellFormed (write rf.next_index peer _) _ (λ nexts run'.
              indexed-IsWellFormed rf nexts matches wf
                (Ensures-some (HasLength _) _ (write-HasLength rf.next_index peer _) run')
                (Ensures-some (HasLength _) _ (write-HasLength rf.match_index peer _) run))))
          (λ _. wf))

  -- The commit index of the loop is in the log.
  committed-IsWellFormed :
      (rf : Raft C) (c : ℕ)
      → IsWellFormed rf
      → IsLastReplicated rf (get_len rf - 1) c
      → IsWellFormed (record rf { commit_index = c })
  unfolding get_len
  committed-IsWellFormed rf c wf (inl same, above) =
      subst (λ k. IsWellFormed (record rf { commit_index = k })) (sym same) wf
  committed-IsWellFormed rf c wf (inr (lt, le, r), above) = record {
    contiguous = wf.contiguous;
    nonempty = wf.nonempty;
    anchored = omega (arith, wf.anchored);
    committed = omega (arith, wf.nonempty);
    applied = omega (arith, wf.applied);
    member = wf.member;
    nexts = wf.nexts;
    matches = wf.matches;
  }

  update_commit_index-IsWellFormed :
      (rf : Raft C) → IsWellFormed rf → Ensures IsWellFormed (update_commit_index rf)
  update_commit_index-IsWellFormed rf wf =
      let (rf', run, h) = update_commit_index-IsLastReplicated rf wf in
      subst (Ensures IsWellFormed) (sym run)
        (subst IsWellFormed (sym h.1) (committed-IsWellFormed rf rf'.commit_index wf h.0))

  pub append_reply-IsWellFormed :
      (peer : ℕ) (args : AppendEntriesArgs C) (reply : AppendEntriesReply) (rf : Raft C)
      → IsWellFormed rf
      → Ensures IsWellFormed (handle_append_entries_reply peer args reply rf)
  unfolding handle_append_entries_reply should_ignore_reply
  append_reply-IsWellFormed peer args reply rf wf =
      let w = handle_higher_term-IsWellFormed reply.term rf wf in
      if_cases (Ensures IsWellFormed) (should_ignore_reply args.term reply.term rf).1 (λ _. w)
        (λ _.
          if_cases (Ensures IsWellFormed) (not reply.success)
            (λ _. resolve_conflict-IsWellFormed peer args reply _ w)
            (λ _. Ensures->>= IsWellFormed (advance_peer_indices peer args _) _ (λ advanced run.
              update_commit_index-IsWellFormed advanced (
                Ensures-some IsWellFormed _ (advance_peer_indices-IsWellFormed peer args _ w)
                  run))))

  pub snapshot_reply-IsWellFormed :
      (peer : ℕ) (args : InstallSnapshotArgs) (reply : InstallSnapshotReply) (rf : Raft C)
      → IsWellFormed rf
      → Ensures IsWellFormed (handle_install_snapshot_reply peer args reply rf)
  unfolding handle_install_snapshot_reply
  snapshot_reply-IsWellFormed peer args reply rf wf =
      let w = handle_higher_term-IsWellFormed reply.term rf wf in
      if_cases (Ensures IsWellFormed) (handle_higher_term reply.term rf).1 (λ _. w)
        (λ _.
          if_cases (Ensures IsWellFormed)
            (is_leader (handle_higher_term reply.term rf).0.state && _)
            (λ _. Ensures->>= IsWellFormed (raise _ peer _) _ (λ nexts run.
              Ensures->>= IsWellFormed (raise _ peer _) _ (λ matches run'.
                indexed-IsWellFormed _ nexts matches w
                  (Ensures-some (HasLength _) _ (raise-HasLength _ peer _) run)
                  (Ensures-some (HasLength _) _ (raise-HasLength _ peer _) run'))))
            (λ _. w))

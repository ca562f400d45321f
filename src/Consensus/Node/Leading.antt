-- ===== src/Consensus/Node/Leading.antt =====
-- ticker.go, log_replication.go and raft.go: elections, replication and the applier as steps of a
-- node.
use raft_algorithm_thesis.Base.{
  ℕ, ◌+◌, ◌≡◌, refl, Option, arith, if_cases, Ensures, Ensures->>=, Ensures-some, Ensures-mono, ltb,
  ◌==◌, ◌&&◌, not, ◌/◌, get_elem?, length, leb,
}
use raft_algorithm_thesis.Consensus.Types.{
  Raft, NodeState, RequestVoteArgs, RequestVoteReply, AppendEntriesArgs, AppendEntriesReply,
  InstallSnapshotArgs, InstallSnapshotReply,
}
use raft_algorithm_thesis.Consensus.Storage.{persist}
use raft_algorithm_thesis.Consensus.Vote.{handle_higher_term}
use raft_algorithm_thesis.Consensus.Log.{is_leader, get_last_log, get_physical_index}
use raft_algorithm_thesis.Consensus.Leader.{
  start, should_ignore_reply, resolve_conflict, conflict_next, write, advance_peer_indices,
  update_commit_index, find_commit, handle_append_entries_reply, raise,
  handle_install_snapshot_reply,
}
use raft_algorithm_thesis.Consensus.Election.{
  gen_request_vote_args, start_election, become_candidate, election_timeout, become_leader,
  is_still_valid_candidate, count_vote, request_vote_from_peer,
}
use raft_algorithm_thesis.Consensus.Applier.{slice, apply_entries, apply_round}
use raft_algorithm_thesis.Consensus.Node.Votes.{KeepsFst, higher-Keeps}
use raft_algorithm_thesis.Consensus.Node.Durable.{
  Keeps, Keeps-refl, Keeps-trans, IsVolatile-Keeps, persist-Keeps, persist-frame,
}

module _ {C : Type 0} where
  pub start-Keeps : (command : Option C) (rf : Raft C) → KeepsFst rf (start command rf)
  unfolding start
  start-Keeps command rf =
      if_cases (KeepsFst rf) (not (is_leader rf.state)) (λ refuses. Keeps-refl rf)
        (λ leads. persist-Keeps (record { dead = refl; term_le = omega arith; vote = λ e c v. v }))

  pub become_candidate-Keeps : (rf : Raft C) → Ensures (KeepsFst rf) (become_candidate rf)
  unfolding become_candidate start_election
  become_candidate-Keeps rf = Ensures->>= (KeepsFst rf) (gen_request_vote_args _) _ (λ args _.
      persist-Keeps (record {
        dead = persisted.0;
        term_le = omega (arith, persisted.1);
        vote = λ e c v. absurd (omega (arith, persisted.1));
      }))
    where
      raised : Raft C
      raised = record rf { state = NodeState.candidate; current_term = rf.current_term + 1 }

      persisted :
          ((persist raised).dead ≡ rf.dead)
          × ((persist raised).current_term ≡ rf.current_term + 1)
          × ((persist raised).voted_for ≡ rf.voted_for)
      persisted = persist-frame raised

  pub election_timeout-Keeps : (rf : Raft C) → Ensures (KeepsFst rf) (election_timeout rf)
  unfolding election_timeout
  election_timeout-Keeps rf =
      if_cases (Ensures (KeepsFst rf)) (is_leader rf.state) (λ leads. Keeps-refl rf)
        (λ elects.
          Ensures->>= (KeepsFst rf) (become_candidate rf) _
            (λ r run. Ensures-some (KeepsFst rf) _ (become_candidate-Keeps rf) run))

  -- A handler that changes no saved field.
  become_leader-Keeps : (rf : Raft C) → Ensures (Keeps rf) (become_leader rf)
  unfolding become_leader
  become_leader-Keeps rf =
      Ensures->>= (Keeps rf) (get_last_log rf) _ (λ last _. IsVolatile-Keeps assumption)

  count_vote-Keeps : (granted : ℕ) (rf : Raft C) → Ensures (KeepsFst rf) (count_vote granted rf)
  unfolding count_vote
  count_vote-Keeps granted rf =
      if_cases (Ensures (KeepsFst rf)) (granted + 1 == rf.peers / 2 + 1)
        (λ wins.
          Ensures->>= (KeepsFst rf) (become_leader rf) _
            (λ rf' run. Ensures-some (Keeps rf) _ (become_leader-Keeps rf) run))
        (λ waits. Keeps-refl rf)

  pub request_vote_from_peer-Keeps :
      (args : RequestVoteArgs) (reply : RequestVoteReply) (granted : ℕ) (rf : Raft C)
      → Ensures (KeepsFst rf) (request_vote_from_peer args reply granted rf)
  unfolding request_vote_from_peer
  request_vote_from_peer-Keeps args reply granted rf =
      if_cases (Ensures (KeepsFst rf)) (not (is_still_valid_candidate args.term rf))
        (λ stale. Keeps-refl rf)
        (λ valid.
          if_cases (Ensures (KeepsFst rf)) (handle_higher_term reply.term rf).1
            (λ higher. higher-Keeps reply.term rf)
            (λ same.
              if_cases (Ensures (KeepsFst rf)) reply.vote_granted
                (λ counted.
                  Ensures-mono (KeepsFst _) (KeepsFst rf)
                    (λ r k. Keeps-trans (higher-Keeps reply.term rf) k) (count_vote granted _)
                    (count_vote-Keeps granted _))
                (λ denied. higher-Keeps reply.term rf)))

  resolve_conflict-Keeps :
      (peer : ℕ) (args : AppendEntriesArgs C) (reply : AppendEntriesReply) (rf : Raft C)
      → Ensures (Keeps rf) (resolve_conflict peer args reply rf)
  unfolding resolve_conflict
  resolve_conflict-Keeps peer args reply rf =
      if_cases (Ensures (Keeps rf)) (ltb args.prev_log_index rf.last_included_index)
        (λ compacted. Keeps-refl rf)
        (λ kept.
          Ensures->>= (Keeps rf) (conflict_next reply.conflict_term args reply rf) _ (λ next _.
            Ensures->>= (Keeps rf) (write rf.next_index peer next) _
              (λ nexts _. IsVolatile-Keeps assumption)))

  advance_peer-Keeps :
      (peer : ℕ) (args : AppendEntriesArgs C) (rf : Raft C)
      → Ensures (Keeps rf) (advance_peer_indices peer args rf)
  unfolding advance_peer_indices
  advance_peer-Keeps peer args rf =
      Ensures->>= (Keeps rf) (get_elem? rf.match_index peer) _ (λ old _.
        if_cases (Ensures (Keeps rf)) (ltb old (args.prev_log_index + length args.entries))
          (λ grows. Ensures->>= (Keeps rf) (write _ _ _) _ (λ matches _.
            Ensures->>= (Keeps rf) (write _ _ _) _ (λ nexts _. IsVolatile-Keeps assumption)))
          (λ stays. Keeps-refl rf))

  update_commit-Keeps : (rf : Raft C) → Ensures (Keeps rf) (update_commit_index rf)
  unfolding update_commit_index
  update_commit-Keeps rf =
      Ensures->>= (Keeps rf) (find_commit rf _) _ (λ n _. IsVolatile-Keeps assumption)

  pub append_reply-Keeps :
      (peer : ℕ) (args : AppendEntriesArgs C) (reply : AppendEntriesReply) (rf : Raft C)
      → Ensures (Keeps rf) (handle_append_entries_reply peer args reply rf)
  unfolding handle_append_entries_reply should_ignore_reply
  append_reply-Keeps peer args reply rf =
      if_cases (Ensures (Keeps rf)) (should_ignore_reply args.term reply.term rf).1
        (λ ignored. higher)
        (λ heard.
          Ensures-mono (Keeps rf') (Keeps rf) (λ r k. Keeps-trans higher k) _
            (if_cases (Ensures (Keeps rf')) (not reply.success)
              (λ failed. resolve_conflict-Keeps peer args reply rf')
              (λ done.
                Ensures->>= (Keeps rf') (advance_peer_indices peer args rf') _ (λ advanced run.
                  Ensures-mono (Keeps advanced) (Keeps rf')
                    (λ r k.
                      Keeps-trans
                        (Ensures-some (Keeps rf') _ (advance_peer-Keeps peer args rf') run) k)
                    _ (update_commit-Keeps advanced)))))
    where
      rf' : Raft C
      rf' = (handle_higher_term reply.term rf).0

      higher : Keeps rf rf'
      higher = higher-Keeps reply.term rf

  pub snapshot_reply-Keeps :
      (peer : ℕ) (args : InstallSnapshotArgs) (reply : InstallSnapshotReply) (rf : Raft C)
      → Ensures (Keeps rf) (handle_install_snapshot_reply peer args reply rf)
  unfolding handle_install_snapshot_reply
  snapshot_reply-Keeps peer args reply rf =
      if_cases (Ensures (Keeps rf)) (handle_higher_term reply.term rf).1 (λ higher. kept)
        (λ same.
          if_cases (Ensures (Keeps rf)) (is_leader rf'.state && (rf'.current_term == args.term))
            (λ leads. Ensures->>= (Keeps rf) (raise rf'.next_index _ _) _ (λ nexts _.
              Ensures->>= (Keeps rf) (raise rf'.match_index _ _) _
                (λ matches _. Keeps-trans kept (IsVolatile-Keeps assumption))))
            (λ no_leader. kept))
    where
      rf' : Raft C
      rf' = (handle_higher_term reply.term rf).0

      kept : Keeps rf rf'
      kept = higher-Keeps reply.term rf

  pub apply_round-Keeps : (rf : Raft C) → Ensures (KeepsFst rf) (apply_round rf)
  unfolding apply_round apply_entries
  apply_round-Keeps rf =
      if_cases (Ensures (KeepsFst rf)) (leb rf.commit_index rf.last_applied)
        (λ waits. Keeps-refl rf)
        (λ some_new.
          if_cases (Ensures (KeepsFst rf)) (ltb rf.last_applied rf.last_included_index)
            (λ behind. IsVolatile-Keeps assumption)
            (λ in_log. Ensures->>= (KeepsFst rf) (get_physical_index rf _) _ (λ lo _.
              Ensures->>= (KeepsFst rf) (get_physical_index rf _) _ (λ hi _.
                Ensures->>= (KeepsFst rf) (slice rf.logs _ _) _
                  (λ entries _. IsVolatile-Keeps assumption)))))

-- ===== src/Consensus/Backtrack/Sending.antt =====
-- log_replication.go: the leader that sends a request with its log.
use raft_algorithm_thesis.Base.{
  ℕ, ◌-◌, ◌<◌, ◌≡◌, refl, true, not, some, arith, leb, if_cases, Ensures, Ensures->>=, Ensures-some,
  get_elem?,
}
use raft_algorithm_thesis.Consensus.Types.{Raft, AppendEntriesArgs}
use raft_algorithm_thesis.Consensus.Log.{is_leader, get_physical_index, slice_from}
use raft_algorithm_thesis.Consensus.Leader.{
  Sent, append, replicate_to_peer, gen_append_entries_args,
}

module _ {C : Type 0} where
  -- The sender leads, and its request goes on from nextIndex.
  pub record Sends (peer : ℕ) (lf : Raft C) (args : AppendEntriesArgs C) : Type 0 where
    pub leads : is_leader lf.state ≡ true
    pub next : ℕ
    pub at : get_elem? lf.next_index peer ≡ some next
    pub above : lf.last_included_index < next
    pub prev : args.prev_log_index ≡ next - 1

  abbrev IsSending : ℕ → Raft C → Sent C → Type 0
  IsSending peer lf (append args) = Sends peer lf args
  IsSending peer lf _ = Unit

  gen_append-prev :
      (prev : ℕ) (rf : Raft C)
      → Ensures
          (λ (args : AppendEntriesArgs C). args.prev_log_index ≡ prev)
          (gen_append_entries_args prev rf)
  unfolding gen_append_entries_args
  gen_append-prev prev rf = Ensures->>= P (get_physical_index rf prev) _ (λ p _.
      Ensures->>= P (slice_from rf.logs _) _
        (λ es _. Ensures->>= P (get_elem? rf.logs p) _ (λ e _. refl)))
    where
      P : AppendEntriesArgs C → Type 0
      P args = args.prev_log_index ≡ prev

  replicate-IsSending :
      (peer : ℕ) (lf : Raft C) → Ensures (IsSending peer lf) (replicate_to_peer peer lf)
  unfolding replicate_to_peer
  replicate-IsSending peer lf =
      if_cases (Ensures (IsSending peer lf)) (not (is_leader lf.state)) (λ _. tt)
        (λ leads. Ensures->>= (IsSending peer lf) (get_elem? lf.next_index peer) _ (λ next found.
          if_cases (Ensures (IsSending peer lf)) (leb next lf.last_included_index) (λ _. tt)
            (λ above.
              Ensures->>= (IsSending peer lf) (gen_append_entries_args (next - 1) lf) _ (λ args run.
                record {
                  leads = ground arith;
                  next = next;
                  at = found;
                  above = ground arith;
                  prev =
                      Ensures-some (λ (args : AppendEntriesArgs C). args.prev_log_index ≡ next - 1)
                        _ (gen_append-prev (next - 1) lf) run;
                }))))

  pub replicate-Sends :
      (peer : ℕ) (lf : Raft C) {args : AppendEntriesArgs C}
      → replicate_to_peer peer lf ≡ some (append args)
      → Sends peer lf args
  replicate-Sends peer lf run = Ensures-some (IsSending peer lf) _ (replicate-IsSending peer lf) run

-- ===== src/Consensus/Leader/Replicate.antt =====
-- log_replication.go: what replicateToPeer sends, at the follower's AppendEntries.
use native.Mathlib.Decide.{dec_lt}
use raft_algorithm_thesis.Base.{
  ℕ, suc, ◌+◌, ◌-◌, ◌≤◌, ◌<◌, ◌≡◌, refl, sym, ◌∙◌, ap, subst, Bool, true, false, not, Option, none,
  some, List, length, drop, get_elem?, get_elem?-drop, arith, leb, if◌then◌else◌, if_cases, Ensures,
  Ensures->>=, Ensures-some, length-drop, le→ltb, ◌>>=◌,
}
use raft_algorithm_thesis.Consensus.Types.{Entry, Raft, AppendEntriesArgs, AppendEntriesReply}
use raft_algorithm_thesis.Consensus.Log.{get_log, get_physical_index, slice_from, is_leader}
use raft_algorithm_thesis.Consensus.Append.{append_entries}
use raft_algorithm_thesis.Consensus.Append.Safety.{Replicated, append_entries-Replicated}
use raft_algorithm_thesis.Consensus.Leader.{
  gen_append_entries_args, replicate_to_peer, Sent, append, install, nothing,
}
use raft_algorithm_thesis.Consensus.Invariant.{
  IsWellFormed, HasTerm, get_log-get_elem?, get_log-range, IsContiguous-drop,
}
use raft_algorithm_thesis.Consensus.Matching.{IsContiguous}

module _ {C : Type 0} where
  -- A request that carries the leader's log behind its previous entry.
  pub record IsFromLog (rf : Raft C) (args : AppendEntriesArgs C) : Type 0 where
    pub term : args.term ≡ rf.current_term
    pub start : rf.last_included_index ≤ args.prev_log_index
    pub prev : HasTerm rf args.prev_log_index args.prev_log_term
    pub entries : args.entries ≡ drop (args.prev_log_index - rf.last_included_index + 1) rf.logs
    pub commit : args.leader_commit ≡ rf.commit_index

  gen_append-IsFromLog :
      (rf : Raft C) (i : ℕ)
      → rf.last_included_index ≤ i
      → Ensures (IsFromLog rf) (gen_append_entries_args i rf)
  unfolding gen_append_entries_args get_physical_index slice_from
  gen_append-IsFromLog rf i lo = rw (le→ltb i rf.last_included_index lo) (
      if_bind (leb (i - rf.last_included_index + 1) (length rf.logs)) _ _ (λ short.
        Ensures->>= (IsFromLog rf) (get_elem? rf.logs (i - rf.last_included_index)) _ (λ prev found.
          record {
            term = refl;
            start = lo;
            prev = (prev, get_log-get_elem? rf i lo ∙ found, refl);
            entries = refl;
            commit = refl;
          })))
    where
      if_bind :
          (b : Bool) (es : List (Entry C)) (f : List (Entry C) → Option (AppendEntriesArgs C))
          → (b ≡ true → Ensures (IsFromLog rf) (f es))
          → Ensures (IsFromLog rf) ((if b then some es else none) >>= f)
      if_bind true es f h = h refl
      if_bind false es f h = tt

  abbrev FromLog : Raft C → Sent C → Type 0
  FromLog rf (append args) = IsFromLog rf args
  FromLog rf (install args) = Unit
  FromLog rf nothing = Unit

  replicate-FromLog : (rf : Raft C) (peer : ℕ) → Ensures (FromLog rf) (replicate_to_peer peer rf)
  unfolding replicate_to_peer
  replicate-FromLog rf peer =
      if_cases (Ensures (FromLog rf)) (not (is_leader rf.state)) (λ idle. tt)
        (λ leads. Ensures->>= (FromLog rf) (get_elem? rf.next_index peer) _ (λ next _.
          if_cases (Ensures (FromLog rf)) (leb next rf.last_included_index) (λ behind. tt)
            (λ in_log.
              Ensures->>= (FromLog rf) (gen_append_entries_args (next - 1) rf) _ (λ args run.
                Ensures-some (IsFromLog rf) _ (gen_append-IsFromLog rf (next - 1) (ground arith))
                  run))))

  -- What replicateToPeer sends as AppendEntries is of the leader's log.
  pub sent_append :
      (rf : Raft C) (peer : ℕ) {args : AppendEntriesArgs C}
      → replicate_to_peer peer rf ≡ some (append args)
      → IsFromLog rf args
  sent_append rf peer run = Ensures-some (FromLog rf) _ (replicate-FromLog rf peer) run

  module _ {lf : Raft C} (wf : IsWellFormed lf) {args : AppendEntriesArgs C}
      (sent : IsFromLog lf args) where
    place_eq :
        lf.last_included_index + (args.prev_log_index - lf.last_included_index + 1)
        ≡ suc args.prev_log_index
    place_eq = omega (arith, sent.start)

    pub sent-IsContiguous : IsContiguous (suc args.prev_log_index) args.entries
    sent-IsContiguous = rw sent.entries (
        subst
          (λ i. IsContiguous i (drop (args.prev_log_index - lf.last_included_index + 1) lf.logs))
          place_eq (IsContiguous-drop lf.last_included_index _ lf.logs wf.contiguous))

    -- The entry of the leader's log at an index behind the previous one.
    pub sent-get_log :
        (i : ℕ) {e : Entry C}
        → args.prev_log_index < i
        → get_log lf i ≡ some e
        → get_elem? args.entries (i - suc args.prev_log_index) ≡ some e
    sent-get_log i {e} lt q = rw sent.entries (
        get_elem?-drop (args.prev_log_index - lf.last_included_index + 1) lf.logs _
        ∙ ap (get_elem? lf.logs) index_eq
        ∙ sym (get_log-get_elem? lf i (get_log-range lf i {e = e} q).0)
        ∙ q)
      where
        index_eq :
            args.prev_log_index - lf.last_included_index + 1 + (i - suc args.prev_log_index)
            ≡ i - lf.last_included_index
        index_eq = omega (arith, sent.start)

    -- The last index that the request covers is the leader's last.
    pub sent-length :
        args.prev_log_index + length args.entries + 1 ≡ lf.last_included_index + length lf.logs
    sent-length = omega (
      arith,
      ap length sent.entries,
      length-drop (args.prev_log_index - lf.last_included_index + 1) lf.logs,
      range sent.prev,
      sent.start,
    )
      where
        range :
            HasTerm lf args.prev_log_index args.prev_log_term
            → args.prev_log_index < lf.last_included_index + length lf.logs
        range (e, q, t) = (get_log-range lf args.prev_log_index {e = e} q).1

  -- The follower's log at the previous entry.
  at_previous :
      (lf rf rf' : Raft C) (args : AppendEntriesArgs C)
      → HasTerm lf args.prev_log_index args.prev_log_term
      → Replicated args rf rf'
      → (e : Entry C) → get_log lf args.prev_log_index ≡ some e
      → HasTerm rf' args.prev_log_index e.term
  at_previous lf rf rf' args (p, found, t) ((x, here, u), new, old) e q = (
    x,
    old args.prev_log_index (get_log-range rf args.prev_log_index {e = x} here).0 (omega arith)
        ∙ here,
    u ∙ sym t ∙ ap (λ (y : Entry C). y.term) same,
  )
    where
      same : p ≡ e
      same = cc

  -- If a well-formed follower answers success to what a well-formed leader sends it, then at every
  -- index from the request's previous entry to the end of the leader's log, the follower's log has
  -- an entry of the leader's term; and the leader's commit index that it is told lies within.
  pub replicate-append_entries :
      (lf rf : Raft C) (peer : ℕ) {args : AppendEntriesArgs C} {rf' : Raft C}
      {reply : AppendEntriesReply}
      → IsWellFormed lf
      → IsWellFormed rf
      → replicate_to_peer peer lf ≡ some (append args)
      → append_entries args rf ≡ some (rf', reply)
      → reply.success ≡ true
      → (i : ℕ) (e : Entry C) → args.prev_log_index ≤ i
      → get_log lf i ≡ some e
      → HasTerm rf' i e.term × (args.leader_commit ≤ args.prev_log_index + length args.entries)
  replicate-append_entries lf rf peer {args} {rf'} lw fw send run ok i e le q =
      (agree, omega (arith, sent.commit, sent-length lw sent, lw.committed))
    where
      sent : IsFromLog lf args
      sent = sent_append lf peer send

      done : Replicated args rf rf'
      done = append_entries-Replicated args rf fw (sent-IsContiguous lw sent) run ok

      agree : HasTerm rf' i e.term
      agree = elim (dec_lt args.prev_log_index i) [
        | yes behind ↦
            subst (λ j. HasTerm rf' j e.term) (omega arith)
              (done.1 (i - suc args.prev_log_index) e (sent-get_log lw sent i behind q))
        | no at ↦
            subst (λ j. HasTerm rf' j e.term) (omega arith)
              (at_previous lf rf rf' args sent.prev done e
                (subst (λ j. get_log lf j ≡ some e) (omega arith) q))
      ]

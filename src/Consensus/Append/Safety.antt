-- ===== src/Consensus/Append/Safety.antt =====
-- log_replication.go: AppendEntries and the log after a success.
use raft_algorithm_thesis.Base.{
  ℕ, suc, ◌+◌, ◌-◌, ◌≤◌, ◌≡◌, sym, ap, ◌∙◌, subst, some, length, take, drop, get_elem?, arith, true,
  ltb, Bool-cases, inl, inr, length-take, get_elem?-append_right, get_elem?-take-append,
}
use raft_algorithm_thesis.Consensus.Types.{Entry, Raft, AppendEntriesArgs, AppendEntriesReply}
use raft_algorithm_thesis.Consensus.Log.{get_log}
use raft_algorithm_thesis.Consensus.Storage.{persist}
use raft_algorithm_thesis.Consensus.Storage.Frames.{get_log-persist}
use raft_algorithm_thesis.Consensus.Append.{follow, advance_commit_index, append_entries}
use raft_algorithm_thesis.Consensus.Append.Accept.{
  place, merged, accepted, Outcome, append_entries_cases,
}
use raft_algorithm_thesis.Consensus.Invariant.{
  IsWellFormed, HasTerm, get_log-get_elem?, get_log-range,
}
use raft_algorithm_thesis.Consensus.Matching.{IsContiguous, merge}
use raft_algorithm_thesis.Consensus.Matching.Merge.{get_elem?-merge}

module _ {C : Type 0} where
  get_log-advance :
      (commit : ℕ) (rf : Raft C) (i : ℕ) → get_log (advance_commit_index commit rf) i ≡ get_log rf i
  unfolding advance_commit_index get_log
  get_log-advance commit rf i = elim (Bool-cases (ltb rf.commit_index commit)) [
    | inl up ↦ rw up
    | inr stay ↦ rw stay
  ]

  get_log-accepted :
      (args : AppendEntriesArgs C) (rf : Raft C) (i : ℕ)
      → rf.last_included_index ≤ i
      → get_log (persist (accepted args rf)) i
        ≡ get_elem? (merged args rf) (i - rf.last_included_index)
  unfolding follow
  get_log-accepted args rf i le =
      get_log-persist (accepted args rf) i
      ∙ get_log-advance args.leader_commit _ i
      ∙ get_log-get_elem? (record (follow args rf) { logs = merged args rf }) i le

  pub place-le :
      (args : AppendEntriesArgs C) (rf : Raft C)
      → HasTerm rf args.prev_log_index args.prev_log_term
      → (rf.last_included_index ≤ args.prev_log_index) × (place args rf ≤ length rf.logs)
  place-le args rf (e, q, t) = omega (arith, get_log-range rf args.prev_log_index {e = e} q)

  accepted-HasTerm :
      (args : AppendEntriesArgs C) (rf : Raft C) (k : ℕ) {e : Entry C}
      → HasTerm rf args.prev_log_index args.prev_log_term
      → get_elem? args.entries k ≡ some e
      → HasTerm (persist (accepted args rf)) (suc args.prev_log_index + k) e.term
  accepted-HasTerm args rf k {e} h q =
      let (e', q', t) = get_elem?-merge (drop (place args rf) rf.logs) args.entries k q in
      (e', get_log-accepted args rf _ (omega (arith, place-le args rf h)) ∙ at_place ∙ q', t)
    where
      index_eq :
          suc args.prev_log_index + k - rf.last_included_index
          ≡ length (take (place args rf) rf.logs) + k
      index_eq =
          omega
            (arith, place-le args rf h, length-take (place args rf) rf.logs (place-le args rf h).1)

      at_place :
          get_elem? (merged args rf) (suc args.prev_log_index + k - rf.last_included_index)
          ≡ get_elem? (merge (drop (place args rf) rf.logs) args.entries) k
      at_place =
          ap (get_elem? (merged args rf)) index_eq
          ∙ get_elem?-append_right (take (place args rf) rf.logs)
              (merge (drop (place args rf) rf.logs) args.entries) k

  accepted-get_log :
      (args : AppendEntriesArgs C) (rf : Raft C) (i : ℕ)
      → HasTerm rf args.prev_log_index args.prev_log_term
      → rf.last_included_index ≤ i
      → i ≤ args.prev_log_index
      → get_log (persist (accepted args rf)) i ≡ get_log rf i
  accepted-get_log args rf i h lo hi =
      get_log-accepted args rf i lo
      ∙ get_elem?-take-append (place args rf) rf.logs _ (i - rf.last_included_index) (omega arith)
          (place-le args rf h).1
      ∙ sym (get_log-get_elem? rf i lo)

  -- What a success has done to the log.
  abbrev pub Replicated : AppendEntriesArgs C → Raft C → Raft C → Type 0
  Replicated args rf rf' =
      HasTerm rf args.prev_log_index args.prev_log_term
      × ((k : ℕ) (e : Entry C)
          → get_elem? args.entries k ≡ some e
          → HasTerm rf' (suc args.prev_log_index + k) e.term)
      × ((i : ℕ)
          → rf.last_included_index ≤ i
          → i ≤ args.prev_log_index
          → get_log rf' i ≡ get_log rf i)

  success-Replicated :
      (args : AppendEntriesArgs C) (rf : Raft C) {rf' : Raft C} {reply : AppendEntriesReply}
      → Outcome args rf
      → append_entries args rf ≡ some (rf', reply)
      → reply.success ≡ true
      → Replicated args rf rf'
  success-Replicated args rf (Outcome.stale lt run) q t = cc
  success-Replicated args rf (Outcome.refused le no_entry run f) q t = cc
  success-Replicated args rf {rf'} (Outcome.success le h run) q t =
      subst (Replicated args rf) same (
        h,
        λ k e at. accepted-HasTerm args rf k h at,
        λ i lo hi. accepted-get_log args rf i h lo hi,
      )
    where
      same : persist (accepted args rf) ≡ rf'
      same = cc

  -- If a well-formed node answers success to a request with consecutive entries, then its log had
  -- the request's previous entry, has every entry of the request at its index and with its term
  -- afterwards, and is unchanged up to the previous entry.
  pub append_entries-Replicated :
      (args : AppendEntriesArgs C) (rf : Raft C) {rf' : Raft C} {reply : AppendEntriesReply}
      → IsWellFormed rf
      → IsContiguous (suc args.prev_log_index) args.entries
      → append_entries args rf ≡ some (rf', reply)
      → reply.success ≡ true
      → Replicated args rf rf'
  append_entries-Replicated args rf wf c =
      success-Replicated args rf (append_entries_cases args rf wf c)

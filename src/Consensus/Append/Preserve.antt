-- ===== src/Consensus/Append/Preserve.antt =====
-- log_replication.go: AppendEntries and the invariant of the node.
use raft_algorithm_thesis.Base.{
  ℕ, suc, ◌+◌, ◌-◌, ◌≤◌, ◌<◌, ◌≡◌, subst, some, length, take, drop, arith, ltb, if_cases,
  length-append, length-take, length-drop,
}
use raft_algorithm_thesis.Consensus.Append.Safety.{place-le}
use raft_algorithm_thesis.Consensus.Types.{Raft, AppendEntriesArgs, AppendEntriesReply}
use raft_algorithm_thesis.Consensus.Log.{get_len}
use raft_algorithm_thesis.Consensus.Storage.Frames.{persist-IsWellFormed}
use raft_algorithm_thesis.Consensus.Append.{follow, advance_commit_index, append_entries}
use raft_algorithm_thesis.Consensus.Append.Accept.{
  follow-IsWellFormed, place, merged, accepted, Outcome, append_entries_cases,
}
use raft_algorithm_thesis.Consensus.Invariant.{
  IsContiguous-append, IsContiguous-take, IsContiguous-drop, IsWellFormed, HasTerm,
}
use raft_algorithm_thesis.Consensus.Matching.{IsContiguous, merge}
use raft_algorithm_thesis.Consensus.Matching.Merge.{AgreesTo, merge-IsContiguous, merge-AgreesTo}

module _ {C : Type 0} where
  -- The protocol's promise to the node: on what the node has committed, the request's entries have
  -- the same terms.
  abbrev pub AgreesOnCommitted : AppendEntriesArgs C → Raft C → Type 0
  AgreesOnCommitted args rf =
      AgreesTo (rf.commit_index - args.prev_log_index) (drop (place args rf) rf.logs) args.entries

  merged-IsContiguous :
      (args : AppendEntriesArgs C) (rf : Raft C)
      → IsWellFormed rf
      → IsContiguous (suc args.prev_log_index) args.entries
      → HasTerm rf args.prev_log_index args.prev_log_term
      → IsContiguous rf.last_included_index (merged args rf)
  merged-IsContiguous args rf wf c h =
      IsContiguous-append rf.last_included_index (take p rf.logs)
        (merge (drop p rf.logs) args.entries)
        (IsContiguous-take rf.last_included_index p rf.logs wf.contiguous)
        (merge-IsContiguous _ (drop p rf.logs) args.entries
          (subst (λ i. IsContiguous i (drop p rf.logs)) taken
            (IsContiguous-drop rf.last_included_index p rf.logs wf.contiguous))
          (subst (λ i. IsContiguous i args.entries) from_prev c))
    where
      p : ℕ
      p = place args rf

      taken : rf.last_included_index + p ≡ rf.last_included_index + length (take p rf.logs)
      taken = omega (arith, length-take p rf.logs (place-le args rf h).1)

      from_prev : suc args.prev_log_index ≡ rf.last_included_index + length (take p rf.logs)
      from_prev = omega (arith, place-le args rf h, length-take p rf.logs (place-le args rf h).1)

  merged-length :
      (args : AppendEntriesArgs C) (rf : Raft C)
      → IsWellFormed rf
      → HasTerm rf args.prev_log_index args.prev_log_term
      → AgreesOnCommitted args rf
      → rf.commit_index < rf.last_included_index + length (merged args rf)
  merged-length args rf wf h agrees = omega (
    arith,
    wf.committed,
    wf.anchored,
    place-le args rf h,
    length-append (take p rf.logs) (merge (drop p rf.logs) args.entries),
    length-take p rf.logs (place-le args rf h).1,
    merge-AgreesTo (rf.commit_index - args.prev_log_index) (drop p rf.logs) args.entries agrees
        in_tail,
  )
    where
      p : ℕ
      p = place args rf

      in_tail : rf.commit_index - args.prev_log_index ≤ length (drop p rf.logs)
      in_tail = omega (arith, wf.committed, wf.anchored, place-le args rf h, length-drop p rf.logs)

  advance-IsWellFormed :
      (commit : ℕ) (rf : Raft C) → IsWellFormed rf → IsWellFormed (advance_commit_index commit rf)
  unfolding advance_commit_index get_len
  advance-IsWellFormed commit rf wf =
      if_cases IsWellFormed (ltb rf.commit_index commit)
        (λ up. record {
          contiguous = wf.contiguous;
          nonempty = wf.nonempty;
          anchored = ground (arith, wf.anchored, wf.committed);
          committed = ground (arith, wf.nonempty);
          applied = ground (arith, wf.applied, wf.committed);
          member = wf.member;
          nexts = wf.nexts;
          matches = wf.matches;
        })
        (λ stay. wf)

  accepted-IsWellFormed :
      (args : AppendEntriesArgs C) (rf : Raft C)
      → IsWellFormed rf
      → IsContiguous (suc args.prev_log_index) args.entries
      → HasTerm rf args.prev_log_index args.prev_log_term
      → AgreesOnCommitted args rf
      → IsWellFormed (accepted args rf)
  unfolding follow
  accepted-IsWellFormed args rf wf c h agrees = advance-IsWellFormed args.leader_commit _ (record {
    contiguous = merged-IsContiguous args rf wf c h;
    nonempty = omega (arith, merged-length args rf wf h agrees, wf.anchored);
    anchored = wf.anchored;
    committed = merged-length args rf wf h agrees;
    applied = wf.applied;
    member = wf.member;
    nexts = wf.nexts;
    matches = wf.matches;
  })

  outcome-IsWellFormed :
      (args : AppendEntriesArgs C) (rf : Raft C) {rf' : Raft C} {reply : AppendEntriesReply}
      → IsWellFormed rf
      → IsContiguous (suc args.prev_log_index) args.entries
      → AgreesOnCommitted args rf
      → Outcome args rf
      → append_entries args rf ≡ some (rf', reply)
      → IsWellFormed rf'
  outcome-IsWellFormed args rf wf c agrees (Outcome.stale lt run) q = subst IsWellFormed (cc) wf
  outcome-IsWellFormed args rf wf c agrees (Outcome.refused le no_entry run f) q =
      subst IsWellFormed (cc) (persist-IsWellFormed _ (follow-IsWellFormed args wf))
  outcome-IsWellFormed args rf wf c agrees (Outcome.success le h run) q =
      subst IsWellFormed (cc) (persist-IsWellFormed _ (accepted-IsWellFormed args rf wf c h agrees))

  -- AppendEntries keeps the invariant, on every outcome, for a request with consecutive entries
  -- that agrees with what the node has committed.
  pub append_entries-IsWellFormed :
      (args : AppendEntriesArgs C) (rf : Raft C) {rf' : Raft C} {reply : AppendEntriesReply}
      → IsWellFormed rf
      → IsContiguous (suc args.prev_log_index) args.entries
      → AgreesOnCommitted args rf
      → append_entries args rf ≡ some (rf', reply)
      → IsWellFormed rf'
  append_entries-IsWellFormed args rf wf c agrees =
      outcome-IsWellFormed args rf wf c agrees (append_entries_cases args rf wf c)

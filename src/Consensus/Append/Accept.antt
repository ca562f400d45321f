-- ===== src/Consensus/Append/Accept.antt =====
-- log_replication.go: AppendEntries as a whole, its outcomes, and the node that a success leaves.
use native.Mathlib.Decide.{dec_lt}
use raft_algorithm_thesis.Base.{
  ℕ, suc, ◌+◌, ◌-◌, ◌≤◌, ◌<◌, ◌≡◌, sym, ◌∙◌, subst, some, List, ◌++◌, length, take, drop, arith,
  true, false, le→ltb, lt→ltb, inl, inr, ◌↔◌,
}
use raft_algorithm_thesis.Consensus.Types.{Entry, Raft, AppendEntriesArgs, AppendEntriesReply}
use raft_algorithm_thesis.Consensus.Log.{get_len, get_log}
use raft_algorithm_thesis.Consensus.Storage.{persist}
use raft_algorithm_thesis.Consensus.Append.{
  follow, accept_entries, advance_commit_index, append_entries, finish_append,
}
use raft_algorithm_thesis.Consensus.Append.Conflict.{Hint, handle_consistency_conflict_cases}
use raft_algorithm_thesis.Consensus.Invariant.{IsWellFormed, HasTerm, get_log-range}
use raft_algorithm_thesis.Consensus.Matching.{IsContiguous, merge, append_new_entries-merge}

-- The reply as AppendEntries starts it.
abbrev pub reply_of : ℕ → AppendEntriesReply
reply_of term = record { term = term; success = false; conflict_index = 0; conflict_term = some 0 }

module _ {C : Type 0} where
  -- The place in the log behind the request's previous entry.
  abbrev pub place : AppendEntriesArgs C → Raft C → ℕ
  place args rf = suc args.prev_log_index - rf.last_included_index

  -- The log with the request's entries merged in.
  abbrev pub merged : AppendEntriesArgs C → Raft C → List (Entry C)
  merged args rf = take (place args rf) rf.logs ++ merge (drop (place args rf) rf.logs) args.entries

  -- The node after an accepted request, before it is persisted.
  abbrev pub accepted : AppendEntriesArgs C → Raft C → Raft C
  accepted args rf =
      advance_commit_index args.leader_commit (record (follow args rf) { logs = merged args rf })

  -- The three outcomes of AppendEntries.
  pub data Outcome (args : AppendEntriesArgs C) (rf : Raft C) : Type 0 where
    stale :
        args.term < rf.current_term
        → append_entries args rf ≡ some (rf, reply_of rf.current_term)
        → Outcome args rf
    refused :
        {reply : AppendEntriesReply}
        → rf.current_term ≤ args.term
        → ¬ HasTerm rf args.prev_log_index args.prev_log_term
        → append_entries args rf ≡ some (persist (follow args rf), reply)
        → reply.success ≡ false
        → Outcome args rf
    success :
        rf.current_term ≤ args.term
        → HasTerm rf args.prev_log_index args.prev_log_term
        → append_entries args rf
          ≡ some (persist (accepted args rf), record (reply_of rf.current_term) { success = true })
        → Outcome args rf

  pub follow-IsWellFormed :
      (args : AppendEntriesArgs C) {rf : Raft C} → IsWellFormed rf → IsWellFormed (follow args rf)
  unfolding follow
  follow-IsWellFormed args wf = record {
    contiguous = wf.contiguous;
    nonempty = wf.nonempty;
    anchored = wf.anchored;
    committed = wf.committed;
    applied = wf.applied;
    member = wf.member;
    nexts = wf.nexts;
    matches = wf.matches;
  }

  -- A refusal's hint rules the previous entry out.
  Hint-refuses :
      (args : AppendEntriesArgs C) (rf : Raft C) (wf : IsWellFormed rf)
      (reply hint : AppendEntriesReply)
      → Hint wf args reply hint
      → ¬ HasTerm rf args.prev_log_index args.prev_log_term
  unfolding get_len
  Hint-refuses args rf wf reply hint (Hint.compacted below e) (x, q, t) =
      omega (arith, get_log-range rf args.prev_log_index {e = x} q)
  Hint-refuses args rf wf reply hint (Hint.too_short beyond e) (x, q, t) =
      omega (arith, get_log-range rf args.prev_log_index {e = x} q)
  Hint-refuses args rf wf reply hint (Hint.conflicting term index (y, r, u) ne s e) (x, q, t) =
      ne (sym u ∙ same_term ∙ t)
    where
      same_term : y.term ≡ x.term
      same_term = cc

  Hint-success :
      (args : AppendEntriesArgs C) (rf : Raft C) (wf : IsWellFormed rf)
      (reply hint : AppendEntriesReply)
      → Hint wf args reply hint
      → hint.success ≡ reply.success
  Hint-success args rf wf reply hint (Hint.compacted below e) = rw e
  Hint-success args rf wf reply hint (Hint.too_short beyond e) = rw e
  Hint-success args rf wf reply hint (Hint.conflicting term index h ne s e) = rw e

  accept_entries-merged :
      (args : AppendEntriesArgs C) (rf : Raft C)
      → IsContiguous (suc args.prev_log_index) args.entries
      → HasTerm rf args.prev_log_index args.prev_log_term
      → accept_entries args rf
        ≡ some (advance_commit_index args.leader_commit (record rf { logs = merged args rf }))
  unfolding accept_entries
  accept_entries-merged args rf c (e, q, t) =
      rw (append_new_entries-merge args.entries rf (place args rf) from_place in_log)
    where
      in_log : place args rf ≤ length rf.logs
      in_log = omega (arith, get_log-range rf args.prev_log_index {e = e} q)

      from_place : IsContiguous (rf.last_included_index + place args rf) args.entries
      from_place =
          subst (λ i. IsContiguous i args.entries)
            (omega (arith, get_log-range rf args.prev_log_index {e = e} q)) c

  -- `follow` leaves the log alone.
  HasTerm-follow :
      (args : AppendEntriesArgs C) (rf : Raft C) (i t : ℕ)
      → HasTerm (follow args rf) i t ↔ HasTerm rf i t
  unfolding follow get_log
  HasTerm-follow args rf i t = (λ h. h, λ h. h)

  accept_entries-follow :
      (args : AppendEntriesArgs C) (rf : Raft C)
      → IsContiguous (suc args.prev_log_index) args.entries
      → HasTerm rf args.prev_log_index args.prev_log_term
      → accept_entries args (follow args rf) ≡ some (accepted args rf)
  unfolding follow
  accept_entries-follow args rf c h =
      accept_entries-merged args (follow args rf) c ((HasTerm-follow args rf _ _).1 h)

  -- On a well-formed node, for consecutive entries, AppendEntries returns, in one of three ways: a
  -- stale term is answered with the node's term, and nothing changes; a request whose previous entry
  -- the log does not have is refused, and the node follows the sender with the same log; and any
  -- other is accepted, with its entries merged into the log behind the previous entry.
  pub append_entries_cases :
      (args : AppendEntriesArgs C) (rf : Raft C)
      → IsWellFormed rf
      → IsContiguous (suc args.prev_log_index) args.entries
      → Outcome args rf
  unfolding append_entries finish_append
  append_entries_cases args rf wf c = elim (dec_lt args.term rf.current_term) [
    | yes old ↦ stale old (rw (lt→ltb args.term rf.current_term old))
    | no current ↦ at_current (omega arith)
  ]
    where
      reply : AppendEntriesReply
      reply = reply_of rf.current_term

      kept : IsWellFormed (follow args rf)
      kept = follow-IsWellFormed args wf

      at_current : rf.current_term ≤ args.term → Outcome args rf
      at_current le = elim (handle_consistency_conflict_cases kept args reply) [
        | inl (h, run) ↦
            (let h' = (HasTerm-follow args rf _ _).0 h in
              success le h'
                (rw (le→ltb args.term rf.current_term le, run, accept_entries-follow args rf c h')))
        | inr (hint, h, run) ↦
            refused {reply = hint} le
              (λ m.
                Hint-refuses args (follow args rf) kept reply hint h
                  ((HasTerm-follow args rf _ _).1 m))
              (rw (le→ltb args.term rf.current_term le, run))
              (Hint-success args (follow args rf) kept reply hint h)
      ]

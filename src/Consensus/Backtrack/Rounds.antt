-- ===== src/Consensus/Backtrack/Rounds.antt =====
-- log_replication.go: what a hint does to the leader's place in the follower's log.
use native.Mathlib.Decide.{dec_lt}
use raft_algorithm_thesis.Base.{
  ℕ, ◌+◌, ◌≤◌, ◌<◌, ◌≡◌, ◌≢◌, refl, sym, Ensures->>=, ◌∙◌, ap, subst, none, some, false, arith,
  get_elem?, Ensures, Ensures-some, inl, inr, ◌⊎◌,
}
use raft_algorithm_thesis.Consensus.Types.{Raft, Entry, AppendEntriesArgs, AppendEntriesReply}
use raft_algorithm_thesis.Consensus.Log.{is_leader, get_log, get_len, get_physical_index}
use raft_algorithm_thesis.Consensus.Append.{follow}
use raft_algorithm_thesis.Consensus.Append.Conflict.{Hint}
use raft_algorithm_thesis.Consensus.Append.Accept.{reply_of, follow-IsWellFormed}
use raft_algorithm_thesis.Consensus.Leader.{conflict_next, find_last_index_of_term}
use raft_algorithm_thesis.Consensus.Leader.Replicate.{IsFromLog}
use raft_algorithm_thesis.Consensus.Invariant.{IsWellFormed, HasTerm, get_log-range}
use raft_algorithm_thesis.Consensus.Backtrack.Resolving.{
  HasTerm-unique, Found, find_last-Found, next_after-le, Resolved,
}
use raft_algorithm_thesis.Consensus.Backtrack.Refusing.{SameLog}

module _ {C : Type 0} where
  -- The logs have the same term at the end of the follower's snapshot, where both have an entry.
  abbrev pub Agrees : Raft C → Raft C → Type 0
  Agrees lf rf =
      (t u : ℕ) → HasTerm lf rf.last_included_index t → HasTerm rf rf.last_included_index u → t ≡ u

  get_log-SameLog : (rf rf' : Raft C) (i : ℕ) → SameLog rf rf' → get_log rf' i ≡ get_log rf i
  unfolding get_log get_physical_index
  get_log-SameLog rf rf' i (l, s) = rw (l, s) refl

  pub HasTerm-SameLog :
      (rf rf' : Raft C) (i t : ℕ) → SameLog rf rf' → HasTerm rf' i t → HasTerm rf i t
  HasTerm-SameLog rf rf' i t (l, s) (e, q, h) = (e, sym (get_log-SameLog rf rf' i (l, s)) ∙ q, h)

  conflicting_next :
      (args : AppendEntriesArgs C) (reply : AppendEntriesReply) (lf : Raft C) (term : ℕ)
      → HasTerm lf args.prev_log_index args.prev_log_term
      → term ≢ args.prev_log_term
      → reply.conflict_index ≤ args.prev_log_index
      → Ensures (λ next. next ≤ args.prev_log_index) (conflict_next (some term) args reply lf)
  unfolding conflict_next
  conflicting_next args reply lf term h ne le =
      Ensures->>= (λ next. next ≤ args.prev_log_index)
        (find_last_index_of_term lf term args.prev_log_index) _
        (λ found run.
          next_after-le lf term args.prev_log_index reply.conflict_index args.prev_log_term found h
            ne le
            (Ensures-some (Found lf term args.prev_log_index) _
              (find_last-Found lf term args.prev_log_index) run))

  -- The next index that a hint without a term gives.
  plain_next :
      (args : AppendEntriesArgs C) (reply : AppendEntriesReply) (lf : Raft C) {next : ℕ}
      → reply.conflict_term ≡ none
      → conflict_next reply.conflict_term args reply lf ≡ some next
      → reply.conflict_index ≡ next
  unfolding conflict_next
  plain_next args reply lf {next} e run =
      let q : some reply.conflict_index ≡ some next =
        subst (λ c. conflict_next c args reply lf ≡ some next) e run in
      cc

  term_next :
      (args : AppendEntriesArgs C) (reply : AppendEntriesReply) (lf : Raft C) (term : ℕ) {next : ℕ}
      → HasTerm lf args.prev_log_index args.prev_log_term
      → term ≢ args.prev_log_term
      → reply.conflict_index ≤ args.prev_log_index
      → reply.conflict_term ≡ some term
      → conflict_next reply.conflict_term args reply lf ≡ some next
      → next ≤ args.prev_log_index
  term_next args reply lf term {next} h ne le e run =
      Ensures-some (λ next. next ≤ args.prev_log_index) (conflict_next (some term) args reply lf)
        (conflicting_next args reply lf term h ne le)
        (subst (λ c. conflict_next c args reply lf ≡ some next) e run)

  -- The scan of a conflicting term ends below the previous index.
  scan_below :
      (lf rf : Raft C) (prev prev_term term index : ℕ)
      → Agrees lf rf
      → HasTerm lf prev prev_term
      → HasTerm rf prev term
      → term ≢ prev_term
      → index ≤ prev
      → (index ≤ rf.last_included_index)
        ⊎ ((e : Entry C) × (get_log rf index ≡ some e) × (e.term ≢ term))
      → index < prev
  scan_below lf rf prev prev_term term index agrees at_lf at_rf ne le stop =
      elim (dec_lt index prev) [ yes lt ↦ lt | no ge ↦ absurd (stopped (omega arith) stop) ]
    where
      stopped :
          index ≡ prev
          → (index ≤ rf.last_included_index)
            ⊎ ((e : Entry C) × (get_log rf index ≡ some e) × (e.term ≢ term))
          → ⊥
      stopped at (inl low) =
          let first : prev ≡ rf.last_included_index =
            omega (arith, (get_log-range rf prev {e = at_rf.0} at_rf.1).0) in
          ne (
            sym (
              agrees prev_term term (subst (λ i. HasTerm lf i prev_term) first at_lf)
                (subst (λ i. HasTerm rf i term) first at_rf)))
      stopped at (inr (e, q, differs)) = differs (
          HasTerm-unique rf prev e.term term (e, subst (λ i. get_log rf i ≡ some e) at q, refl)
            at_rf)

  -- What a refused round leaves: no leader; or the next request at the end of the follower's
  -- snapshot; or one further down.
  pub data After (peer n : ℕ) (lf rf lf' rf' : Raft C) : Type 0 where
    deposed : is_leader lf'.state ≡ false → After peer n lf rf lf' rf'
    jumps :
        IsWellFormed rf'
        → SameLog lf lf'
        → SameLog rf rf'
        → get_elem? lf'.next_index peer ≡ some (rf.last_included_index + 1)
        → After peer n lf rf lf' rf'
    lowers :
        (next : ℕ)
        → IsWellFormed rf'
        → SameLog lf lf'
        → SameLog rf rf'
        → get_elem? lf'.next_index peer ≡ some next
        → next < n
        → After peer n lf rf lf' rf'

  -- A hint and what the leader makes of it.
  pub hinted-After :
      (peer n : ℕ) (args : AppendEntriesArgs C) (reply : AppendEntriesReply)
      (lf rf lf' rf' : Raft C) (wf : IsWellFormed rf)
      → Agrees lf rf
      → IsFromLog lf args
      → args.prev_log_index < n
      → IsWellFormed rf'
      → SameLog rf rf'
      → Resolved peer args reply lf lf'
      → Hint (follow-IsWellFormed args wf) args (reply_of rf.current_term) reply
      → After peer n lf rf lf' rf'
  unfolding follow get_len get_log
  hinted-After peer n args reply lf rf lf' rf' wf agrees sent lt wf' same r
        (Hint.compacted below e) =
      jumps wf' (r.logs, r.last) same (r.at ∙ sym chosen)
    where
      chosen : some (rf.last_included_index + 1) ≡ some r.next
      chosen = ap some (
          sym (ap (λ (x : AppendEntriesReply). x.conflict_index) e)
          ∙ plain_next args reply lf (ap (λ (x : AppendEntriesReply). x.conflict_term) e) r.chosen)
  hinted-After peer n args reply lf rf lf' rf' wf agrees sent lt wf' same r
        (Hint.too_short beyond e) =
      lowers r.next wf' (r.logs, r.last) same r.at
        (omega (
          arith,
          lt,
          ap (λ (x : AppendEntriesReply). x.conflict_index) e,
          plain_next args reply lf (ap (λ (x : AppendEntriesReply). x.conflict_term) e) r.chosen,
          beyond,
        ))
  hinted-After peer n args reply lf rf lf' rf' wf agrees sent lt wf' same r
        (Hint.conflicting term index h ne scan e) =
      lowers r.next wf' (r.logs, r.last) same r.at
        (omega (
          arith,
          lt,
          term_next args reply lf term sent.prev ne
              (omega (
                arith,
                ap (λ (x : AppendEntriesReply). x.conflict_index) e,
                scan_below lf rf args.prev_log_index args.prev_log_term term index agrees sent.prev
                    h ne scan.0 scan.2,
              ))
              (ap (λ (x : AppendEntriesReply). x.conflict_term) e) r.chosen,
        ))

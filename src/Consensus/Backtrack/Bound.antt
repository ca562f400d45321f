-- ===== src/Consensus/Backtrack/Bound.antt =====
-- log_replication.go: how many rounds a leader needs to find its place in a follower's log.
use mathlib.Core.Bool.{false≢true}
use raft_algorithm_thesis.Base.{
  ℕ, ◌+◌, ◌≤◌, ◌<◌, ◌≡◌, refl, sym, ◌∙◌, ap, subst, some, false, arith, get_elem?,
}
use raft_algorithm_thesis.Consensus.Types.{Raft, AppendEntriesArgs, AppendEntriesReply}
use raft_algorithm_thesis.Consensus.Log.{is_leader, get_log, get_len}
use raft_algorithm_thesis.Consensus.Append.{follow}
use raft_algorithm_thesis.Consensus.Append.Conflict.{Hint}
use raft_algorithm_thesis.Consensus.Append.Accept.{reply_of, follow-IsWellFormed}
use raft_algorithm_thesis.Consensus.Leader.Replicate.{IsFromLog, sent_append}
use raft_algorithm_thesis.Consensus.Invariant.{IsWellFormed, HasTerm}
use raft_algorithm_thesis.Consensus.Backtrack.{Refused, Refusals, no_more, again}
use raft_algorithm_thesis.Consensus.Backtrack.Sending.{Sends, replicate-Sends}
use raft_algorithm_thesis.Consensus.Backtrack.Resolving.{Resolved, refusal-Resolved, later_follows}
use raft_algorithm_thesis.Consensus.Backtrack.Rounds.{
  Agrees, After, deposed, jumps, lowers, hinted-After, HasTerm-SameLog,
}
use raft_algorithm_thesis.Consensus.Backtrack.Refusing.{
  SameLog, Reason, old_term, hinted, refusal-Reason,
}

module _ {C : Type 0} where
  Agrees-SameLog :
      (lf rf lf' rf' : Raft C) → SameLog lf lf' → SameLog rf rf' → Agrees lf rf → Agrees lf' rf'
  Agrees-SameLog lf rf lf' rf' l r agrees t u at_lf at_rf =
      agrees t u
        (HasTerm-SameLog lf lf' rf.last_included_index t l (subst (λ i. HasTerm lf' i t) r.1 at_lf))
        (HasTerm-SameLog rf rf' rf.last_included_index u r (subst (λ i. HasTerm rf' i u) r.1 at_rf))

  Hint-term :
      (args : AppendEntriesArgs C) (rf : Raft C) (wf : IsWellFormed rf)
      (reply hint : AppendEntriesReply)
      → Hint wf args reply hint
      → hint.term ≡ reply.term
  Hint-term args rf wf reply hint (Hint.compacted below e) = rw e
  Hint-term args rf wf reply hint (Hint.too_short beyond e) = rw e
  Hint-term args rf wf reply hint (Hint.conflicting term index h ne s e) = rw e

  module _ {peer n : ℕ} {lf rf lf' rf' : Raft C} (wf : IsWellFormed rf) (agrees : Agrees lf rf)
      (at : get_elem? lf.next_index peer ≡ some n) (r : Refused peer lf rf lf' rf') where
    sends : Sends peer lf r.args
    sends = replicate-Sends peer lf r.sent

    from_log : IsFromLog lf r.args
    from_log = sent_append lf peer r.sent

    same_next : sends.next ≡ n
    same_next = let q : some sends.next ≡ some n = sym sends.at ∙ at in cc

    reason : Reason r.args rf rf' wf r.reply
    reason = refusal-Reason r.args rf wf r.answered r.denied

    old-Follows :
        r.args.term < rf.current_term → r.reply.term ≡ rf.current_term → is_leader lf'.state ≡ false
    old-Follows lt t =
        later_follows peer r.args r.reply lf (omega (arith, from_log.term, t, lt)) r.handled

    resolved :
        rf.current_term ≤ r.args.term
        → Hint (follow-IsWellFormed r.args wf) r.args (reply_of rf.current_term) r.reply
        → Resolved peer r.args r.reply lf lf'
    resolved le hint =
        refusal-Resolved peer r.args r.reply lf sends.leads from_log.term
          (omega (
            arith,
            from_log.term,
            le,
            Hint-term r.args (follow r.args rf) (follow-IsWellFormed r.args wf) _ r.reply hint,
          ))
          r.denied from_log.start r.handled

    -- A refused round on a well-formed follower.
    pub refused-After : After peer n lf rf lf' rf'
    refused-After = elim reason [
      | old_term lt same t ↦ deposed (old-Follows lt t)
      | hinted le wf' same hint ↦
          hinted-After peer n r.args r.reply lf rf lf' rf' wf agrees from_log
            (omega (arith, sends.prev, sends.above, same_next)) wf' same (resolved le hint) hint
    ]

    -- At the end of the follower's snapshot only a later term refuses.
    pub jumped-Follows : n ≡ rf.last_included_index + 1 → is_leader lf'.state ≡ false
    unfolding follow get_len get_log
    jumped-Follows first = elim reason [
      | old_term lt same t ↦ old-Follows lt t
      | hinted le wf' same hint ↦ absurd (impossible hint)
    ]
      where
        prev_eq : r.args.prev_log_index ≡ rf.last_included_index
        prev_eq = omega (arith, sends.prev, same_next, first)

        impossible :
            Hint (follow-IsWellFormed r.args wf) r.args (reply_of rf.current_term) r.reply → ⊥
        impossible (Hint.compacted below e) = absurd (omega (arith, prev_eq, below))
        impossible (Hint.too_short beyond e) = absurd (omega (arith, prev_eq, beyond, wf.nonempty))
        impossible (Hint.conflicting term index h ne s e) = ne (
            sym (
              agrees r.args.prev_log_term term
                (subst (λ i. HasTerm lf i r.args.prev_log_term) prev_eq from_log.prev)
                (subst (λ i. HasTerm rf i term) prev_eq h)))

  deposed_rounds :
      (peer k : ℕ) (lf rf : Raft C) → is_leader lf.state ≡ false → Refusals peer k lf rf → k ≡ 0
  deposed_rounds peer k lf rf f no_more = refl
  deposed_rounds peer k lf rf f (again r rest) =
      let s = replicate-Sends peer lf r.sent in absurd (false≢true (sym f ∙ s.leads))

  jumped_rounds :
      (peer k : ℕ) (lf rf : Raft C)
      → IsWellFormed rf
      → Agrees lf rf
      → get_elem? lf.next_index peer ≡ some (rf.last_included_index + 1)
      → Refusals peer k lf rf
      → k ≤ 1
  jumped_rounds peer k lf rf wf agrees at no_more = omega arith
  jumped_rounds peer k lf rf wf agrees at (again {k = j} {lf' = lf'} {rf' = rf'} r rest) =
      omega (arith, deposed_rounds peer j lf' rf' (jumped-Follows wf agrees at r refl) rest)

  -- A leader that goes back in the log of a well-formed follower, whose log agrees with its own at
  -- the end of the follower's snapshot, is refused at most two times more than its nextIndex says,
  -- however the two logs differ.
  pub Refusals-le :
      (peer k n : ℕ) (lf rf : Raft C)
      → IsWellFormed rf
      → Agrees lf rf
      → get_elem? lf.next_index peer ≡ some n
      → Refusals peer k lf rf
      → k ≤ n + 2
  Refusals-le peer k n lf rf wf agrees at no_more = omega arith
  Refusals-le peer k n lf rf wf agrees at (again {k = j} {lf' = lf'} {rf' = rf'} r rest) =
      elim (refused-After wf agrees at r) [
        | deposed f ↦ omega (arith, deposed_rounds peer j lf' rf' f rest)
        | jumps wf' l s at' ↦ omega (
          arith,
          jumped_rounds peer j lf' rf' wf' (Agrees-SameLog lf rf lf' rf' l s agrees)
              (at' ∙ ap (λ i. some (i + 1)) (sym s.1)) rest,
        )
        | lowers next wf' l s at' lt ↦ omega (
          arith,
          Refusals-le peer j next lf' rf' wf' (Agrees-SameLog lf rf lf' rf' l s agrees) at' rest,
          lt,
        )
      ]

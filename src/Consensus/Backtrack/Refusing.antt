-- ===== src/Consensus/Backtrack/Refusing.antt =====
-- log_replication.go: the follower that refuses a request.
use mathlib.Core.Bool.{false≢true}
use native.Mathlib.Decide.{dec_lt}
use raft_algorithm_thesis.Base.{
  ◌≤◌, ◌<◌, ◌≡◌, refl, sym, ◌∙◌, ap, Option, none, some, true, false, arith, inl, inr, le→ltb,
  lt→ltb, if_cases, subst, Ensures-some, Ensures->>=,
}
use raft_algorithm_thesis.Consensus.Types.{Raft, AppendEntriesArgs, AppendEntriesReply}
use raft_algorithm_thesis.Consensus.Storage.{persist, save}
use raft_algorithm_thesis.Consensus.Storage.Frames.{persist-IsWellFormed}
use raft_algorithm_thesis.Consensus.Append.{
  append_entries, handle_consistency_conflict, follow, finish_append, accept_entries,
}
use raft_algorithm_thesis.Consensus.Append.Conflict.{Hint, handle_consistency_conflict_cases}
use raft_algorithm_thesis.Consensus.Append.Accept.{follow-IsWellFormed, reply_of}
use raft_algorithm_thesis.Consensus.Invariant.{IsWellFormed}

same_pair :
    {A B : Type 0} {a c : A} {b d : B}
    → ◌≡◌ {A = Option (A × B)} (some (a, b)) (some (c, d))
    → (a ≡ c) × (b ≡ d)
same_pair e = (cc, cc)

module _ {C : Type 0} where
  -- The follower's log is where it was.
  abbrev pub SameLog : Raft C → Raft C → Type 0
  SameLog rf rf' = (rf'.logs ≡ rf.logs) × (rf'.last_included_index ≡ rf.last_included_index)

  -- Why a well-formed node refuses: the request is of an old term, or a hint says where to go on.
  pub data Reason (args : AppendEntriesArgs C) (rf rf' : Raft C) (wf : IsWellFormed rf)
      (reply : AppendEntriesReply) : Type 0 where
    old_term :
        args.term < rf.current_term
        → rf' ≡ rf
        → reply.term ≡ rf.current_term
        → Reason args rf rf' wf reply
    hinted :
        rf.current_term ≤ args.term
        → IsWellFormed rf'
        → SameLog rf rf'
        → Hint (follow-IsWellFormed args wf) args (reply_of rf.current_term) reply
        → Reason args rf rf' wf reply

  pub persist-SameLog : (rf : Raft C) → SameLog rf (persist rf)
  unfolding persist save
  persist-SameLog rf = if_cases (SameLog rf) rf.dead (λ _. (refl, refl)) (λ _. (refl, refl))

  followed-SameLog :
      (args : AppendEntriesArgs C) (rf : Raft C) → SameLog rf (persist (follow args rf))
  followed-SameLog args rf =
      let (l, i) = persist-SameLog (follow args rf) in
      (l ∙ (unfold follow in refl), i ∙ (unfold follow in refl))

  finish-success :
      (args : AppendEntriesArgs C) (reply : AppendEntriesReply) (rf : Raft C) {rf' : Raft C}
      {reply' : AppendEntriesReply}
      → finish_append args reply rf none ≡ some (rf', reply')
      → reply'.success ≡ true
  unfolding finish_append
  finish-success args reply rf {rf'} {reply'} run =
      Ensures-some P (finish_append args reply rf none)
        (Ensures->>= P (accept_entries args rf) _ (λ _ _. refl)) run
    where
      P : Raft C × AppendEntriesReply → Type 0
      P r = r.1.success ≡ true

  pub refusal-Reason :
      (args : AppendEntriesArgs C) (rf : Raft C) (wf : IsWellFormed rf) {rf' : Raft C}
      {reply : AppendEntriesReply}
      → append_entries args rf ≡ some (rf', reply)
      → reply.success ≡ false
      → Reason args rf rf' wf reply
  refusal-Reason args rf wf {rf'} {reply} run denied = elim (dec_lt args.term rf.current_term) [
    | yes old ↦
        (let (same, told) = same_pair (sym (at_old old) ∙ run) in
          old_term old (sym same) (sym (ap (λ (r : AppendEntriesReply). r.term) told)))
    | no current ↦ at_current (omega arith)
  ]
    where
      start : AppendEntriesReply
      start = reply_of rf.current_term

      at_old : args.term < rf.current_term → append_entries args rf ≡ some (rf, start)
      at_old old = unfold append_entries in rw (lt→ltb args.term rf.current_term old) refl

      checked :
          (conflict : Option AppendEntriesReply)
          → rf.current_term ≤ args.term
          → handle_consistency_conflict args start (follow args rf) ≡ some conflict
          → append_entries args rf ≡ finish_append args start (follow args rf) conflict
      checked conflict le check =
          unfold append_entries in rw (le→ltb args.term rf.current_term le, check) refl

      refused_state :
          (hint : AppendEntriesReply)
          → finish_append args start (follow args rf) (some hint)
            ≡ some (persist (follow args rf), hint)
      refused_state hint = unfold finish_append in refl

      kept : IsWellFormed (persist (follow args rf))
      kept = persist-IsWellFormed (follow args rf) (follow-IsWellFormed args wf)

      at_current : rf.current_term ≤ args.term → Reason args rf rf' wf reply
      at_current le =
          elim (handle_consistency_conflict_cases (follow-IsWellFormed args wf) args start) [
            | inl (h, check) ↦ absurd (
                false≢true (
                  sym denied
                  ∙ finish-success args start (follow args rf) (sym (checked none le check) ∙ run)))
            | inr (hint, h, check) ↦
                (let (same, told) =
                    same_pair
                      (sym (refused_state hint) ∙ sym (checked (some hint) le check) ∙ run) in
                  hinted le (subst IsWellFormed same kept)
                    (subst (SameLog rf) same (followed-SameLog args rf))
                    (subst (Hint (follow-IsWellFormed args wf) args start) told h))
          ]

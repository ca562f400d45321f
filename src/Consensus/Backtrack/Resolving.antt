-- ===== src/Consensus/Backtrack/Resolving.antt =====
-- log_replication.go: the leader that handles a refusal.
use native.Mathlib.Decide.{dec_lt}
use raft_algorithm_thesis.Base.{
  ℕ, zero, suc, ◌+◌, ◌≤◌, ◌<◌, ◌≡◌, ◌≢◌, refl, sym, ◌∙◌, subst, true, false, Option, none, some,
  arith, ltb, ◌==◌, if_cases, Ensures, Ensures->>=, Ensures-some, get_elem?, get_elem?-set_self,
  List, Ensures-mono, length, le→ltb, lt→ltb, ==_iff,
}
use raft_algorithm_thesis.Consensus.Types.{Raft, AppendEntriesArgs, AppendEntriesReply}
use raft_algorithm_thesis.Consensus.Log.{is_leader, get_log}
use raft_algorithm_thesis.Consensus.Storage.{persist, save}
use raft_algorithm_thesis.Consensus.Vote.{handle_higher_term}
use raft_algorithm_thesis.Consensus.Leader.{
  write, next_after, find_last_index_of_term, conflict_next, resolve_conflict, should_ignore_reply,
  handle_append_entries_reply,
}
use raft_algorithm_thesis.Consensus.Invariant.{HasTerm}

-- A place of nextIndex that is written.
abbrev IsWritten : List ℕ → ℕ → ℕ → List ℕ → Type 0
IsWritten xs i v ys = get_elem? ys i ≡ some v

write-IsWritten : (xs : List ℕ) (i v : ℕ) → Ensures (IsWritten xs i v) (write xs i v)
unfolding write
write-IsWritten xs i v =
    if_cases (Ensures (IsWritten xs i v)) (ltb i (length xs))
      (λ lt. get_elem?-set_self xs i v (ground arith)) (λ _. tt)

module _ {C : Type 0} where
  pub HasTerm-unique : (rf : Raft C) (i t u : ℕ) → HasTerm rf i t → HasTerm rf i u → t ≡ u
  HasTerm-unique rf i t u (e, q, p) (d, r, p') =
      let same : some e ≡ some d = sym q ∙ r in
      let terms : e.term ≡ d.term = cc in sym p ∙ terms ∙ p'

  -- Where findLastIndexOfTerm stops.
  abbrev pub Found : Raft C → ℕ → ℕ → Option ℕ → Type 0
  Found rf term from none = Unit
  Found rf term from (some m) = (m ≤ from) × HasTerm rf m term

  pub find_last-Found :
      (rf : Raft C) (term from : ℕ)
      → Ensures (Found rf term from) (find_last_index_of_term rf term from)
  unfolding find_last_index_of_term
  find_last-Found rf term zero = tt
  find_last-Found rf term (suc from) =
      if_cases (Ensures (Found rf term (suc from))) (ltb rf.last_included_index (suc from))
        (λ _. Ensures->>= (Found rf term (suc from)) (get_log rf (suc from)) _ (λ e q.
          if_cases (Ensures (Found rf term (suc from))) (e.term == term)
            (λ same. (omega arith, (e, q, (==_iff e.term term).0 same)))
            (λ _.
              Ensures-mono (Found rf term from) (Found rf term (suc from)) lower _
                (find_last-Found rf term from))))
        (λ _. tt)
    where
      lower : (o : Option ℕ) → Found rf term from o → Found rf term (suc from) o
      lower none h = tt
      lower (some m) (le, h) = (omega arith, h)

  -- The leader has no entry of the conflicting term at the previous index, so it goes on below it.
  pub next_after-le :
      (lf : Raft C) (term prev conflict prev_term : ℕ) (found : Option ℕ)
      → HasTerm lf prev prev_term
      → term ≢ prev_term
      → conflict ≤ prev
      → Found lf term prev found
      → next_after found conflict ≤ prev
  next_after-le lf term prev conflict prev_term none h ne le f = le
  next_after-le lf term prev conflict prev_term (some m) (e, q, t) ne le (m_le, (d, r, u)) =
      if_cases (λ n. n ≤ prev) (ltb 0 m) (λ _. lower) (λ _. le)
    where
      lower : m + 1 ≤ prev
      lower = elim (dec_lt m prev) [
        | yes lt ↦ omega arith
        | no ge ↦
            (let at : m ≡ prev = omega arith in
              let h : HasTerm lf prev term = subst (λ i. HasTerm lf i term) at (d, r, u) in
              absurd (ne (HasTerm-unique lf prev term prev_term h (e, q, t))))
      ]

  -- What handling a refusal does to the leader.
  pub record Resolved (peer : ℕ) (args : AppendEntriesArgs C) (reply : AppendEntriesReply)
      (lf lf' : Raft C) : Type 0 where
    pub next : ℕ
    pub chosen : conflict_next reply.conflict_term args reply lf ≡ some next
    pub at : get_elem? lf'.next_index peer ≡ some next
    pub logs : lf'.logs ≡ lf.logs
    pub last : lf'.last_included_index ≡ lf.last_included_index

  resolve-Resolved :
      (peer : ℕ) (args : AppendEntriesArgs C) (reply : AppendEntriesReply) (lf : Raft C)
      → lf.last_included_index ≤ args.prev_log_index
      → Ensures (Resolved peer args reply lf) (resolve_conflict peer args reply lf)
  unfolding resolve_conflict
  resolve-Resolved peer args reply lf le =
      if_cases (Ensures (Resolved peer args reply lf))
        (ltb args.prev_log_index lf.last_included_index) (λ below. absurd (ground arith))
        (λ _.
          Ensures->>= (Resolved peer args reply lf)
            (conflict_next reply.conflict_term args reply lf) _
            (λ next run.
              Ensures->>= (Resolved peer args reply lf) (write lf.next_index peer next) _
                (λ nexts written. record {
                  next = next;
                  chosen = run;
                  at =
                      Ensures-some (IsWritten lf.next_index peer next) _
                        (write-IsWritten lf.next_index peer next) written;
                  logs = refl;
                  last = refl;
                })))

  heard :
      (term : ℕ) (lf : Raft C) → term ≤ lf.current_term → handle_higher_term term lf ≡ (lf, false)
  unfolding handle_higher_term
  heard term lf le = rw (le→ltb lf.current_term term le) refl

  -- A refusal of the leader's own term is resolved.
  pub refusal-Resolved :
      (peer : ℕ) (args : AppendEntriesArgs C) (reply : AppendEntriesReply) (lf : Raft C)
      {lf' : Raft C}
      → is_leader lf.state ≡ true
      → args.term ≡ lf.current_term
      → reply.term ≤ lf.current_term
      → reply.success ≡ false
      → lf.last_included_index ≤ args.prev_log_index
      → handle_append_entries_reply peer args reply lf ≡ some lf'
      → Resolved peer args reply lf lf'
  refusal-Resolved peer args reply lf {lf'} leads t le denied above run =
      Ensures-some (Resolved peer args reply lf) _ (resolve-Resolved peer args reply lf above)
        (sym resolves ∙ run)
    where
      same : (lf.current_term == args.term) ≡ true
      same = ground arith

      resolves :
          handle_append_entries_reply peer args reply lf ≡ resolve_conflict peer args reply lf
      resolves =
          unfold handle_append_entries_reply should_ignore_reply in
          rw (heard reply.term lf le, leads, same, denied) refl

  -- A later term ends the leadership.
  higher_follows :
      (term : ℕ) (lf : Raft C)
      → lf.current_term < term
      → (is_leader (handle_higher_term term lf).0.state ≡ false)
        × ((handle_higher_term term lf).1 ≡ true)
  unfolding handle_higher_term persist save
  higher_follows term lf lt =
      rw (lt→ltb lf.current_term term lt)
        (if_cases (λ (r : Raft C). is_leader r.state ≡ false) lf.dead (λ _. refl) (λ _. refl), refl)

  pub later_follows :
      (peer : ℕ) (args : AppendEntriesArgs C) (reply : AppendEntriesReply) (lf : Raft C)
      {lf' : Raft C}
      → lf.current_term < reply.term
      → handle_append_entries_reply peer args reply lf ≡ some lf'
      → is_leader lf'.state ≡ false
  later_follows peer args reply lf {lf'} lt run =
      let (follows, higher) = higher_follows reply.term lf lt in
      Ensures-some (λ (r : Raft C). is_leader r.state ≡ false)
        (handle_append_entries_reply peer args reply lf)
        (unfold handle_append_entries_reply should_ignore_reply in rw (higher, Ensures) follows) run

-- ===== src/Kv/Rsm/Applied/Executing.antt =====
-- The state machine on stretches of a log.
use mathlib.Core.Path.{ap₂ as ap2}
use raft_algorithm_thesis.Base.{ℕ, zero, suc, ◌+◌, ◌<◌, ◌≡◌, refl, ◌∙◌, ap, subst, Option, arith}
use raft_algorithm_thesis.Consensus.Types.{Raft}
use raft_algorithm_thesis.Consensus.Log.{get_log}
use raft_algorithm_thesis.Kv.Rsm.{Op, StateMachine}
use raft_algorithm_thesis.Kv.Rsm.Applied.{execute_entry, execute_log}

module _ {Req Val S : Type 0} (machine : StateMachine Req Val S) (max_raft_state : Option ℕ) where
  -- The state machine on two logs that have the same commands.
  pub execute_log-agree :
      (rf rg : Raft (Op Req)) (n lo : ℕ) (s : S)
      → ((k : ℕ) → k < n → get_log rf (lo + k) ≡ get_log rg (lo + k))
      → execute_log machine max_raft_state rf n lo s ≡ execute_log machine max_raft_state rg n lo s
  unfolding execute_log
  execute_log-agree rf rg zero lo s h = refl
  execute_log-agree rf rg (suc n) lo s h =
      execute_log-agree rf rg n (suc lo) (execute_entry machine max_raft_state (get_log rf lo) s)
        later
      ∙ ap
          (λ o.
            execute_log machine max_raft_state rg n (suc lo)
              (execute_entry machine max_raft_state o s))
          first
    where
      first : get_log rf lo ≡ get_log rg lo
      first = subst (λ i. get_log rf i ≡ get_log rg i) (omega arith) (h 0 (omega arith))

      later : (k : ℕ) → k < n → get_log rf (suc lo + k) ≡ get_log rg (suc lo + k)
      later k lt = subst (λ i. get_log rf i ≡ get_log rg i) (omega arith) (h (suc k) (omega arith))

  pub execute_log-add :
      (rf : Raft (Op Req)) (m n lo : ℕ) (s : S)
      → execute_log machine max_raft_state rf (m + n) lo s
        ≡ execute_log machine max_raft_state rf n
            (lo + m)
            (execute_log machine max_raft_state rf m lo s)
  unfolding execute_log
  execute_log-add rf zero n lo s =
      let same : zero + n ≡ n = omega arith in
      let start : lo ≡ lo + zero = omega arith in
      ap2 (λ k i. execute_log machine max_raft_state rf k i s) same start
  execute_log-add rf (suc m) n lo s =
      let count : suc m + n ≡ suc (m + n) = omega arith in
      let start : suc lo + m ≡ lo + suc m = omega arith in
      ap (λ k. execute_log machine max_raft_state rf k lo s) count
      ∙ execute_log-add rf m n (suc lo) (execute_entry machine max_raft_state (get_log rf lo) s)
      ∙ ap
          (λ i. execute_log machine max_raft_state rf n i (
            execute_log machine max_raft_state rf m (suc lo)
              (execute_entry machine max_raft_state (get_log rf lo) s)))
          start

-- ===== src/Kv/Rsm/Applied/Rounds.antt =====
-- rsm.go and raft.go: a round of the applier, with its messages read.
use mathlib.Core.Path.{ap₂ as ap2}
use raft_algorithm_thesis.Base.{
  ℕ, suc, ◌+◌, ◌-◌, ◌≤◌, ◌<◌, ◌≡◌, sym, ◌∙◌, ap, subst, Option, some, List, [], ◌∷◌, map, arith,
  inl, inr, ◌⊎◌, length, Returns, Returns-some,
}
use raft_algorithm_thesis.Consensus.Types.{Raft, ApplyMsg, snapshot_msg}
use raft_algorithm_thesis.Consensus.Log.{get_log}
use raft_algorithm_thesis.Consensus.Applier.{apply_round}
use raft_algorithm_thesis.Consensus.Applier.Order.{Applies, AreCommands, apply_round-Applies}
use raft_algorithm_thesis.Consensus.Invariant.{IsWellFormed}
use raft_algorithm_thesis.Kv.Rsm.{Op, StateMachine, Rsm}
use raft_algorithm_thesis.Kv.Rsm.Applied.{
  RaftAnswers, AllHear, read_all, execute_log, Commands, read_all-Executes,
}
use raft_algorithm_thesis.Kv.Rsm.Applied.Restoring.{
  RestoreEnds, snapshot_round, only_message, only_heard,
}
use raft_algorithm_thesis.Kv.Rsm.Applied.Executing.{execute_log-agree, execute_log-add}

module _ {Req Val S : Type 0} (machine : StateMachine Req Val S) (max_raft_state : Option ℕ) where
  -- What a replica is after a round of its applier: the commands of the log up to the commit index
  -- executed one after another, or the snapshot restored.
  abbrev pub AppliedRound : Raft (Op Req) → Raft (Op Req) → Rsm S → Option (Rsm S) → Type 0
  AppliedRound rf rf' rsm result =
      ((rf.last_included_index ≤ rf.last_applied)
        × Returns
            (λ (rsm' : Rsm S).
              (rsm'.last_applied ≤ rf'.last_applied)
              × (rsm'.sm
                  ≡ execute_log machine max_raft_state rf (rf.commit_index - rf.last_applied)
                      (suc rf.last_applied) rsm.sm))
            result)
      ⊎ ((rf.last_applied < rf.last_included_index)
          × RestoreEnds machine max_raft_state rf.persister.snapshot rf'.last_applied rsm result)

  -- If a replica's reader is not ahead of its Raft node, which is well-formed, and every Submit
  -- receives what it is sent meanwhile, then for a round of the applier, with its messages read,
  -- either the reader gets through, is again not ahead, and the commands of the log from behind the
  -- last applied index up to the commit index have been executed, each once and in order; or the
  -- node's snapshot is ahead, and the reader gets through with it restored, or Restore fails.
  pub apply_round-AppliedRound :
      (rf : Raft (Op Req)) (rsm : Rsm S) (hs : List (RaftAnswers × ApplyMsg (Op Req)))
      {rf' : Raft (Op Req)}
      → IsWellFormed rf
      → AllHear hs
      → rsm.last_applied ≤ rf.last_applied
      → apply_round rf ≡ some (rf', map (λ p. p.1) hs)
      → AppliedRound rf rf' rsm (read_all machine max_raft_state hs rsm)
  apply_round-AppliedRound rf rsm hs {rf'} wf heard le run = by_case applies.2
    where
      applies : Applies rf (rf', map (λ p. p.1) hs)
      applies = Returns-some (Applies rf) _ (apply_round-Applies rf wf) run

      in_order :
          (n : ℕ)
          → n ≡ rf.commit_index - rf.last_applied
          → rf'.last_applied ≡ rf.last_applied + n
          → rf.last_included_index ≤ rf.last_applied
          → Commands machine max_raft_state rf n (suc rf.last_applied) (map (λ p. p.1) hs)
          → AppliedRound rf rf' rsm (read_all machine max_raft_state hs rsm)
      in_order n e moved in_log commands =
          let (rsm', read, (below, sm)) =
            read_all-Executes machine max_raft_state hs rf n (suc rf.last_applied) rsm heard
              (omega arith) commands in
          inl (
            in_log,
            (
              rsm',
              read,
              (
                omega arith,
                subst
                    (λ n.
                      rsm'.sm
                      ≡ execute_log machine max_raft_state rf n (suc rf.last_applied) rsm.sm)
                    e sm,
              ),
            ),
          )

      by_case :
          ((rf.commit_index ≡ rf.last_applied)
              × (map (λ p. p.1) hs ≡ [])
              × (rf'.last_applied ≡ rf.last_applied))
            ⊎ ((rf.last_applied < rf.last_included_index)
                × (map (λ p. p.1) hs
                    ≡ snapshot_msg rf.persister.snapshot rf.last_included_term
                        rf.last_included_index
                      ∷ [])
                × (rf'.last_applied ≡ rf.last_included_index))
            ⊎ ((rf.last_included_index ≤ rf.last_applied)
                × AreCommands rf (suc rf.last_applied) (suc rf.commit_index) (map (λ p. p.1) hs)
                × (rf'.last_applied ≡ rf.commit_index))
          → AppliedRound rf rf' rsm (read_all machine max_raft_state hs rsm)
      by_case (inl (same, none_sent, stays)) =
          in_order 0 (omega arith) (omega arith) (omega (arith, wf.anchored))
            (ap length none_sent, λ k lt. absurd (omega arith))
      by_case (inr (inl (behind, sent, moved))) =
          let (raft, at) = only_message machine max_raft_state hs _ sent in
          inr (
            behind,
            rw moved (
                subst
                  (λ hs.
                    RestoreEnds machine max_raft_state rf.persister.snapshot rf.last_included_index
                      rsm (read_all machine max_raft_state hs rsm))
                  (sym at)
                  (snapshot_round machine max_raft_state raft rf.persister.snapshot
                    rf.last_included_term rf.last_included_index rsm
                    (only_heard machine max_raft_state hs at heard))),
          )
      by_case (inr (inr (in_log, commands, moved))) =
          in_order (suc rf.commit_index - suc rf.last_applied) (omega arith)
            (omega (arith, wf.applied)) in_log commands

  -- If of two well-formed nodes with the same commit index the second has applied as much as the
  -- first or more, neither's snapshot is ahead of what it has applied and neither's reader ahead of
  -- its node, their logs have the same entries from behind the first one's last applied index up to
  -- the commit index, and the second state machine's state is the first one's with the commands in
  -- between executed, then, if every Submit receives what it is sent, both readers get through the
  -- messages of a round of their appliers, and the state machines are in the same state, whatever
  -- else the nodes and the answers of Raft are.
  pub replicas_agree :
      (rf rg : Raft (Op Req)) (rsm rsn : Rsm S) (hs gs : List (RaftAnswers × ApplyMsg (Op Req)))
      {rf' rg' : Raft (Op Req)}
      → IsWellFormed rf
      → IsWellFormed rg
      → AllHear hs
      → AllHear gs
      → rf.last_applied ≤ rg.last_applied
      → rf.commit_index ≡ rg.commit_index
      → rf.last_included_index ≤ rf.last_applied
      → rg.last_included_index ≤ rg.last_applied
      → ((k : ℕ)
          → k < rf.commit_index - rf.last_applied
          → get_log rf (suc rf.last_applied + k) ≡ get_log rg (suc rf.last_applied + k))
      → rsm.last_applied ≤ rf.last_applied
      → rsn.last_applied ≤ rg.last_applied
      → rsn.sm
        ≡ execute_log machine max_raft_state rf
            (rg.last_applied - rf.last_applied)
            (suc rf.last_applied)
            rsm.sm
      → apply_round rf ≡ some (rf', map (λ p. p.1) hs)
      → apply_round rg ≡ some (rg', map (λ p. p.1) gs)
      → (rsm' : Rsm S) × (rsn' : Rsm S) × (read_all machine max_raft_state hs rsm ≡ some rsm')
        × (read_all machine max_raft_state gs rsn ≡ some rsn')
        × (rsm'.sm ≡ rsn'.sm)
  replicas_agree rf rg rsm rsn hs gs wf wg hear_f hear_g behind committed in_f in_g logs le lg ahead
        run rung =
      let (rsm', read, sm) = ends rf rsm hs wf hear_f in_f le run in
      let (rsn', read', sn) = ends rg rsn gs wg hear_g in_g lg rung in
      (
        rsm',
        rsn',
        read,
        read',
        sm
            ∙ ap (λ k. execute_log machine max_raft_state rf k (suc rf.last_applied) rsm.sm) count
            ∙ execute_log-add machine max_raft_state rf (rg.last_applied - rf.last_applied)
                (rg.commit_index - rg.last_applied) (suc rf.last_applied) rsm.sm
            ∙ ap2
                (λ i x.
                  execute_log machine max_raft_state rf (rg.commit_index - rg.last_applied) i x)
                start (sym ahead)
            ∙ execute_log-agree machine max_raft_state rf rg (rg.commit_index - rg.last_applied)
                (suc rg.last_applied) rsn.sm later
            ∙ sym sn,
      )
    where
      count :
          rf.commit_index - rf.last_applied
          ≡ (rg.last_applied - rf.last_applied) + (rg.commit_index - rg.last_applied)
      count = omega (arith, wg.applied)

      start : suc rf.last_applied + (rg.last_applied - rf.last_applied) ≡ suc rg.last_applied
      start = omega arith

      later :
          (k : ℕ)
          → k < rg.commit_index - rg.last_applied
          → get_log rf (suc rg.last_applied + k) ≡ get_log rg (suc rg.last_applied + k)
      later k lt =
          subst (λ i. get_log rf i ≡ get_log rg i) (omega arith)
            (logs (rg.last_applied - rf.last_applied + k) (omega arith))

      ends :
          (rf : Raft (Op Req)) (rsm : Rsm S) (hs : List (RaftAnswers × ApplyMsg (Op Req)))
          {rf' : Raft (Op Req)}
          → IsWellFormed rf
          → AllHear hs
          → rf.last_included_index ≤ rf.last_applied
          → rsm.last_applied ≤ rf.last_applied
          → apply_round rf ≡ some (rf', map (λ p. p.1) hs)
          → Returns
              (λ (rsm' : Rsm S).
                rsm'.sm
                ≡ execute_log machine max_raft_state rf
                    (rf.commit_index - rf.last_applied)
                    (suc rf.last_applied)
                    rsm.sm)
              (read_all machine max_raft_state hs rsm)
      ends rf rsm hs wf hear in_log le run =
          elim (apply_round-AppliedRound rf rsm hs wf hear le run) [
            | inl (_, (rsm', read, (_, sm))) ↦ (rsm', read, sm)
            | inr (behind, _) ↦ absurd (omega arith)
          ]

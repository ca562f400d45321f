-- ===== src/Consensus/Applier/Order.antt =====
-- raft.go: the applier's messages against the log.
use native.Mathlib.Decide.{dec_lt, dec_le}
use raft_algorithm_thesis.Base.{
  ℕ, suc, ◌+◌, ◌-◌, ◌≤◌, ◌<◌, ◌≡◌, refl, sym, ◌∙◌, ap, some, List, [], ◌∷◌, map, length, take, drop,
  get_elem?, arith, le→ltb, lt→ltb, le→leb, lt→leb-false, Returns, ◌⊎◌, inl, inr, length-take,
  length-drop, length-map, get_elem?-map, get_elem?-take, get_elem?-drop,
}
use raft_algorithm_thesis.Consensus.Types.{Entry, Raft, ApplyMsg, command_msg, snapshot_msg}
use raft_algorithm_thesis.Consensus.Log.{get_log}
use raft_algorithm_thesis.Consensus.Storage.Compact.{get_physical_index-sub}
use raft_algorithm_thesis.Consensus.Applier.{slice, apply_msg, apply_entries, apply_round}
use raft_algorithm_thesis.Consensus.Invariant.{
  IsWellFormed, get_log_total, get_log-get_elem?, get_log-index,
}

module _ {C : Type 0} where
  -- The messages are the commands of the log at the indices from `lo` up to below `hi`, in order.
  abbrev pub AreCommands : Raft C → ℕ → ℕ → List (ApplyMsg C) → Type 0
  AreCommands rf lo hi ms =
      (length ms ≡ hi - lo)
      × ((k : ℕ)
          → k < hi - lo
          → (e : Entry C) × (get_log rf (lo + k) ≡ some e)
            × (get_elem? ms k ≡ some (command_msg e.command (lo + k))))

  abbrev cut : Raft C → ℕ → ℕ → List (Entry C)
  cut rf lo hi = take (hi - lo) (drop (lo - rf.last_included_index) rf.logs)

  cut-AreCommands :
      (rf : Raft C) (lo hi : ℕ)
      → IsWellFormed rf
      → rf.last_included_index ≤ lo
      → hi ≤ rf.last_included_index + length rf.logs
      → lo ≤ hi
      → AreCommands rf lo hi (map apply_msg (cut rf lo hi))
  unfolding apply_msg
  cut-AreCommands rf lo hi wf start end le = (
    length-map apply_msg (cut rf lo hi)
        ∙ length-take (hi - lo) (drop (lo - rf.last_included_index) rf.logs)
            (omega (arith, length-drop (lo - rf.last_included_index) rf.logs)),
    at,
  )
    where
      at :
          (k : ℕ)
          → k < hi - lo
          → (e : Entry C) × (get_log rf (lo + k) ≡ some e)
            × (get_elem? (map apply_msg (cut rf lo hi)) k ≡ some (command_msg e.command (lo + k)))
      at k lt =
          let (e, q) = get_log_total rf (lo + k) (omega arith) (omega arith) in
          (
            e,
            q,
            get_elem?-map apply_msg (cut rf lo hi) k {a = e} (
                  get_elem?-take (hi - lo) _ k lt
                  ∙ get_elem?-drop (lo - rf.last_included_index) rf.logs k
                  ∙ ap (get_elem? rf.logs) (offset k)
                  ∙ sym (get_log-get_elem? rf (lo + k) (omega arith))
                  ∙ q)
                ∙ ap (λ i. some (command_msg e.command i)) (get_log-index wf (lo + k) q),
          )
        where
          offset : (k : ℕ) → lo - rf.last_included_index + k ≡ lo + k - rf.last_included_index
          offset k = omega arith

  -- A round's messages: none, the snapshot, or the commands behind the last one applied; and the
  -- new last applied index is that of the last message.
  abbrev pub Applies : Raft C → Raft C × List (ApplyMsg C) → Type 0
  Applies rf (rf', ms) =
      IsWellFormed rf'
      × (rf'.commit_index ≡ rf.commit_index)
      × (((rf.commit_index ≡ rf.last_applied) × (ms ≡ []) × (rf'.last_applied ≡ rf.last_applied))
          ⊎ ((rf.last_applied < rf.last_included_index)
              × (ms
                  ≡ snapshot_msg rf.persister.snapshot rf.last_included_term rf.last_included_index
                    ∷ [])
              × (rf'.last_applied ≡ rf.last_included_index))
          ⊎ ((rf.last_included_index ≤ rf.last_applied)
              × AreCommands rf (suc rf.last_applied) (suc rf.commit_index) ms
              × (rf'.last_applied ≡ rf.commit_index)))

  applied-IsWellFormed :
      (rf : Raft C) (i : ℕ)
      → IsWellFormed rf
      → i ≤ rf.commit_index
      → IsWellFormed (record rf { last_applied = i })
  applied-IsWellFormed rf i wf le = assumption

  -- A round of the applier on a well-formed node returns and keeps the invariant. With nothing new
  -- it sends nothing; where the snapshot is ahead it sends the snapshot; and else it sends the
  -- commands of the indices from behind the last applied one up to the commit index, in order, each
  -- once.
  pub apply_round-Applies : (rf : Raft C) → IsWellFormed rf → Returns (Applies rf) (apply_round rf)
  unfolding apply_round apply_entries slice
  apply_round-Applies rf wf = elim (dec_le rf.commit_index rf.last_applied) [
    | yes idle ↦ (
      (rf, []),
      rw (le→leb rf.commit_index rf.last_applied idle),
      (wf, refl, inl (omega (arith, wf.applied), refl, refl)),
    )
    | no some_new ↦ elim (dec_lt rf.last_applied rf.last_included_index) [
      | yes behind ↦ (
        (record rf { last_applied = rf.last_included_index }, _),
        rw (lt→leb-false rf.commit_index rf.last_applied (omega arith), lt→ltb _ _ behind),
        (
          applied-IsWellFormed rf rf.last_included_index wf wf.anchored,
          refl,
          inr (inl (behind, refl, refl)),
        ),
      )
      | no in_log ↦ (
        (record rf { last_applied = rf.commit_index }, _),
        run (omega arith) (omega arith),
        (
          applied-IsWellFormed rf rf.commit_index wf (omega arith),
          refl,
          inr (
              inr (
                omega arith,
                cut-AreCommands rf (suc rf.last_applied) (suc rf.commit_index) wf (omega arith)
                    (omega (arith, wf.committed)) (omega arith),
                refl,
              )),
        ),
      )
    ]
  ]
    where
      plus_one : rf.last_applied + 1 ≡ suc rf.last_applied
      plus_one = omega arith

      count :
          rf.last_applied < rf.commit_index
          → rf.last_included_index ≤ rf.last_applied
          → rf.commit_index
              - rf.last_included_index
              + 1
              - (suc rf.last_applied - rf.last_included_index)
            ≡ suc rf.commit_index - suc rf.last_applied
      count new at = omega arith

      run :
          rf.last_applied < rf.commit_index
          → rf.last_included_index ≤ rf.last_applied
          → apply_round rf
            ≡ some (
              record rf { last_applied = rf.commit_index },
              map apply_msg (cut rf (suc rf.last_applied) (suc rf.commit_index)),
            )
      run new at = rw (
        lt→leb-false rf.commit_index rf.last_applied new,
        le→ltb rf.last_applied rf.last_included_index at,
        plus_one,
        get_physical_index-sub rf (suc rf.last_applied) (omega arith),
        get_physical_index-sub rf rf.commit_index (omega arith),
        le→leb (suc rf.last_applied - rf.last_included_index)
            (rf.commit_index - rf.last_included_index + 1) (omega arith),
        le→leb (rf.commit_index - rf.last_included_index + 1) (length rf.logs)
            (omega (arith, wf.committed, wf.nonempty)),
        count new at,
      )

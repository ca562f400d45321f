-- ===== src/Consensus/Storage/Install.antt =====
-- storage.go: InstallSnapshot for a snapshot that is newer than the node's own.
use native.Mathlib.Decide.{dec_lt, ℕ_discrete}
use raft_algorithm_thesis.Base.{
  ℕ, ◌+◌, ◌-◌, ◌≤◌, ◌<◌, ◌≡◌, ◌≢◌, refl, ◌∙◌, ap, subst, none, some, List, [], ◌∷◌, length, drop,
  length-drop, arith, ltb, ◌==◌, ==_iff, if◌then◌else◌, le→ltb, lt→ltb, Returns, ◌⊎◌, inl, inr,
  Bool-cases,
}
use raft_algorithm_thesis.Consensus.Types.{Entry, Raft, InstallSnapshotArgs}
use raft_algorithm_thesis.Consensus.Log.{get_len, get_log}
use raft_algorithm_thesis.Consensus.Storage.{
  save, keeps_suffix, truncate_log_with_snapshot, install_newer,
}
use raft_algorithm_thesis.Consensus.Storage.Compact.{slice_from-drop, get_physical_index-sub}
use raft_algorithm_thesis.Consensus.Matching.{IsContiguous}
use raft_algorithm_thesis.Consensus.Invariant.{
  IsWellFormed, HasTerm, get_log_total, get_log-range, IsContiguous-drop,
}

module _ {C : Type 0} where
  -- The log after truncateLogWithSnapshot: its tail from the index, or a single entry.
  abbrev pub tail_from : ℕ → Raft C → List (Entry C)
  tail_from index rf = drop (index - rf.last_included_index) rf.logs

  abbrev pub single : ℕ → ℕ → List (Entry C)
  single index term = record { index = index; term = term; command = none } ∷ []

  module _ (rf : Raft C) (index term : ℕ) (newer : rf.last_included_index < index) where
    truncate_matching :
        HasTerm rf index term
        → truncate_log_with_snapshot index term rf ≡ some (record rf { logs = tail_from index rf })
    unfolding truncate_log_with_snapshot keeps_suffix get_len
    truncate_matching (e, q, t) = rw (
      lt→ltb index (rf.last_included_index + length rf.logs) (get_log-range rf index {e = e} q).1,
      q,
      (==_iff e.term term).1 t,
      get_physical_index-sub rf index (omega arith),
      slice_from-drop rf.logs (index - rf.last_included_index)
          (omega (arith, get_log-range rf index {e = e} q)),
    )

    truncate_other :
        ¬ HasTerm rf index term
        → truncate_log_with_snapshot index term rf ≡ some (record rf { logs = single index term })
    unfolding truncate_log_with_snapshot keeps_suffix get_len
    truncate_other no_entry = elim (dec_lt index (rf.last_included_index + length rf.logs)) [
      | yes below ↦
          (let (e, q) = get_log_total rf index (omega arith) below in
            elim (Bool-cases (e.term == term)) [
              | inl same ↦ absurd (no_entry (e, q, (==_iff e.term term).0 same))
              | inr differs ↦ rw (lt→ltb _ _ below, q, differs)
            ])
      | no beyond ↦ rw (le→ltb index (rf.last_included_index + length rf.logs) (omega arith))
    ]

    has_term? : HasTerm rf index term ⊎ (¬ HasTerm rf index term)
    has_term? = elim (dec_lt index (rf.last_included_index + length rf.logs)) [
      | yes below ↦
          (let (e, q) = get_log_total rf index (omega arith) below in
            elim (ℕ_discrete e.term term) [
              | yes same ↦ inl (e, q, same)
              | no differs ↦ inr (other_term e q differs)
            ])
      | no beyond ↦ inr (past_end beyond)
    ]
      where
        other_term :
            (e : Entry C) → get_log rf index ≡ some e → e.term ≢ term → ¬ HasTerm rf index term
        other_term e q ne (x, r, t) = ne (ap (λ (y : Entry C). y.term) same ∙ t)
          where
            same : e ≡ x
            same = cc

        past_end : ¬ (index < rf.last_included_index + length rf.logs) → ¬ HasTerm rf index term
        past_end h (x, r, t) = h (get_log-range rf index {e = x} r).1

  -- The snapshot does not contradict what the node has committed: it covers it, or the log has the
  -- snapshot's last entry.
  abbrev pub Covers : InstallSnapshotArgs → Raft C → Type 0
  Covers args rf =
      (rf.commit_index ≤ args.last_included_index)
      ⊎ HasTerm rf args.last_included_index args.last_included_term

  abbrev pub max_commit : InstallSnapshotArgs → Raft C → ℕ
  max_commit args rf =
      if ltb rf.commit_index args.last_included_index
      then args.last_included_index
      else rf.commit_index

  abbrev pub installed : InstallSnapshotArgs → List (Entry C) → Raft C → Raft C
  installed args logs rf = save args.bytes (record rf {
    logs = logs;
    last_included_index = args.last_included_index;
    last_included_term = args.last_included_term;
    commit_index = max_commit args rf;
  })

  tail-IsWellFormed :
      (args : InstallSnapshotArgs) (rf : Raft C)
      → IsWellFormed rf
      → rf.last_included_index < args.last_included_index
      → HasTerm rf args.last_included_index args.last_included_term
      → IsWellFormed (installed args (tail_from args.last_included_index rf) rf)
  unfolding save
  tail-IsWellFormed args rf wf lt (e, q, t) = record {
    contiguous =
        subst (λ i. IsContiguous i (drop p rf.logs)) (omega arith)
          (IsContiguous-drop rf.last_included_index p rf.logs wf.contiguous);
    nonempty = omega (arith, length-drop p rf.logs, range);
    anchored = ground arith;
    committed = ground (arith, length-drop p rf.logs, range.1, wf.committed);
    applied = ground (arith, wf.applied);
    member = wf.member;
    nexts = wf.nexts;
    matches = wf.matches;
  }
    where
      p : ℕ
      p = args.last_included_index - rf.last_included_index

      range :
          (rf.last_included_index ≤ args.last_included_index)
          × (args.last_included_index < rf.last_included_index + length rf.logs)
      range = get_log-range rf args.last_included_index {e = e} q

  single-IsWellFormed :
      (args : InstallSnapshotArgs) (rf : Raft C)
      → IsWellFormed rf
      → rf.commit_index ≤ args.last_included_index
      → IsWellFormed (installed args (single args.last_included_index args.last_included_term) rf)
  unfolding save
  single-IsWellFormed args rf wf le = record {
    contiguous = (refl, tt);
    nonempty = omega arith;
    anchored = ground arith;
    committed = ground arith;
    applied = ground (arith, wf.applied);
    member = wf.member;
    nexts = wf.nexts;
    matches = wf.matches;
  }

  -- What a newer snapshot leaves.
  pub record IsInstalled (args : InstallSnapshotArgs) (rf rf' : Raft C) : Type 0 where
    pub well_formed : IsWellFormed rf'
    pub at : rf'.last_included_index ≡ args.last_included_index
    pub stored : rf'.persister.snapshot ≡ args.bytes
    pub commit : rf'.commit_index ≡ max_commit args rf

  installed-IsInstalled :
      (args : InstallSnapshotArgs) (logs : List (Entry C)) (rf : Raft C)
      → IsWellFormed (installed args logs rf)
      → IsInstalled args rf (installed args logs rf)
  unfolding save
  installed-IsInstalled args logs rf wf = record {
    well_formed = wf;
    at = refl;
    stored = refl;
    commit = refl;
  }

  pub install_newer-IsInstalled :
      (args : InstallSnapshotArgs) (rf : Raft C)
      → IsWellFormed rf
      → Covers args rf
      → rf.last_included_index < args.last_included_index
      → Returns (IsInstalled args rf) (install_newer args rf)
  unfolding install_newer
  install_newer-IsInstalled args rf wf covers lt = elim (has_term? rf index term lt) [
    | inl h ↦ (
      installed args (tail_from index rf) rf,
      rw (truncate_matching rf index term lt h),
      installed-IsInstalled args _ rf (tail-IsWellFormed args rf wf lt h),
    )
    | inr no_entry ↦ (
      installed args (single index term) rf,
      rw (truncate_other rf index term lt no_entry),
      installed-IsInstalled args _ rf (single-IsWellFormed args rf wf (covered no_entry covers)),
    )
  ]
    where
      index : ℕ
      index = args.last_included_index

      term : ℕ
      term = args.last_included_term

      covered : ¬ HasTerm rf index term → Covers args rf → rf.commit_index ≤ index
      covered no_entry (inl le) = le
      covered no_entry (inr h) = absurd (no_entry h)

-- ===== src/Consensus/Storage/Receive.antt =====
-- storage.go: InstallSnapshot as a whole.
use native.Mathlib.Decide.{dec_lt, dec_le}
use raft_algorithm_thesis.Base.{
  ℕ, ◌≤◌, ◌≡◌, refl, ◌∙◌, none, some, arith, ltb, le→ltb, lt→ltb, le→leb, lt→leb-false, Returns,
  inl, inr, if_cases,
}
use raft_algorithm_thesis.Consensus.Types.{
  Raft, NodeState, InstallSnapshotArgs, InstallSnapshotReply,
}
use raft_algorithm_thesis.Consensus.Log.{get_log}
use raft_algorithm_thesis.Consensus.Storage.{persist, install_snapshot, adopt_snapshot_term}
use raft_algorithm_thesis.Consensus.Storage.Frames.{persist-IsWellFormed, get_log-persist}
use raft_algorithm_thesis.Consensus.Storage.Install.{Covers, IsInstalled, install_newer-IsInstalled}
use raft_algorithm_thesis.Consensus.Invariant.{IsWellFormed}

module _ {C : Type 0} where
  -- The node with the sender's term and as its follower.
  abbrev pub followed : InstallSnapshotArgs → Raft C → Raft C
  followed args rf = record (adopt_snapshot_term args rf) {
    current_leader = some args.leader_id;
    state = NodeState.follower;
  }

  -- The same log, with the same ends.
  record SameLog (rf rf' : Raft C) : Type 0 where
    well_formed : IsWellFormed rf → IsWellFormed rf'
    start : rf'.last_included_index ≡ rf.last_included_index
    commit : rf'.commit_index ≡ rf.commit_index
    log : (i : ℕ) → get_log rf' i ≡ get_log rf i

  persist-SameLog : (rf : Raft C) → SameLog rf (persist rf)
  persist-SameLog rf = record {
    well_formed = persist-IsWellFormed rf;
    start =
        unfold persist in
        if_cases (λ (r : Raft C). r.last_included_index ≡ rf.last_included_index) rf.dead
          (λ _. refl) (λ _. refl);
    commit =
        unfold persist in
        if_cases (λ (r : Raft C). r.commit_index ≡ rf.commit_index) rf.dead (λ _. refl) (λ _. refl);
    log = get_log-persist rf;
  }

  adopt-SameLog :
      (args : InstallSnapshotArgs) (rf : Raft C) → SameLog rf (adopt_snapshot_term args rf)
  unfolding adopt_snapshot_term get_log
  adopt-SameLog args rf =
      if_cases (SameLog rf) (ltb rf.current_term args.term)
        (λ up.
          let s = persist-SameLog (record rf { current_term = args.term; voted_for = none }) in
          record {
            well_formed = λ wf. s.well_formed assumption;
            start = s.start;
            commit = s.commit;
            log = s.log;
          })
        (λ no_change. record {
          well_formed = λ wf. wf;
          start = refl;
          commit = refl;
          log = λ i. refl;
        })

  followed-SameLog : (args : InstallSnapshotArgs) (rf : Raft C) → SameLog rf (followed args rf)
  unfolding get_log
  followed-SameLog args rf =
      let s = adopt-SameLog args rf in
      record {
        well_formed = λ wf. (let w = s.well_formed wf in assumption);
        start = s.start;
        commit = s.commit;
        log = s.log;
      }

  -- What InstallSnapshot leaves and replies.
  abbrev pub Received : InstallSnapshotArgs → Raft C → Raft C × InstallSnapshotReply → Type 0
  Received args rf (rf', reply) =
      IsWellFormed rf'
      × (rf.last_included_index ≤ rf'.last_included_index)
      × (rf.commit_index ≤ rf'.commit_index)
      × (rf.current_term ≤ args.term → args.last_included_index ≤ rf'.last_included_index)
      × (reply.term ≡ rf.current_term)

  Covers-followed :
      (args : InstallSnapshotArgs) (rf : Raft C) → Covers args rf → Covers args (followed args rf)
  Covers-followed args rf (inl le) = inl (omega (arith, (followed-SameLog args rf).commit))
  Covers-followed args rf (inr (e, q, t)) = inr (e, (followed-SameLog args rf).log _ ∙ q, t)

  -- InstallSnapshot, on a well-formed node that has committed nothing against the snapshot: it
  -- returns, keeps the invariant, and moves neither the end of the node's snapshot nor its commit
  -- index back; the snapshot of a sender that is not stale is covered afterwards.
  pub install_snapshot-Received :
      (args : InstallSnapshotArgs) (rf : Raft C)
      → IsWellFormed rf
      → Covers args rf
      → Returns (Received args rf) (install_snapshot args rf)
  unfolding install_snapshot
  install_snapshot-Received args rf wf covers = elim (dec_lt args.term rf.current_term) [
    | yes old ↦ (
      (rf, reply),
      rw (lt→ltb args.term rf.current_term old),
      (wf, omega arith, omega arith, λ le. absurd (omega arith), refl),
    )
    | no current ↦ elim (dec_le args.last_included_index (followed args rf).last_included_index) [
      | yes known ↦ (
        (followed args rf, reply),
        rw (le→ltb args.term rf.current_term (omega arith), le→leb _ _ known),
        (s.well_formed wf, omega (arith, s.start), omega (arith, s.commit), λ _. known, refl),
      )
      | no newer ↦
          (let (rf', run, h) =
              install_newer-IsInstalled args (followed args rf) (s.well_formed wf)
                (Covers-followed args rf covers) (omega arith) in
            (
              (rf', reply),
              rw (
                le→ltb args.term rf.current_term (omega arith),
                lt→leb-false args.last_included_index (followed args rf).last_included_index
                    (omega arith),
                run,
              ),
              (
                h.well_formed,
                omega (arith, h.at, s.start),
                commit_le rf' h,
                λ _. omega (arith, h.at),
                refl,
              ),
            ))
    ]
  ]
    where
      reply : InstallSnapshotReply
      reply = record { term = rf.current_term }

      s : SameLog rf (followed args rf)
      s = followed-SameLog args rf

      commit_le :
          (rf' : Raft C)
          → IsInstalled args (followed args rf) rf'
          → rf.commit_index ≤ rf'.commit_index
      commit_le rf' h = ground (arith, h.commit, s.commit)

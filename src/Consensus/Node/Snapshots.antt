-- ===== src/Consensus/Node/Snapshots.antt =====
-- storage.go: snapshots and restarts as steps of a node.
use raft_algorithm_thesis.Base.{
  ℕ, ◌≡◌, refl, ◌∙◌, false, some, List, [], ◌∷◌, arith, ap, if_cases, Ensures, Ensures->>=,
  Ensures-some, map-eq-some, ltb, leb, if◌then◌else◌, ◌||◌,
}
use raft_algorithm_thesis.Consensus.Types.{
  Disk, GobValue, Entry, Raft, NodeState, InstallSnapshotArgs,
}
use raft_algorithm_thesis.Consensus.Storage.{
  make, snapshot, install_snapshot, adopt_snapshot_term, install_newer, truncate_log_with_snapshot,
  keeps_suffix, Saved, read_persist, fresh, restore, decode_state,
}
use raft_algorithm_thesis.Consensus.Log.{get_physical_index, slice_from, get_first_log}
use raft_algorithm_thesis.Consensus.Node.Votes.{KeepsFst}
use raft_algorithm_thesis.Consensus.Node.Durable.{
  saved, IsLive, Keeps, Keeps-refl, Keeps-trans, IsVolatile-Keeps, IsLawful, persist-Keeps,
  save-Keeps,
}

module _ {C : Type 0} where
  IsLawful-refl : (rf : Raft C) → IsLawful rf rf
  IsLawful-refl rf = record { dead = refl; term_le = omega arith; vote = λ e c v. v }

  adopt_snapshot-Keeps :
      (args : InstallSnapshotArgs) (rf : Raft C) → Keeps rf (adopt_snapshot_term args rf)
  unfolding adopt_snapshot_term
  adopt_snapshot-Keeps args rf =
      if_cases (Keeps rf) (ltb rf.current_term args.term)
        (λ up.
          persist-Keeps
            (record { dead = refl; term_le = ground arith; vote = λ e c v. absurd (ground arith) }))
        (λ no_change. Keeps-refl rf)

  -- A change of the log and the snapshot's end, once saved.
  cut-IsLawful :
      (rf : Raft C) (logs : List (Entry C)) (index term commit : ℕ)
      → IsLawful rf (record rf {
        logs = logs;
        last_included_index = index;
        last_included_term = term;
        commit_index = commit;
      })
  cut-IsLawful rf logs index term commit = record {
    dead = refl;
    term_le = omega arith;
    vote = λ e c v. v;
  }

  pub snapshot-Keeps :
      (index : ℕ) (bytes : List ℕ) (rf : Raft C) → Ensures (Keeps rf) (snapshot index bytes rf)
  unfolding snapshot
  snapshot-Keeps index bytes rf =
      if_cases (Ensures (Keeps rf)) (leb index rf.last_included_index || ltb rf.commit_index index)
        (λ skip. Keeps-refl rf)
        (λ cut. Ensures->>= (Keeps rf) (get_physical_index rf index) _ (λ p _.
          Ensures->>= (Keeps rf) (slice_from rf.logs p) _ (λ rest _.
            Ensures->>= (Keeps rf) (get_first_log _) _ (λ first _.
              save-Keeps bytes (cut-IsLawful rf rest index first.term rf.commit_index)))))

  -- Cutting the log to a snapshot changes the log alone.
  truncate-frame :
      (index term : ℕ) (rf : Raft C)
      → Ensures
          (λ cut. cut ≡ record rf { logs = cut.logs })
          (truncate_log_with_snapshot index term rf)
  unfolding truncate_log_with_snapshot
  truncate-frame index term rf = Ensures->>= IsCut (keeps_suffix index term rf) _ (λ keep _.
      if_cases (Ensures IsCut) keep
        (λ suffix.
          Ensures->>= IsCut (get_physical_index rf index) _
            (λ p _. Ensures->>= IsCut (slice_from rf.logs p) _ (λ rest _. refl)))
        (λ all_new. refl))
    where
      IsCut : Raft C → Type 0
      IsCut cut = cut ≡ record rf { logs = cut.logs }

  install_newer-Keeps :
      (args : InstallSnapshotArgs) (rf : Raft C) → Ensures (Keeps rf) (install_newer args rf)
  unfolding install_newer
  install_newer-Keeps args rf =
      Ensures->>= (Keeps rf) (truncate_log_with_snapshot _ _ rf) _ (λ cut run.
        save-Keeps args.bytes (
          lawful cut (
            Ensures-some (λ (cut : Raft C). cut ≡ record rf { logs = cut.logs }) _
              (truncate-frame args.last_included_index args.last_included_term rf) run)))
    where
      lawful :
          (cut : Raft C)
          → cut ≡ record rf { logs = cut.logs }
          → IsLawful rf (record cut {
            last_included_index = args.last_included_index;
            last_included_term = args.last_included_term;
            commit_index =
                if ltb cut.commit_index args.last_included_index
                then args.last_included_index
                else cut.commit_index;
          })
      lawful cut e = record {
        dead = ap (λ (r : Raft C). r.dead) e;
        term_le = omega (arith, ap (λ (r : Raft C). r.current_term) e);
        vote = λ _ c v. ap (λ (r : Raft C). r.voted_for) e ∙ v;
      }

  follow_snapshot-Keeps :
      (args : InstallSnapshotArgs) (rf : Raft C)
      → Keeps rf (record rf { current_leader = some args.leader_id; state = NodeState.follower })
  follow_snapshot-Keeps args rf =
      IsVolatile-Keeps
        (record { dead = refl; peers = refl; me = refl; persister = refl; state = refl })

  pub install_snapshot-Keeps :
      (args : InstallSnapshotArgs) (rf : Raft C) → Ensures (KeepsFst rf) (install_snapshot args rf)
  unfolding install_snapshot
  install_snapshot-Keeps args rf =
      if_cases (Ensures (KeepsFst rf)) (ltb args.term rf.current_term) (λ old. Keeps-refl rf)
        (λ current.
          if_cases (Ensures (KeepsFst rf))
            (leb args.last_included_index (adopt_snapshot_term args rf).last_included_index)
            (λ known. followed)
            (λ newer. Ensures->>= (KeepsFst rf) (install_newer args _) _ (λ installed run.
              Keeps-trans followed (Ensures-some (Keeps _) _ (install_newer-Keeps args _) run))))
    where
      followed : Keeps rf (record (adopt_snapshot_term args rf) {
        current_leader = some args.leader_id;
        state = NodeState.follower;
      })
      followed =
          Keeps-trans (adopt_snapshot-Keeps args rf)
            (follow_snapshot-Keeps args (adopt_snapshot_term args rf))

  -- What a start takes from its arguments.
  record IsStarted (peers me : ℕ) (disk : Disk C) (rf : Raft C) : Type 0 where
    alive : rf.dead ≡ false
    peers_eq : rf.peers ≡ peers
    me_eq : rf.me ≡ me
    disk_eq : rf.persister ≡ disk

  read-IsStarted :
      (peers me : ℕ) (disk : Disk C) (stream : List (GobValue C))
      → Ensures (IsStarted peers me disk) (read_persist stream (fresh peers me disk))
  unfolding read_persist fresh restore
  read-IsStarted peers me disk [] = record {
    alive = refl;
    peers_eq = refl;
    me_eq = refl;
    disk_eq = refl;
  }
  read-IsStarted peers me disk (v ∷ stream) =
      Ensures->>= (IsStarted peers me disk) (decode_state (v ∷ stream)) _
        (λ s _. record { alive = refl; peers_eq = refl; me_eq = refl; disk_eq = refl })

  started-Keeps :
      (rf rf' : Raft C)
      → make rf.peers rf.me rf.persister ≡ some rf'
      → IsStarted rf.peers rf.me rf.persister rf'
      → saved rf' ≡ saved rf
      → Keeps rf rf'
  started-Keeps rf rf' run s e = record {
    live = λ l. record { alive = s.alive; durable = rw (s.peers_eq, s.me_eq, s.disk_eq, run) refl };
    term_le = omega (arith, ap (λ (s : Saved C). s.current_term) e);
    vote = λ _ c v. ap (λ (s : Saved C). s.voted_for) e ∙ v;
  }

  -- A live node comes back from a restart with what it had saved, and it does come back.
  pub restart-Keeps :
      (rf : Raft C)
      → IsLive rf
      → (rf' : Raft C) × (make rf.peers rf.me rf.persister ≡ some rf')
        × (saved rf' ≡ saved rf)
        × Keeps rf rf'
  unfolding make
  restart-Keeps rf l =
      let (rf', run, e) = map-eq-some saved (make rf.peers rf.me rf.persister) l.durable in
      (
        rf',
        run,
        e,
        started-Keeps rf rf' run
            (Ensures-some (IsStarted rf.peers rf.me rf.persister) _
              (read-IsStarted rf.peers rf.me rf.persister rf.persister.raft_state) run)
            e,
      )

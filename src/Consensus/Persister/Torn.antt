-- ===== src/Consensus/Persister/Torn.antt =====
-- disk_persister.go and storage.go: a node's Snapshot whose Save ends between its two files.
use raft_algorithm_thesis.Base.{
  ℕ, ◌+◌, ◌≤◌, ◌<◌, ◌≡◌, refl, ap, some, List, arith, length, lt→leb-false, lt→ltb,
}
use raft_algorithm_thesis.Consensus.Types.{Disk, Raft}
use raft_algorithm_thesis.Consensus.Invariant.{IsWellFormed}
use raft_algorithm_thesis.Consensus.Storage.{
  encode_state, decode_state, restore, read_persist, fresh, make, snapshot,
}
use raft_algorithm_thesis.Consensus.Storage.Compact.{snapshot-IsCompacted}
use raft_algorithm_thesis.Consensus.Node.Durable.{saved}
use raft_algorithm_thesis.Consensus.Persister.{Files, crash, exec_save, save_calls, read_disk}
use raft_algorithm_thesis.Consensus.Persister.Crash.{crash-save_calls}

module _ {C : Type 0} where
  -- The disk behind the first of the two files.
  torn_disk :
      (rf : Raft C) (bytes : List ℕ) (fs : Files C)
      → read_disk (crash exec_save 9 (save_calls (encode_state rf) bytes) fs)
        ≡ record { raft_state = encode_state rf; snapshot = (read_disk fs).snapshot }
  unfolding encode_state
  torn_disk rf bytes fs = rw (
    crash-save_calls 9 (encode_state rf) bytes fs,
    lt→leb-false (length bytes + 4) 0 (omega arith),
  )

  abbrev restarted : ℕ → ℕ → Raft C → List ℕ → Raft C
  restarted peers me rf old =
      restore (saved rf) (fresh peers me (record { raft_state = encode_state rf; snapshot = old }))

  torn_make :
      (peers me : ℕ) (rf : Raft C) (old : List ℕ)
      → make peers me (record { raft_state = encode_state rf; snapshot = old })
        ≡ some (restarted peers me rf old)
  unfolding make read_persist decode_state encode_state
  torn_make peers me rf old = refl

  -- A well-formed node takes a snapshot of a committed index that is not yet compacted, and the
  -- process ends while Save writes: there is a call behind which a restart finds the old snapshot,
  -- with a log that begins at the new one's end and with everything up to there counted as applied.
  pub torn_snapshot :
      (index : ℕ) (bytes : List ℕ) (rf : Raft C) (fs : Files C)
      → IsWellFormed rf
      → rf.last_included_index < index
      → index ≤ rf.commit_index
      → read_disk fs ≡ rf.persister
      → (k : ℕ) × (rf' : Raft C) × (rf'' : Raft C) × (snapshot index bytes rf ≡ some rf')
        × (make rf.peers rf.me
              (read_disk (crash exec_save k (save_calls (encode_state rf') bytes) fs))
            ≡ some rf'')
        × (rf''.persister.snapshot ≡ rf.persister.snapshot)
        × (rf''.last_included_index ≡ index)
        × (rf''.last_applied ≡ index)
  unfolding restore fresh
  torn_snapshot index bytes rf fs wf lo hi disk =
      let (rf', run, h) = snapshot-IsCompacted index bytes rf wf lo hi in
      (
        9,
        rf',
        restarted rf.peers rf.me rf' (read_disk fs).snapshot,
        run,
        rw (torn_disk rf' bytes fs) (torn_make rf.peers rf.me rf' (read_disk fs).snapshot),
        ap (λ (d : Disk C). d.snapshot) disk,
        h.at,
        rw (lt→ltb 0 rf'.last_included_index (omega (arith, h.at))) h.at,
      )

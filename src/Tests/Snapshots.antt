-- ===== src/Tests/Snapshots.antt =====
-- Snapshots taken and received.
use raft_algorithm_thesis.Base.{
  List, ℕ, ◌≡◌, refl, inl, arith, none, some, [], ◌∷◌, Returns, leb, if◌then◌else◌,
}
use raft_algorithm_thesis.Consensus.Types.{Raft, GobValue}
use raft_algorithm_thesis.Consensus.Persister.{Files, crash, exec_save, save_calls, read_disk}
use raft_algorithm_thesis.Consensus.Persister.Crash.{crash-save_calls}
use raft_algorithm_thesis.Consensus.Persister.Torn.{torn_snapshot}
use raft_algorithm_thesis.Consensus.Storage.{snapshot, install_snapshot, make, encode_state}
use raft_algorithm_thesis.Consensus.Storage.Compact.{IsCompacted, snapshot-IsCompacted}
use raft_algorithm_thesis.Consensus.Storage.Receive.{Received, install_snapshot-Received}
use raft_algorithm_thesis.Tests.Data.{followed, following, snapshot_args}
use raft_algorithm_thesis.Tests.Logs.{following-IsWellFormed}

install_snapshot-Received_example :
    Returns (Received snapshot_args following) (install_snapshot snapshot_args following)
install_snapshot-Received_example =
    install_snapshot-Received snapshot_args following following-IsWellFormed (inl (omega arith))

snapshot-IsCompacted_example :
    Returns (IsCompacted 1 (5 ∷ []) following) (snapshot 1 (5 ∷ []) following)
snapshot-IsCompacted_example =
    snapshot-IsCompacted 1 (5 ∷ []) following following-IsWellFormed (omega arith) (omega arith)

-- The files with the follower's disk.
abbrev files : Files ℕ
files = record {
  raft_state = record { target = some following.persister.raft_state; temp = none };
  snapshot = record { target = none; temp = none };
}

files-disk : read_disk files ≡ following.persister
unfolding read_disk
files-disk = refl

torn_snapshot_example :
    (k : ℕ) × (rf' : Raft ℕ) × (rf'' : Raft ℕ) × (snapshot 1 (5 ∷ []) following ≡ some rf')
    × (make 3 1 (read_disk (crash exec_save k (save_calls (encode_state rf') (5 ∷ [])) files))
        ≡ some rf'')
    × (rf''.persister.snapshot ≡ [])
    × (rf''.last_included_index ≡ 1)
    × (rf''.last_applied ≡ 1)
torn_snapshot_example =
    torn_snapshot 1 (5 ∷ []) following files following-IsWellFormed (omega arith) (omega arith)
      files-disk

abbrev new_state : List (GobValue ℕ)
new_state = followed.persister.raft_state

crash-save_calls_example :
    read_disk (crash exec_save 10 (save_calls new_state (5 ∷ [])) files) ≡ record {
      raft_state = if leb 9 10 then new_state else (read_disk files).raft_state;
      snapshot = if leb 5 1 then 5 ∷ [] else (read_disk files).snapshot;
    }
crash-save_calls_example = crash-save_calls 10 new_state (5 ∷ []) files

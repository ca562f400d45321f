-- ===== src/Consensus/Persister.antt =====
-- kvraft/internal/raft/disk_persister.go: the files of a FilePersister, and the system calls that
-- Save makes on them one after another, so that the process may end behind any of them. A call that
-- fails ends Save, and the process with it.
pub mod Crash
pub mod Torn
use raft_algorithm_thesis.Base.{ℕ, zero, suc, Option, none, some, List, [], ◌∷◌, ◌++◌, map}
use raft_algorithm_thesis.Consensus.Types.{Disk, GobValue}

-- A file and the file beside it with the suffix ".tmp"; `none` where there is none.
pub record File (B : Type 0) : Type 0 where
  pub target : Option (List B)
  pub temp : Option (List B)

-- What atomicWrite calls; a Write is the bytes one by one.
pub data FileCall (B : Type 0) : Type 0 where
  open_temp : FileCall B
  append : B → FileCall B
  sync close rename : FileCall B

-- Go's `append` to what is there.
abbrev pub extend : {B : Type 0} → Option (List B) → B → List B
extend none b = b ∷ []
extend (some bs) b = bs ++ b ∷ []

unfoldable pub exec : {B : Type 0} → FileCall B → File B → File B
exec open_temp f = record f { temp = some [] }
exec (append b) f = record f { temp = some (extend f.temp b) }
exec sync f = f
exec close f = f
exec rename f = record { target = f.temp; temp = none }

-- `atomicWrite`
unfoldable pub atomic_write : {B : Type 0} → List B → List (FileCall B)
atomic_write bytes = open_temp ∷ (map append bytes ++ sync ∷ close ∷ rename ∷ [])

-- The state after at most `k` of the calls.
module _ {S Call : Type 0} (run : Call → S → S) where
  unfoldable pub crash : ℕ → List Call → S → S
  crash zero cs s = s
  crash (suc k) [] s = s
  crash (suc k) (c ∷ cs) s = crash k cs (run c s)

-- The two files of a `FilePersister`.
pub record Files (C : Type 0) : Type 0 where
  pub raft_state : File (GobValue C)
  pub snapshot : File ℕ

pub data SaveCall (C : Type 0) : Type 0 where
  on_raft_state : FileCall (GobValue C) → SaveCall C
  on_snapshot : FileCall ℕ → SaveCall C

-- A file's content; one that is not there is empty.
abbrev pub read : {B : Type 0} → Option (List B) → List B
read none = []
read (some bytes) = bytes

module _ {C : Type 0} where
  unfoldable pub exec_save : SaveCall C → Files C → Files C
  exec_save (on_raft_state c) fs = record fs { raft_state = exec c fs.raft_state }
  exec_save (on_snapshot c) fs = record fs { snapshot = exec c fs.snapshot }

  -- `Save`
  unfoldable pub save_calls : List (GobValue C) → List ℕ → List (SaveCall C)
  save_calls raft_state snapshot =
      map on_raft_state (atomic_write raft_state) ++ map on_snapshot (atomic_write snapshot)

  -- `ReadRaftState` and `ReadSnapshot`
  unfoldable pub read_disk : Files C → Disk C
  read_disk fs = record {
    raft_state = read fs.raft_state.target;
    snapshot = read fs.snapshot.target;
  }

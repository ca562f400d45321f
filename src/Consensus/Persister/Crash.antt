-- ===== src/Consensus/Persister/Crash.antt =====
-- disk_persister.go: what a restart reads after a Save that the end of the process has cut short.
use raft_algorithm_thesis.Base.{
  ℕ, zero, suc, ◌+◌, ◌-◌, ◌≡◌, refl, ◌∙◌, Bool, true, false, Option, some, List, [], ◌∷◌, ◌++◌, map,
  append_assoc, append-nil, leb, if◌then◌else◌, arith, length, length-append, length-map, le→leb,
}
use raft_algorithm_thesis.Consensus.Types.{GobValue}
use raft_algorithm_thesis.Consensus.Persister.{
  File, FileCall, append, sync, close, rename, exec, atomic_write, crash, Files, on_raft_state,
  on_snapshot, exec_save, save_calls, read_disk, read,
}

zero_sub : (n : ℕ) → 0 - n ≡ 0
zero_sub n = omega arith

sub_zero : (n : ℕ) → n - 0 ≡ n
sub_zero n = omega arith

sub_suc : (n m : ℕ) → suc n - suc m ≡ n - m
sub_suc n m = omega arith

leb-suc : (n m k : ℕ) → n ≡ suc m → leb m k ≡ leb n (suc k)
leb-suc n m k e = ground arith

module _ {S Call : Type 0} (run : Call → S → S) where
  crash-append :
      (k : ℕ) (xs ys : List Call) (s : S)
      → crash run k (xs ++ ys) s ≡ crash run (k - length xs) ys (crash run k xs s)
  unfolding crash
  crash-append zero xs ys s = rw (zero_sub (length xs))
  crash-append (suc k) [] ys s = rw (sub_zero (suc k))
  crash-append (suc k) (x ∷ xs) ys s = rw (sub_suc k (length xs)) (crash-append k xs ys (run x s))

module _ {B : Type 0} where
  length-atomic_write : (bytes : List B) → length (atomic_write bytes) ≡ length bytes + 4
  unfolding atomic_write
  length-atomic_write bytes = omega (
    arith,
    length-append (map append bytes) (sync ∷ close ∷ rename ∷ []),
    length-map append bytes,
  )

  -- From the open temporary file on.
  writing :
      (k : ℕ) (done todo : List B) (old : Option (List B))
      → (crash exec k
          (map append todo ++ sync ∷ close ∷ rename ∷ [])
          (record { target = old; temp = some done })).target
        ≡ (if leb (length todo + 3) k then some (done ++ todo) else old)
  unfolding crash exec
  writing zero done todo old = ground arith
  writing (suc zero) done [] old = refl
  writing (suc (suc zero)) done [] old = refl
  writing (suc (suc (suc zero))) done [] old = rw (append-nil done)
  writing (suc (suc (suc (suc k)))) done [] old =
      rw (append-nil done, le→leb 3 (suc (suc (suc (suc k)))) (omega arith))
  writing (suc k) done (b ∷ todo) old =
      writing k (done ++ b ∷ []) todo old
      ∙ rw (
        append_assoc done (b ∷ []) todo,
        leb-suc (length (b ∷ todo) + 3) (length todo + 3) k (omega arith),
      )

  -- A file has its old content until the last call of atomicWrite, and the new content then.
  pub crash-atomic_write :
      (k : ℕ) (bytes : List B) (f : File B)
      → (crash exec k (atomic_write bytes) f).target
        ≡ (if leb (length bytes + 4) k then some bytes else f.target)
  unfolding crash exec atomic_write
  crash-atomic_write zero bytes f = ground arith
  crash-atomic_write (suc k) bytes f =
      writing k [] bytes f.target
      ∙ rw (leb-suc (length bytes + 4) (length bytes + 3) k (omega arith))

read_if :
    {B : Type 0} (b : Bool) (new : List B) (old : Option (List B))
    → read (if b then some new else old) ≡ (if b then new else read old)
read_if true new old = refl
read_if false new old = refl

module _ {C : Type 0} where
  crash-on_raft_state :
      (k : ℕ) (cs : List (FileCall (GobValue C))) (fs : Files C)
      → crash exec_save k (map on_raft_state cs) fs
        ≡ record fs { raft_state = crash exec k cs fs.raft_state }
  unfolding crash exec_save
  crash-on_raft_state zero cs fs = refl
  crash-on_raft_state (suc k) [] fs = refl
  crash-on_raft_state (suc k) (c ∷ cs) fs = crash-on_raft_state k cs _

  crash-on_snapshot :
      (k : ℕ) (cs : List (FileCall ℕ)) (fs : Files C)
      → crash exec_save k (map on_snapshot cs) fs
        ≡ record fs { snapshot = crash exec k cs fs.snapshot }
  unfolding crash exec_save
  crash-on_snapshot zero cs fs = refl
  crash-on_snapshot (suc k) [] fs = refl
  crash-on_snapshot (suc k) (c ∷ cs) fs = crash-on_snapshot k cs _

  -- A Save that ends behind any of its calls leaves each file whole, with its old or its new
  -- content: the Raft state is the new one from its rename on, and the snapshot from its own.
  pub crash-save_calls :
      (k : ℕ) (raft_state : List (GobValue C)) (snapshot : List ℕ) (fs : Files C)
      → read_disk (crash exec_save k (save_calls raft_state snapshot) fs) ≡ record {
        raft_state =
            if leb (length raft_state + 4) k then raft_state else (read_disk fs).raft_state;
        snapshot =
            if leb (length snapshot + 4) (k - (length raft_state + 4))
            then snapshot
            else (read_disk fs).snapshot;
      }
  unfolding read_disk save_calls
  crash-save_calls k raft_state snapshot fs = rw (
    crash-append exec_save k (map on_raft_state (atomic_write raft_state))
        (map on_snapshot (atomic_write snapshot)) fs,
    calls,
    crash-on_raft_state k (atomic_write raft_state) fs,
    crash-on_snapshot (k - (length raft_state + 4)) (atomic_write snapshot)
        (record fs { raft_state = crash exec k (atomic_write raft_state) fs.raft_state }),
    crash-atomic_write k raft_state fs.raft_state,
    crash-atomic_write (k - (length raft_state + 4)) snapshot fs.snapshot,
    read_if (leb (length raft_state + 4) k) raft_state fs.raft_state.target,
    read_if (leb (length snapshot + 4) (k - (length raft_state + 4))) snapshot fs.snapshot.target,
  )
    where
      calls : length (map on_raft_state (atomic_write raft_state)) ≡ length raft_state + 4
      calls = length-map on_raft_state (atomic_write raft_state) ∙ length-atomic_write raft_state

-- ===== src/Consensus/Applier.antt =====
-- kvraft/internal/raft/raft.go: the applier, one round of its loop at a time.
pub mod Order
use raft_algorithm_thesis.Base.{
  ℕ, ◌+◌, ◌-◌, Option, none, some, List, [], ◌∷◌, map, ltb, leb, if◌then◌else◌, ◌>>=◌, length, take,
  drop,
}
use raft_algorithm_thesis.Consensus.Types.{Entry, ApplyMsg, command_msg, snapshot_msg, Raft}
use raft_algorithm_thesis.Consensus.Log.{get_physical_index}

module _ {C : Type 0} where
  -- `s[lo:hi]`; a bound beyond the length counts as a panic.
  unfoldable pub slice : List (Entry C) → ℕ → ℕ → Option (List (Entry C))
  slice xs lo hi =
      if leb lo hi
      then if leb hi (length xs) then some (take (hi - lo) (drop lo xs)) else none
      else none

  unfoldable pub apply_msg : Entry C → ApplyMsg C
  apply_msg e = command_msg e.command e.index

  -- The round that takes the committed entries from the log.
  unfoldable pub apply_entries : Raft C → Option (Raft C × List (ApplyMsg C))
  apply_entries rf = do
    lo ← get_physical_index rf (rf.last_applied + 1)
    hi ← get_physical_index rf rf.commit_index
    entries ← slice rf.logs lo (hi + 1)
    some (record rf { last_applied = rf.commit_index }, map apply_msg entries)

  -- One round of `applier`: what it sends on applyCh. With nothing to apply it waits.
  unfoldable pub apply_round : Raft C → Option (Raft C × List (ApplyMsg C))
  apply_round rf =
      if leb rf.commit_index rf.last_applied
      then some (rf, [])
      else if ltb rf.last_applied rf.last_included_index
      then some (
        record rf { last_applied = rf.last_included_index },
        snapshot_msg rf.persister.snapshot rf.last_included_term rf.last_included_index ∷ [],
      )
      else apply_entries rf

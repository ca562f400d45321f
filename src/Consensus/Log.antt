-- ===== src/Consensus/Log.antt =====
-- kvraft/internal/raft/raft.go: access to the log, whose entry 0 stands for the last one that the
-- snapshot includes. An access out of range is a panic, `none`.
use raft_algorithm_thesis.Base.{
  ℕ, ◌+◌, ◌-◌, Bool, true, false, ◌||◌, Option, none, some, List, ltb, leb, ◌==◌, if◌then◌else◌,
  ◌>>=◌, length, get_elem?, drop,
}
use raft_algorithm_thesis.Consensus.Types.{Entry, NodeState, leader, Raft}

abbrev pub is_leader : NodeState → Bool
is_leader leader = true
is_leader _ = false

abbrev pub is_candidate : NodeState → Bool
is_candidate NodeState.candidate = true
is_candidate _ = false

module _ {C : Type 0} where
  -- `make([]raft.Entry, 1)[0]`
  abbrev pub zero_entry : Entry C
  zero_entry = record { index = 0; term = 0; command = none }

  -- `s[i:]`, which panics if `i` is beyond the length.
  unfoldable pub slice_from : List (Entry C) → ℕ → Option (List (Entry C))
  slice_from xs i = if leb i (length xs) then some (drop i xs) else none

  unfoldable pub get_len : Raft C → ℕ
  get_len rf = rf.last_included_index + length rf.logs

  -- Where `index < lastIncludedIndex` the source's difference is negative, and its use panics.
  unfoldable pub get_physical_index : Raft C → ℕ → Option ℕ
  get_physical_index rf index =
      if ltb index rf.last_included_index then none else some (index - rf.last_included_index)

  unfoldable pub get_log : Raft C → ℕ → Option (Entry C)
  unfolding get_physical_index
  get_log rf index = do p ← get_physical_index rf index; get_elem? rf.logs p

  unfoldable pub get_last_log : Raft C → Option (Entry C)
  get_last_log rf = if length rf.logs == 0 then none else get_elem? rf.logs (length rf.logs - 1)

  unfoldable pub get_first_log : Raft C → Option (Entry C)
  get_first_log rf = get_elem? rf.logs 0

  unfoldable pub has_entry_at : Raft C → ℕ → ℕ → Option Bool
  has_entry_at rf index term =
      if ltb index rf.last_included_index || leb (get_len rf) index
      then some false
      else do e ← get_log rf index; some (e.term == term)

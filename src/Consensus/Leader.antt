-- ===== src/Consensus/Leader.antt =====
-- kvraft/internal/raft/raft.go and log_replication.go: Start, and replication at the leader.
pub mod Commit
pub mod Replicate
pub mod Broadcast
use raft_algorithm_thesis.Base.{
  ℕ, zero, suc, ◌+◌, ◌-◌, ◌/◌, Bool, false, not, ◌&&◌, ◌||◌, Option, none, some, List, [], ◌∷◌,
  ◌++◌, ltb, leb, ◌==◌, if◌then◌else◌, ◌>>=◌, length, get_elem?, set,
}
use raft_algorithm_thesis.Consensus.Types.{
  Entry, AppendEntriesArgs, AppendEntriesReply, InstallSnapshotArgs, InstallSnapshotReply, Raft,
}
use raft_algorithm_thesis.Consensus.Log.{
  is_leader, slice_from, get_len, get_physical_index, get_log, get_last_log,
}
use raft_algorithm_thesis.Consensus.Storage.{persist}
use raft_algorithm_thesis.Consensus.Vote.{handle_higher_term}

-- What replicateToPeer sends.
pub data Sent (C : Type 0) : Type 0 where
  nothing : Sent C
  append : AppendEntriesArgs C → Sent C
  install : InstallSnapshotArgs → Sent C

-- The nextIndex that resolveConflict chooses; the source's test `lastIdx > 0`.
abbrev pub next_after : Option ℕ → ℕ → ℕ
next_after none conflict_index = conflict_index
next_after (some last) conflict_index = if ltb 0 last then last + 1 else conflict_index

-- A write `xs[i] = v`, which panics out of range.
unfoldable pub write : List ℕ → ℕ → ℕ → Option (List ℕ)
write xs i v = if ltb i (length xs) then some (set xs i v) else none

-- `if v > xs[i] { xs[i] = v }`
unfoldable pub raise : List ℕ → ℕ → ℕ → Option (List ℕ)
raise xs i v = do old ← get_elem? xs i; if ltb old v then write xs i v else some xs

-- The loop of countNodesWithLogAt over matchIndex from position `i` on.
unfoldable pub count_others : ℕ → ℕ → ℕ → List ℕ → ℕ
count_others me index i [] = 0
count_others me index i (m ∷ ms) =
    (if not (i == me) && leb index m then 1 else 0) + count_others me index (i + 1) ms

module _ {C : Type 0} where
  -- `Start`: the index and the term, or `none` for (-1, -1, false).
  unfoldable pub start : Option C → Raft C → Raft C × Option (ℕ × ℕ)
  start command rf =
      if not (is_leader rf.state)
      then (rf, none)
      else (let entry : Entry C = record {
        index = get_len rf;
        term = rf.current_term;
        command = command;
      } in
          (
            persist (record rf { logs = rf.logs ++ entry ∷ [] }),
            some (get_len rf, rf.current_term),
          ))

  -- `needsReplication`
  unfoldable pub needs_replication : ℕ → Raft C → Option Bool
  unfolding get_last_log
  needs_replication peer rf =
      if is_leader rf.state
      then (do m ← get_elem? rf.match_index peer; last ← get_last_log rf; some (ltb m last.index))
      else some false

  -- `genAppendEntriesArgs`
  unfoldable pub gen_append_entries_args : ℕ → Raft C → Option (AppendEntriesArgs C)
  gen_append_entries_args prev_log_index rf = do
    p ← get_physical_index rf prev_log_index
    entries ← slice_from rf.logs (p + 1)
    prev ← get_elem? rf.logs p
    some (record {
      term = rf.current_term;
      leader_id = rf.me;
      prev_log_index = prev_log_index;
      prev_log_term = prev.term;
      entries = entries;
      leader_commit = rf.commit_index;
    })

  -- `genInstallSnapshotArgs`
  unfoldable pub gen_install_snapshot_args : Raft C → InstallSnapshotArgs
  gen_install_snapshot_args rf = record {
    term = rf.current_term;
    leader_id = rf.me;
    last_included_index = rf.last_included_index;
    last_included_term = rf.last_included_term;
    bytes = rf.persister.snapshot;
  }

  -- `replicateToPeer`, up to the call.
  unfoldable pub replicate_to_peer : ℕ → Raft C → Option (Sent C)
  replicate_to_peer peer rf = if not (is_leader rf.state) then some nothing else do
    next ← get_elem? rf.next_index peer
    if leb next rf.last_included_index
        then some (install (gen_install_snapshot_args rf))
        else (do args ← gen_append_entries_args (next - 1) rf; some (append args))

  -- `shouldIgnoreReply`
  unfoldable pub should_ignore_reply : ℕ → ℕ → Raft C → Raft C × Bool
  should_ignore_reply args_term reply_term rf =
      let (rf', is_higher) = handle_higher_term reply_term rf in
      (rf', is_higher || not (is_leader rf'.state) || not (rf'.current_term == args_term))

  -- `findLastIndexOfTerm`, down from an index; `none` is -1.
  unfoldable pub find_last_index_of_term : Raft C → ℕ → ℕ → Option (Option ℕ)
  find_last_index_of_term rf term zero = some none
  find_last_index_of_term rf term (suc i) =
      let rest = find_last_index_of_term rf term i in
      if ltb rf.last_included_index (suc i)
      then (do e ← get_log rf (suc i); if e.term == term then some (some (suc i)) else rest)
      else some none

  unfoldable pub conflict_next :
      Option ℕ → AppendEntriesArgs C → AppendEntriesReply → Raft C → Option ℕ
  conflict_next none args reply rf = some reply.conflict_index
  conflict_next (some term) args reply rf = do
    last ← find_last_index_of_term rf term args.prev_log_index
    some (next_after last reply.conflict_index)

  -- `resolveConflict`
  unfoldable pub resolve_conflict :
      ℕ → AppendEntriesArgs C → AppendEntriesReply → Raft C → Option (Raft C)
  resolve_conflict peer args reply rf =
      if ltb args.prev_log_index rf.last_included_index then some rf else do
        next ← conflict_next reply.conflict_term args reply rf
        nexts ← write rf.next_index peer next
        some (record rf { next_index = nexts })

  -- `advancePeerIndices`
  unfoldable pub advance_peer_indices : ℕ → AppendEntriesArgs C → Raft C → Option (Raft C)
  advance_peer_indices peer args rf = do
    let new_match = args.prev_log_index + length args.entries
    old ← get_elem? rf.match_index peer
    if ltb old new_match
        then (do
          matches ← write rf.match_index peer new_match
          nexts ← write rf.next_index peer (new_match + 1)
          some (record rf { match_index = matches; next_index = nexts }))
        else some rf

  -- `countNodesWithLogAt`
  unfoldable pub count_nodes_with_log_at : ℕ → Raft C → ℕ
  count_nodes_with_log_at index rf = 1 + count_others rf.me index 0 rf.match_index

  unfoldable pub commits_at : Raft C → ℕ → Entry C → Bool
  commits_at rf n e = e.term == rf.current_term && ltb (rf.peers / 2) (count_nodes_with_log_at n rf)

  -- The loop of updateCommitIndex, down from `n`: the commit index after it.
  unfoldable pub find_commit : Raft C → ℕ → Option ℕ
  find_commit rf zero = some rf.commit_index
  find_commit rf (suc n) =
      let rest = find_commit rf n in
      if ltb rf.commit_index (suc n)
      then (do e ← get_log rf (suc n); if commits_at rf (suc n) e then some (suc n) else rest)
      else some rf.commit_index

  -- `updateCommitIndex`
  unfoldable pub update_commit_index : Raft C → Option (Raft C)
  update_commit_index rf = do
    n ← find_commit rf (get_len rf - 1)
    some (record rf { commit_index = n })

  -- `handleAppendEntriesReply`
  unfoldable pub handle_append_entries_reply :
      ℕ → AppendEntriesArgs C → AppendEntriesReply → Raft C → Option (Raft C)
  handle_append_entries_reply peer args reply rf =
      let (rf', ignored) = should_ignore_reply args.term reply.term rf in
      if ignored
      then some rf'
      else if not reply.success
      then resolve_conflict peer args reply rf'
      else do advanced ← advance_peer_indices peer args rf'; update_commit_index advanced

  -- `handleInstallSnapshotReply`
  unfoldable pub handle_install_snapshot_reply :
      ℕ → InstallSnapshotArgs → InstallSnapshotReply → Raft C → Option (Raft C)
  handle_install_snapshot_reply peer args reply rf =
      let (rf', is_higher) = handle_higher_term reply.term rf in
      if is_higher
      then some rf'
      else if is_leader rf'.state && (rf'.current_term == args.term)
      then (do
        nexts ← raise rf'.next_index peer (args.last_included_index + 1)
        matches ← raise rf'.match_index peer args.last_included_index
        some (record rf' { next_index = nexts; match_index = matches }))
      else some rf'

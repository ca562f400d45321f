-- ===== src/Consensus/Append.antt =====
-- kvraft/internal/raft/log_replication.go: AppendEntries, at the follower.
pub mod Conflict
pub mod Accept
pub mod Safety
pub mod Preserve
use raft_algorithm_thesis.Base.{
  ℕ, zero, suc, ◌+◌, ◌-◌, true, false, Option, none, some, List, [], ◌∷◌, ◌++◌, ltb, leb, ◌==◌,
  if◌then◌else◌, ◌>>=◌, take,
}
use raft_algorithm_thesis.Consensus.Types.{
  Entry, AppendEntriesArgs, AppendEntriesReply, Raft, NodeState,
}
use raft_algorithm_thesis.Consensus.Log.{get_len, get_log, has_entry_at}
use raft_algorithm_thesis.Consensus.Storage.{persist}

module _ {C : Type 0} where
  -- The loop of handleConsistencyConflict: down from an index while its entry has the term.
  unfoldable pub scan_conflict : Raft C → ℕ → ℕ → Option ℕ
  scan_conflict rf term zero = some 0
  scan_conflict rf term (suc i) =
      let rest = scan_conflict rf term i in
      if ltb rf.last_included_index (suc i)
      then (do e ← get_log rf (suc i); if e.term == term then rest else some (suc i))
      else some (suc i)

  -- `handleConsistencyConflict`: `none` where it returns false, the reply where it returns true.
  unfoldable pub handle_consistency_conflict :
      AppendEntriesArgs C → AppendEntriesReply → Raft C → Option (Option AppendEntriesReply)
  handle_consistency_conflict args reply rf =
      if ltb args.prev_log_index rf.last_included_index
      then some (
          some (record reply { conflict_index = rf.last_included_index + 1; conflict_term = none }))
      else (do
        matches ← has_entry_at rf args.prev_log_index args.prev_log_term
        if matches
            then some none
            else (if leb (get_len rf) args.prev_log_index
                then some
                    (some (record reply { conflict_index = get_len rf; conflict_term = none }))
                else (do
                  e ← get_log rf args.prev_log_index
                  index ← scan_conflict rf e.term args.prev_log_index
                  some (
                      some (record reply {
                        conflict_index = index + 1;
                        conflict_term = some e.term;
                      })))))

  -- `appendNewEntries`: the loop over the entries not yet looked at.
  unfoldable pub append_new_entries : List (Entry C) → Raft C → Option (Raft C)
  append_new_entries [] rf = some rf
  append_new_entries (e ∷ es) rf =
      let rest = append_new_entries es rf in
      if ltb e.index (get_len rf)
      then (do
        old ← get_log rf e.index
        if old.term == e.term
            then rest
            else some
                (record rf { logs = take (e.index - rf.last_included_index) rf.logs ++ (e ∷ es) }))
      else some (record rf { logs = rf.logs ++ (e ∷ es) })

  -- `advanceCommitIndex`
  unfoldable pub advance_commit_index : ℕ → Raft C → Raft C
  advance_commit_index leader_commit rf =
      if ltb rf.commit_index leader_commit
      then (let last_index = get_len rf - 1 in
          record rf {
            commit_index = if ltb leader_commit last_index then leader_commit else last_index;
          })
      else rf

  -- A current leader is known: its term, and the state of a follower.
  unfoldable pub follow : AppendEntriesArgs C → Raft C → Raft C
  follow args rf = record rf {
    current_term = if ltb rf.current_term args.term then args.term else rf.current_term;
    voted_for = if ltb rf.current_term args.term then none else rf.voted_for;
    current_leader = some args.leader_id;
    state = NodeState.follower;
  }

  unfoldable pub accept_entries : AppendEntriesArgs C → Raft C → Option (Raft C)
  accept_entries args rf = do
    appended ← append_new_entries args.entries rf
    some (advance_commit_index args.leader_commit appended)

  -- What follows the consistency check, the deferred persist included.
  unfoldable pub finish_append :
      AppendEntriesArgs C
      → AppendEntriesReply
      → Raft C
      → Option AppendEntriesReply
      → Option (Raft C × AppendEntriesReply)
  finish_append args reply followed (some refused) = some (persist followed, refused)
  finish_append args reply followed none = do
    accepted ← accept_entries args followed
    some (persist accepted, record reply { success = true })

  -- `AppendEntries`; the deferred persist runs last.
  unfoldable pub append_entries :
      AppendEntriesArgs C → Raft C → Option (Raft C × AppendEntriesReply)
  append_entries args rf =
      let reply : AppendEntriesReply = record {
        term = rf.current_term;
        success = false;
        conflict_index = 0;
        conflict_term = some 0;
      } in
      if ltb args.term rf.current_term then some (rf, reply) else do
        let followed = follow args rf
        conflict ← handle_consistency_conflict args reply followed
        finish_append args reply followed conflict

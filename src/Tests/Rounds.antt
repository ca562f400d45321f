-- ===== src/Tests/Rounds.antt =====
-- A leader that starts too far up in a follower's log.
use raft_algorithm_thesis.Base.{false, ℕ, ◌≡◌, ◌≤◌, ◌+◌, refl, sym, ◌∙◌, some, [], ◌∷◌}
use raft_algorithm_thesis.Consensus.Types.{Raft, AppendEntriesArgs, AppendEntriesReply}
use raft_algorithm_thesis.Consensus.Log.{
  get_len, get_log, has_entry_at, get_physical_index, slice_from,
}
use raft_algorithm_thesis.Consensus.Storage.{persist, encode_state}
use raft_algorithm_thesis.Consensus.Vote.{handle_higher_term}
use raft_algorithm_thesis.Consensus.Append.{
  append_entries, handle_consistency_conflict, scan_conflict, follow, finish_append,
}
use raft_algorithm_thesis.Consensus.Leader.{
  append, replicate_to_peer, gen_append_entries_args, should_ignore_reply, resolve_conflict,
  conflict_next, find_last_index_of_term, write, handle_append_entries_reply,
}
use raft_algorithm_thesis.Consensus.Backtrack.{Refused, no_more, again}
use raft_algorithm_thesis.Consensus.Backtrack.Rounds.{Agrees}
use raft_algorithm_thesis.Consensus.Backtrack.Bound.{Refusals-le}
use raft_algorithm_thesis.Tests.Data.{entry, leading, following, follower_logs, disk, anchor}
use raft_algorithm_thesis.Tests.Logs.{following-IsWellFormed}

abbrev eager : Raft ℕ
eager = record leading { next_index = 4 ∷ 3 ∷ 4 ∷ [] }

abbrev too_high : AppendEntriesArgs ℕ
too_high = record {
  term = 2;
  leader_id = 0;
  prev_log_index = 2;
  prev_log_term = 2;
  entries = entry 3 2 9 ∷ [];
  leader_commit = 1;
}

abbrev hint : AppendEntriesReply
hint = record { term = 1; success = false; conflict_index = 1; conflict_term = some 1 }

abbrev refusing : Raft ℕ
refusing = record following {
  persister = disk 2 follower_logs;
  current_term = 2;
  current_leader = some 0;
}

sends_high : replicate_to_peer 1 eager ≡ some (append too_high)
unfolding replicate_to_peer gen_append_entries_args get_physical_index slice_from
sends_high = refl

refuses_high : append_entries too_high following ≡ some (refusing, hint)
unfolding append_entries handle_consistency_conflict has_entry_at scan_conflict get_len get_log
    follow finish_append persist encode_state
refuses_high = refl

goes_back : handle_append_entries_reply 1 too_high hint eager ≡ some leading
unfolding handle_append_entries_reply should_ignore_reply handle_higher_term resolve_conflict
    conflict_next find_last_index_of_term get_log write
goes_back = refl

refused : Refused 1 eager following leading refusing
refused = record {
  args = too_high;
  reply = hint;
  sent = sends_high;
  answered = refuses_high;
  denied = refl;
  handled = goes_back;
}

eager-Agrees : Agrees eager following
unfolding get_log
eager-Agrees t u (e, q, h) (d, r, k) =
    let at_lf : some anchor ≡ some e = q in
    let at_rf : some anchor ≡ some d = r in let same : e.term ≡ d.term = cc in sym h ∙ same ∙ k

Refusals-le_example : 1 ≤ 3 + 2
Refusals-le_example =
    Refusals-le 1 1 3 eager following following-IsWellFormed eager-Agrees refl
      (again refused no_more)

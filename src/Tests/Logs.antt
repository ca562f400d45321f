-- ===== src/Tests/Logs.antt =====
-- The log: replication, commitment, application.
use raft_algorithm_thesis.Base.{◌≡◌, refl, true, some, arith, Returns, take, drop, ◌++◌, ◌-◌, ◌≤◌}
use raft_algorithm_thesis.Consensus.Types.{AppendEntriesReply}
use raft_algorithm_thesis.Consensus.Log.{
  get_len, get_log, has_entry_at, get_physical_index, slice_from,
}
use raft_algorithm_thesis.Consensus.Storage.{persist, encode_state}
use raft_algorithm_thesis.Consensus.Append.{
  append_entries, append_new_entries, handle_consistency_conflict, follow, finish_append,
  accept_entries, advance_commit_index,
}
use raft_algorithm_thesis.Consensus.Append.Accept
use raft_algorithm_thesis.Consensus.Append.Accept.{append_entries_cases}
use raft_algorithm_thesis.Consensus.Append.Conflict
use raft_algorithm_thesis.Consensus.Append.Conflict.{handle_consistency_conflict_cases}
use raft_algorithm_thesis.Consensus.Append.Safety.{Replicated, append_entries-Replicated}
use raft_algorithm_thesis.Consensus.Append.Preserve.{append_entries-IsWellFormed}
use raft_algorithm_thesis.Consensus.Invariant.{IsWellFormed, HasTerm}
use raft_algorithm_thesis.Consensus.Matching.{merge, append_new_entries-merge}
use raft_algorithm_thesis.Consensus.Leader.{
  append, replicate_to_peer, gen_append_entries_args, update_commit_index,
}
use raft_algorithm_thesis.Consensus.Leader.Replicate.{replicate-append_entries}
use raft_algorithm_thesis.Consensus.Leader.Commit.{
  IsLastReplicated, update_commit_index-IsLastReplicated,
}
use raft_algorithm_thesis.Consensus.Applier.{apply_round}
use raft_algorithm_thesis.Consensus.Applier.Order.{Applies, apply_round-Applies}
use raft_algorithm_thesis.Tests.Data.{entry, leading, following, request, refusal, followed}

pub leading-IsWellFormed : IsWellFormed leading
leading-IsWellFormed = record {
  contiguous = (refl, (refl, (refl, (refl, tt))));
  nonempty = omega arith;
  anchored = omega arith;
  committed = omega arith;
  applied = omega arith;
  member = omega arith;
  nexts = refl;
  matches = refl;
}

pub following-IsWellFormed : IsWellFormed following
following-IsWellFormed = record {
  contiguous = (refl, (refl, (refl, tt)));
  nonempty = omega arith;
  anchored = omega arith;
  committed = omega arith;
  applied = omega arith;
  member = omega arith;
  nexts = refl;
  matches = refl;
}

-- Tests: the request, and the answer.
sends : replicate_to_peer 1 leading ≡ some (append request)
unfolding replicate_to_peer gen_append_entries_args get_physical_index slice_from
sends = refl

abbrev pub accepted_reply : AppendEntriesReply
accepted_reply = record refusal { success = true }

pub accepts : append_entries request following ≡ some (followed, accepted_reply)
unfolding append_entries handle_consistency_conflict has_entry_at get_len get_log follow
    finish_append accept_entries append_new_entries advance_commit_index persist encode_state
accepts = refl

get_log_three : get_log leading 3 ≡ some (entry 3 2 9)
unfolding get_log
get_log_three = refl

replicate-append_entries_example : HasTerm followed 3 2 × (1 ≤ 3)
replicate-append_entries_example =
    replicate-append_entries leading following 1 {args = request} {rf' = followed}
      {reply = accepted_reply} leading-IsWellFormed following-IsWellFormed sends accepts refl 3
      (entry 3 2 9) (omega arith) get_log_three

append_entries-Replicated_example : Replicated request following followed
append_entries-Replicated_example =
    append_entries-Replicated request following {rf' = followed} {reply = accepted_reply}
      following-IsWellFormed (refl, (refl, tt)) accepts refl

append_entries-IsWellFormed_example : IsWellFormed followed
append_entries-IsWellFormed_example =
    append_entries-IsWellFormed request following {rf' = followed} {reply = accepted_reply}
      following-IsWellFormed (refl, (refl, tt)) tt accepts

append_entries_cases_example : Accept.Outcome request following
append_entries_cases_example =
    append_entries_cases request following following-IsWellFormed (refl, (refl, tt))

handle_consistency_conflict_cases_example :
    Conflict.Outcome leading-IsWellFormed
      (record request { prev_log_index = 3 })
      refusal
      (handle_consistency_conflict (record request { prev_log_index = 3 }) refusal leading)
handle_consistency_conflict_cases_example =
    handle_consistency_conflict_cases leading-IsWellFormed (record request { prev_log_index = 3 })
      refusal

append_new_entries-merge_example :
    append_new_entries request.entries following
    ≡ some (record following {
      logs = take 2 following.logs ++ merge (drop 2 following.logs) request.entries;
    })
append_new_entries-merge_example =
    append_new_entries-merge request.entries following 2 (refl, (refl, tt)) (omega arith)

update_commit_index-IsLastReplicated_example :
    Returns
      (λ rf'.
        IsLastReplicated leading (get_len leading - 1) rf'.commit_index
        × (rf' ≡ record leading { commit_index = rf'.commit_index }))
      (update_commit_index leading)
update_commit_index-IsLastReplicated_example =
    update_commit_index-IsLastReplicated leading leading-IsWellFormed

apply_round-Applies_example : Returns (Applies leading) (apply_round leading)
apply_round-Applies_example = apply_round-Applies leading leading-IsWellFormed

-- ===== src/Transport/Calls.antt =====
-- kvraft/raftransport/client.go and service.go: the three RPCs between nodes, at the caller and at
-- the node that serves them.
pub mod Remote
use raft_algorithm_thesis.Base.{
  ℕ, ◌+◌, ◌-◌, ◌<◌, ◌^◌, ◌≡◌, refl, Bool, true, false, Option, none, some, List, [], ◌∷◌,
  if◌then◌else◌, ◌>>=◌, arith, All,
}
use raft_algorithm_thesis.Consensus.Types.{
  Entry, RequestVoteArgs, RequestVoteReply, AppendEntriesArgs, AppendEntriesReply,
  InstallSnapshotArgs, InstallSnapshotReply, Raft,
}
use raft_algorithm_thesis.Consensus.Vote.{request_vote}
use raft_algorithm_thesis.Consensus.Append.{append_entries}
use raft_algorithm_thesis.Consensus.Storage.{install_snapshot}
use raft_algorithm_thesis.Transport.Codec.{
  ℤ, pos, int32, of_id, to_ℕ, to_id, Gob, LogEntry, FitsId, FitsEntry, entries_to_proto,
  entries_from_proto, entries_from_proto-entries_to_proto, int32_small, int32_id,
}

-- The messages of package kvpb.
pub record PbRequestVoteArgs : Type 0 where
  pub term : ℤ
  pub candidate_id : ℤ
  pub last_log_term : ℤ
  pub last_log_index : ℤ

pub record PbRequestVoteReply : Type 0 where
  pub term : ℤ
  pub vote_granted : Bool

pub record PbAppendEntriesArgs : Type 0 where
  pub term : ℤ
  pub leader_id : ℤ
  pub prev_log_index : ℤ
  pub prev_log_term : ℤ
  pub entries : List LogEntry
  pub leader_commit : ℤ

pub record PbAppendEntriesReply : Type 0 where
  pub term : ℤ
  pub success : Bool
  pub conflict_index : ℤ
  pub conflict_term : ℤ

pub record PbInstallSnapshotArgs : Type 0 where
  pub term : ℤ
  pub leader_id : ℤ
  pub last_included_index : ℤ
  pub last_included_term : ℤ
  pub bytes : List ℕ

pub record PbInstallSnapshotReply : Type 0 where
  pub term : ℤ

abbrev pub wire : ℕ → ℤ
wire n = int32 (pos n)

-- `Call("Raft.RequestVote", …)`: the request that is sent, and what becomes of the answer.
unfoldable pub send_request_vote : RequestVoteArgs → PbRequestVoteArgs
send_request_vote a = record {
  term = wire a.term;
  candidate_id = wire a.candidate_id;
  last_log_term = wire a.last_log_term;
  last_log_index = wire a.last_log_index;
}

unfoldable pub receive_request_vote : PbRequestVoteReply → Option RequestVoteReply
receive_request_vote res = do
  term ← to_ℕ res.term
  some (record { term = term; vote_granted = res.vote_granted })

unfoldable pub receive_append_entries : PbAppendEntriesReply → Option AppendEntriesReply
receive_append_entries res = do
  term ← to_ℕ res.term
  conflict_index ← to_ℕ res.conflict_index
  conflict_term ← to_id res.conflict_term
  some (record {
    term = term;
    success = res.success;
    conflict_index = conflict_index;
    conflict_term = conflict_term;
  })

unfoldable pub send_install_snapshot : InstallSnapshotArgs → PbInstallSnapshotArgs
send_install_snapshot a = record {
  term = wire a.term;
  leader_id = wire a.leader_id;
  last_included_index = wire a.last_included_index;
  last_included_term = wire a.last_included_term;
  bytes = a.bytes;
}

unfoldable pub receive_install_snapshot : PbInstallSnapshotReply → Option InstallSnapshotReply
receive_install_snapshot res = do term ← to_ℕ res.term; some (record { term = term })

-- The replies as the service sends them.
unfoldable pub reply_request_vote : RequestVoteReply → PbRequestVoteReply
reply_request_vote reply = record { term = wire reply.term; vote_granted = reply.vote_granted }

unfoldable pub reply_append_entries : AppendEntriesReply → PbAppendEntriesReply
reply_append_entries reply = record {
  term = wire reply.term;
  success = reply.success;
  conflict_index = wire reply.conflict_index;
  conflict_term = int32 (of_id reply.conflict_term);
}

module _ {C : Type 0} where
  -- `RaftService.RequestVote`
  unfoldable pub serve_request_vote :
      PbRequestVoteArgs → Raft C → Option (Raft C × PbRequestVoteReply)
  serve_request_vote req rf = do
    term ← to_ℕ req.term
    candidate_id ← to_ℕ req.candidate_id
    last_log_term ← to_ℕ req.last_log_term
    last_log_index ← to_ℕ req.last_log_index
    (rf', reply) ←
        request_vote
          (record {
            term = term;
            candidate_id = candidate_id;
            last_log_term = last_log_term;
            last_log_index = last_log_index;
          })
          rf
    some (rf', reply_request_vote reply)

  -- `RaftService.InstallSnapshot`
  unfoldable pub serve_install_snapshot :
      PbInstallSnapshotArgs → Raft C → Option (Raft C × PbInstallSnapshotReply)
  serve_install_snapshot req rf = do
    term ← to_ℕ req.term
    leader_id ← to_ℕ req.leader_id
    last_included_index ← to_ℕ req.last_included_index
    last_included_term ← to_ℕ req.last_included_term
    (rf', reply) ←
        install_snapshot
          (record {
            term = term;
            leader_id = leader_id;
            last_included_index = last_included_index;
            last_included_term = last_included_term;
            bytes = req.bytes;
          })
          rf
    some (rf', record { term = wire reply.term })

module _ {C : Type 0} (gob : Gob C) where
  -- The request of `Call("Raft.AppendEntries", …)`; where the entries cannot be encoded, Call
  -- returns false.
  unfoldable pub send_append_entries : AppendEntriesArgs C → Option PbAppendEntriesArgs
  send_append_entries a = do
    entries ← entries_to_proto gob a.entries
    some (record {
      term = wire a.term;
      leader_id = wire a.leader_id;
      prev_log_index = wire a.prev_log_index;
      prev_log_term = wire a.prev_log_term;
      entries = entries;
      leader_commit = wire a.leader_commit;
    })

  -- entriesFromProto returns no error.
  unfoldable pub decodes : List LogEntry → Bool
  decodes [] = true
  decodes (e ∷ es) = elim (gob.decode e.command) [ none ↦ false | some command ↦ decodes es ]

  -- `RaftService.AppendEntries`; entries that cannot be decoded are answered with the node's term.
  unfoldable pub serve_append_entries :
      PbAppendEntriesArgs → Raft C → Option (Raft C × PbAppendEntriesReply)
  serve_append_entries req rf =
      if decodes req.entries
      then (do
        entries ← entries_from_proto gob req.entries
        term ← to_ℕ req.term
        leader_id ← to_ℕ req.leader_id
        prev_log_index ← to_ℕ req.prev_log_index
        prev_log_term ← to_ℕ req.prev_log_term
        leader_commit ← to_ℕ req.leader_commit
        (rf', reply) ←
            append_entries
              (record {
                term = term;
                leader_id = leader_id;
                prev_log_index = prev_log_index;
                prev_log_term = prev_log_term;
                entries = entries;
                leader_commit = leader_commit;
              })
              rf
        some (rf', reply_append_entries reply))
      else some (
        rf,
        record {
          term = wire rf.current_term;
          success = false;
          conflict_index = pos 0;
          conflict_term = pos 0;
        },
      )

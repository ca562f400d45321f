-- ===== src/Kv/Rsm.antt =====
-- kvraft/internal/rsm/rsm.go: the requests that wait for the log, and the messages that wake them.
-- Raft and the state machine are the interfaces that the source has; what `rf.State()`,
-- `rf.PersistBytes()` and `rf.Leader()` return at a call is an argument.
pub mod Entries
pub mod Notify
pub mod Replay
pub mod Process
pub mod Jam
pub mod Deadlock
pub mod Answers
pub mod Applied
use raft_algorithm_thesis.Base.{
  ℕ, ◌+◌, ◌≡◌, refl, Bool, true, false, not, ◌&&◌, ◌||◌, Option, none, some, List, [], ◌∷◌, ◌++◌,
  ltb, leb, ◌==◌, if◌then◌else◌,
}
use raft_algorithm_thesis.Consensus.Types.{ApplyMsg, command_msg, snapshot_msg}
use raft_algorithm_thesis.Kv.Api.{Err, ok, err_wrong_leader}

-- `sm.Op`, without the node that sent it, which nothing reads. An id is randValue's int64 as one of
-- 2^64 numbers; the -1 of a failed result is none of them.
pub record Op (Req : Type 0) : Type 0 where
  pub id : ℕ
  pub req : Req

-- `sm.StateMachine` over its state; Restore is `none` where it fails, and the process ends.
pub record StateMachine (Req Val S : Type 0) : Type 0 where
  pub do_op : Req → S → S × Val
  pub snapshot : S → List ℕ
  pub restore : List ℕ → S → Option S

-- `pendingEntry`; its channel is named by the index and the id.
pub record Pending : Type 0 where
  pub index : ℕ
  pub id : ℕ
  pub term : ℕ

-- What is sent on a pending entry's channel, which the index and the id name: a result with an id
-- and a value, or `result{id: -1}`.
pub data Wake (Val : Type 0) : Type 0 where
  done : (index id result_id : ℕ) → Val → Wake Val
  failed : (index id : ℕ) → Wake Val

-- The channel that a message goes to, by the entry's index and id.
abbrev pub wake_index : {Val : Type 0} → Wake Val → ℕ
wake_index (done index id result_id val) = index
wake_index (failed index id) = index

abbrev pub wake_id : {Val : Type 0} → Wake Val → ℕ
wake_id (done index id result_id val) = id
wake_id (failed index id) = id

-- `RSM`
pub record Rsm (S : Type 0) : Type 0 where
  pub sm : S
  pub pending : List Pending
  pub last_applied : ℕ

-- The map `pending`: an index has one entry at most.
unfoldable pub delete : ℕ → List Pending → List Pending
delete index [] = []
delete index (p ∷ ps) = if p.index == index then delete index ps else p ∷ delete index ps

unfoldable pub find : ℕ → List Pending → Option Pending
find index [] = none
find index (p ∷ ps) = if p.index == index then some p else find index ps

-- `rsm.pending[index] = …`
unfoldable pub put : Pending → List Pending → List Pending
unfolding delete
put p ps = p ∷ delete p.index ps

-- The test of notifyOutdated.
unfoldable pub is_outdated : ℕ → ℕ → Bool → Pending → Bool
is_outdated index term is_leader p = leb p.index index || not is_leader || not (p.term == term)

module _ {Val : Type 0} where
  -- `notifyOutdated`: the entries that stay, and the messages to the others.
  unfoldable pub notify_outdated : ℕ → ℕ → Bool → List Pending → List Pending × List (Wake Val)
  notify_outdated index term is_leader [] = ([], [])
  notify_outdated index term is_leader (p ∷ ps) =
      let rest = notify_outdated index term is_leader ps in
      if is_outdated index term is_leader p
      then (rest.0, failed p.index p.id ∷ rest.1)
      else (p ∷ rest.0, rest.1)

  unfoldable pub answer_entry : ℕ → Bool → Val → Pending → Wake Val
  answer_entry id leads val p =
      if leads && (p.id == id) then done p.index p.id id val else failed p.index p.id

  -- notifyPending, once the entry at the index is looked up.
  unfoldable pub notify_found :
      ℕ → ℕ → Val → Bool → ℕ → Bool → List Pending → Option Pending → List Pending × List (Wake Val)
  notify_found index id val leads term is_leader ps none = notify_outdated index term is_leader ps
  notify_found index id val leads term is_leader ps (some p) =
      let rest = notify_outdated index term is_leader (delete index ps) in
      (rest.0, answer_entry id leads val p ∷ rest.1)

  -- `notifyPending`; `leads` is what its own `rf.State()` says of leadership, and the term and
  -- `is_leader` what the one of notifyOutdated says.
  unfoldable pub notify_pending :
      ℕ → ℕ → Val → Bool → ℕ → Bool → List Pending → List Pending × List (Wake Val)
  notify_pending index id val leads term is_leader ps =
      notify_found index id val leads term is_leader ps (find index ps)

-- checkSnapshot's test; a limit of -1 is `none`.
unfoldable pub wants_snapshot : Option ℕ → ℕ → Bool
wants_snapshot none persist_bytes = false
wants_snapshot (some limit) persist_bytes = leb limit persist_bytes

-- A call `rf.Snapshot(index, snapshot)`.
pub record SnapshotCall : Type 0 where
  pub index : ℕ
  pub bytes : List ℕ

-- What handleCommand does beside its new state.
pub record Effects (Val : Type 0) : Type 0 where
  pub wakes : List (Wake Val)
  pub snapshot_call : Option SnapshotCall

module _ {Req Val S : Type 0} (machine : StateMachine Req Val S) where
  -- `checkSnapshot`
  unfoldable pub check_snapshot : Option ℕ → ℕ → ℕ → S → Option SnapshotCall
  check_snapshot max_raft_state persist_bytes index sm =
      if wants_snapshot max_raft_state persist_bytes
      then some (record { index = index; bytes = machine.snapshot sm })
      else none

  -- `handleCommand`, for an Op, if all its sends are received; Raft's answers are those while it
  -- notifies.
  unfoldable pub handle_command :
      Option ℕ → ℕ → (leads : Bool) → ℕ → Bool → ℕ → Op Req → Rsm S → Rsm S × Effects Val
  handle_command max_raft_state persist_bytes leads term is_leader index op rsm =
      if leb index rsm.last_applied
      then (rsm, record { wakes = []; snapshot_call = none })
      else (let after = machine.do_op op.req rsm.sm in
          let notified = notify_pending index op.id after.1 leads term is_leader rsm.pending in
          (
            record { sm = after.0; pending = notified.0; last_applied = index },
            record {
              wakes = notified.1;
              snapshot_call = check_snapshot max_raft_state persist_bytes index after.0;
            },
          ))

  -- `handleSnapshot`, if all its sends are received; `none` where Restore fails.
  unfoldable pub handle_snapshot : ℕ → Bool → List ℕ → ℕ → Rsm S → Option (Rsm S × List (Wake Val))
  handle_snapshot term is_leader bytes index rsm = elim (machine.restore bytes rsm.sm) [
    | none ↦ none
    | some sm ↦
        (let notified = notify_outdated {Val = Val} index term is_leader rsm.pending in
          some (record { sm = sm; pending = notified.0; last_applied = index }, notified.1))
  ]

module _ {Req Val S : Type 0} (machine : StateMachine Req Val S) where
  -- `MakeRSM`, over what the persister has for a snapshot; `none` where Restore fails.
  unfoldable pub make_rsm : List ℕ → S → Option (Rsm S)
  make_rsm [] sm = some (record { sm = sm; pending = []; last_applied = 0 })
  make_rsm (b ∷ bytes) sm = elim (machine.restore (b ∷ bytes) sm) [
    | none ↦ none
    | some restored ↦ some (record { sm = restored; pending = []; last_applied = 0 })
  ]

-- `cleanup`: no entry is left, and the channels of all that were there are closed.
unfoldable pub cleanup : {S : Type 0} → Rsm S → Rsm S × List Pending
cleanup rsm = (record rsm { pending = [] }, rsm.pending)

-- What Submit defers to its end.
unfoldable pub submit_end : ℕ → List Pending → List Pending
unfolding delete
submit_end index pending = delete index pending

-- Submit before it waits: the pending entry, or the answer that this node does not lead. `Start`
-- has returned `started`.
unfoldable pub submit_start : ℕ → Option (ℕ × ℕ) → List Pending → Option (List Pending)
submit_start id none pending = none
submit_start id (some (index, term)) pending =
    some (put (record { index = index; id = id; term = term }) pending)

-- How Submit's wait ends: a message, a closed channel, or the time-out.
pub data Ending (Val : Type 0) : Type 0 where
  got : Val → Ending Val
  got_other closed timed_out : Ending Val

-- What Submit returns: OK with the value, or ErrWrongLeader with the leader that Raft then names.
unfoldable pub submit_result : {Val : Type 0} → Ending Val → Err × Option Val
submit_result (got val) = (ok, some val)
submit_result _ = (err_wrong_leader, none)

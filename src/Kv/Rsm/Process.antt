-- ===== src/Kv/Rsm/Process.antt =====
-- rsm.go: Submit and the reader at work at the same time. rsm.mu is held over more than one step by
-- the reader alone, while it sends on the channels of pending entries; a channel is unbuffered, so a
-- send is one step with the Submit that receives.
use mathlib.Core.List.{Perm}
use raft_algorithm_thesis.Base.{
  ◌==◌, ℕ, ◌≡◌, Bool, true, false, none, some, List, [], ◌∷◌, leb, if◌then◌else◌, put_at, IsAmong,
}
use raft_algorithm_thesis.Consensus.Types.{ApplyMsg, command_msg, snapshot_msg}
use raft_algorithm_thesis.Kv.Rsm.{
  wake_index, wake_id, Op, StateMachine, Pending, Wake, done, failed, Rsm, Ending, got, got_other,
  closed, timed_out, notify_pending, handle_snapshot, submit_start, submit_end, cleanup,
}

-- `reader`: between messages, in handleCommand before and behind DoOp, sending with rsm.mu held, or
-- at its end.
pub data Reader (Req Val : Type 0) : Type 0 where
  idle : Reader Req Val
  applying : (index : ℕ) → Op Req → Reader Req Val
  applied : (index id : ℕ) → Val → Reader Req Val
  sending : List (Wake Val) → Reader Req Val
  stopped : Reader Req Val

-- A call of Submit: before it, in its select, in the select's time-out, before the deferred
-- function, and at its end.
pub data Call (Val : Type 0) : Type 0 where
  calling : Call Val
  waiting : (index id : ℕ) → Call Val
  expired : (index id : ℕ) → Call Val
  leaving : (index id : ℕ) → Ending Val → Call Val
  returned : (index id : ℕ) → Ending Val → Call Val
  refused : Call Val

-- A command that the state machine has executed, and its result.
pub record Executed (Val : Type 0) : Type 0 where
  pub index : ℕ
  pub id : ℕ
  pub val : Val

-- The RSM with its goroutines, the channels that cleanup has closed, the commands executed, and the
-- messages that the reader has received, the last one first.
pub record System (Req Val S : Type 0) : Type 0 where
  pub rsm : Rsm S
  pub reader : Reader Req Val
  pub calls : ℕ → Call Val
  pub shut : List Pending
  pub executed : List (Executed Val)
  pub received : List (ApplyMsg (Op Req))

-- Whether the reader holds rsm.mu.
abbrev pub holds_mu : {Req Val : Type 0} → Reader Req Val → Bool
holds_mu (sending wakes) = true
holds_mu _ = false

-- How the select of the Submit with an id ends with a message: it tells its own result by the id.
abbrev pub ending_of : {Val : Type 0} → ℕ → Wake Val → Ending Val
ending_of own (done index id result_id val) = if result_id == own then got val else got_other
ending_of own (failed index id) = got_other

module _ {Req Val S : Type 0} where
  -- handleCommand up to its call of DoOp.
  unfoldable pub take_command : ℕ → Op Req → Rsm S → Rsm S × Reader Req Val
  take_command index op rsm =
      if leb index rsm.last_applied
      then (rsm, idle)
      else (record rsm { last_applied = index }, applying index op)

module _ {Req Val S : Type 0} (machine : StateMachine Req Val S) where
  -- One step of the reader or of one call; what Raft answers is free, and so is the order in which a
  -- `range` goes over the map of the pending entries, `ps`.
  pub data Turn (s s' : System Req Val S) : Type 0 where
    submits :
        (j id index term : ℕ) (pending : List Pending)
        → s.calls j ≡ calling
        → holds_mu s.reader ≡ false
        → submit_start id (some (index, term)) s.rsm.pending ≡ some pending
        → s' ≡ record s {
          rsm = record s.rsm { pending = pending };
          calls = put_at j (waiting index id) s.calls;
        }
        → Turn s s'
    refuses :
        (j id : ℕ)
        → s.calls j ≡ calling
        → holds_mu s.reader ≡ false
        → submit_start id none s.rsm.pending ≡ none
        → s' ≡ record s { calls = put_at j refused s.calls }
        → Turn s s'
    expires :
        (j index id : ℕ)
        → s.calls j ≡ waiting index id
        → s' ≡ record s { calls = put_at j (expired index id) s.calls }
        → Turn s s'
    -- The time-out's own section under rsm.mu, for its log line.
    dumps :
        (j index id : ℕ)
        → s.calls j ≡ expired index id
        → holds_mu s.reader ≡ false
        → s' ≡ record s { calls = put_at j (leaving index id timed_out) s.calls }
        → Turn s s'
    hears_close :
        (j index id term : ℕ)
        → s.calls j ≡ waiting index id
        → IsAmong (record { index = index; id = id; term = term }) s.shut
        → s' ≡ record s { calls = put_at j (leaving index id closed) s.calls }
        → Turn s s'
    returns :
        (j index id : ℕ) (e : Ending Val)
        → s.calls j ≡ leaving index id e
        → holds_mu s.reader ≡ false
        → s' ≡ record s {
          rsm = record s.rsm { pending = submit_end index s.rsm.pending };
          calls = put_at j (returned index id e) s.calls;
        }
        → Turn s s'
    takes :
        (index : ℕ) (op : Op Req)
        → s.reader ≡ idle
        → s' ≡ record s {
          rsm = (take_command {Val = Val} index op s.rsm).0;
          reader = (take_command index op s.rsm).1;
          received = command_msg (some op) index ∷ s.received;
        }
        → Turn s s'
    skips :
        (index : ℕ)
        → s.reader ≡ idle
        → s' ≡ record s { received = command_msg none index ∷ s.received }
        → Turn s s'
    executes :
        (index : ℕ) (op : Op Req)
        → s.reader ≡ applying index op
        → s' ≡ record s {
          rsm = record s.rsm { sm = (machine.do_op op.req s.rsm.sm).0 };
          reader = applied index op.id (machine.do_op op.req s.rsm.sm).1;
          executed =
              record { index = index; id = op.id; val = (machine.do_op op.req s.rsm.sm).1 }
              ∷ s.executed;
        }
        → Turn s s'
    -- All messages at once: both answers of Raft are free, and rsm.mu keeps the map until they are sent.
    notifies :
        (index id : ℕ) (val : Val) (leads : Bool) (term : ℕ) (is_leader : Bool) (ps : List Pending)
        → s.reader ≡ applied index id val
        → Perm s.rsm.pending ps
        → s' ≡ record s {
          rsm = record s.rsm { pending = (notify_pending index id val leads term is_leader ps).0 };
          reader = sending (notify_pending index id val leads term is_leader ps).1;
        }
        → Turn s s'
    restores :
        (term : ℕ) (is_leader : Bool) (bytes : List ℕ) (msg_term index : ℕ) (ps : List Pending)
        (rsm : Rsm S) (wakes : List (Wake Val))
        → s.reader ≡ idle
        → Perm s.rsm.pending ps
        → handle_snapshot machine term is_leader bytes index (record s.rsm { pending = ps })
          ≡ some (rsm, wakes)
        → s' ≡ record s {
          rsm = rsm;
          reader = sending wakes;
          received = snapshot_msg bytes msg_term index ∷ s.received;
        }
        → Turn s s'
    sends :
        (j : ℕ) (w : Wake Val) (wakes : List (Wake Val))
        → s.reader ≡ sending (w ∷ wakes)
        → s.calls j ≡ waiting (wake_index w) (wake_id w)
        → s' ≡ record s {
          reader = sending wakes;
          calls = put_at j (leaving (wake_index w) (wake_id w) (ending_of (wake_id w) w)) s.calls;
        }
        → Turn s s'
    unlocks : s.reader ≡ sending [] → s' ≡ record s { reader = idle } → Turn s s'
    -- applyCh is closed.
    stops :
        s.reader ≡ idle
        → s' ≡ record s { rsm = (cleanup s.rsm).0; reader = stopped; shut = (cleanup s.rsm).1 }
        → Turn s s'

  pub data Runs (s : System Req Val S) : System Req Val S → Type 0 where
    stays : Runs s s
    turns : {t u : System Req Val S} → Runs s t → Turn t u → Runs s u

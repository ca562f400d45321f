-- ===== src/Harness/Mocks.antt =====
-- kvraft/internal/testutils/mock_raft.go, mock_sm.go and persister.go: the stand-ins of the tests.

pub mod Replica
use raft_algorithm_thesis.Base.{
  ℕ, ◌+◌, Bool, true, not, Option, none, some, List, [], ◌∷◌, ◌++◌, if◌then◌else◌, length,
}
use raft_algorithm_thesis.Consensus.Types.{ApplyMsg, command_msg}
use raft_algorithm_thesis.Kv.Rsm.{StateMachine}

-- `MockPersister`
pub record MockPersister : Type 0 where
  pub raft_state : List ℕ
  pub snapshot : List ℕ

-- `Save`; the copies that clone makes are the values here.
unfoldable pub mock_save : List ℕ → List ℕ → MockPersister → MockPersister
mock_save raft_state snapshot p = record { raft_state = raft_state; snapshot = snapshot }

unfoldable pub raft_state_size : MockPersister → ℕ
raft_state_size p = length p.raft_state

-- `MockRaft`; `msg_queue` is what its queue has been given.
pub record MockRaft (C : Type 0) : Type 0 where
  pub me : ℕ
  pub current_term : ℕ
  pub is_leader : Bool
  pub current_leader : ℕ
  pub next_index : ℕ
  pub persister : MockPersister
  pub msg_queue : List (ApplyMsg C)

module _ {C : Type 0} where
  -- `NewMockRaft`
  unfoldable pub new_mock_raft : ℕ → MockPersister → MockRaft C
  new_mock_raft me persister = record {
    me = me;
    current_term = 1;
    is_leader = true;
    current_leader = me;
    next_index = 1;
    persister = persister;
    msg_queue = [];
  }

  -- `Start`: the index and the term, or `none` for (-1, -1, false).
  unfoldable pub mock_start : C → MockRaft C → MockRaft C × Option (ℕ × ℕ)
  mock_start command m = if not m.is_leader then (m, none) else (
    record m {
      next_index = m.next_index + 1;
      msg_queue = m.msg_queue ++ command_msg (some command) m.next_index ∷ [];
    },
    some (m.next_index, m.current_term),
  )

  -- `SetLeader`
  unfoldable pub set_leader : Bool → ℕ → MockRaft C → MockRaft C
  set_leader is_leader current_leader m = record m {
    is_leader = is_leader;
    current_leader = current_leader;
    current_term = m.current_term + 1;
  }

  -- `Snapshot`; `state` is the bytes of "mock_raft_state".
  unfoldable pub mock_snapshot : (state : List ℕ) → List ℕ → MockRaft C → MockRaft C
  mock_snapshot state snapshot m = record m { persister = mock_save state snapshot m.persister }

-- `MockStateMachine`, over what it has applied: DoOp keeps the request and returns it. `gob` reads
-- and writes a list of requests.
pub record GobList (Req : Type 0) : Type 0 where
  pub encode : List Req → List ℕ
  pub decode : List ℕ → Option (List Req)

module _ {Req : Type 0} (gob : GobList Req) where
  unfoldable pub mock_restore : List ℕ → List Req → Option (List Req)
  mock_restore [] applied = some []
  mock_restore (b ∷ bytes) applied = gob.decode (b ∷ bytes)

  abbrev pub mock_machine : StateMachine Req Req (List Req)
  mock_machine = record {
    do_op = λ req applied. (applied ++ req ∷ [], req);
    snapshot = gob.encode;
    restore = mock_restore;
  }

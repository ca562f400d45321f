-- ===== src/Harness/Mocks/Replica.antt =====
-- mock_raft.go and mock_sm.go behind the reader of rsm.go: what the tests' state machine applies.
use mathlib.Core.List.{map-append}
use raft_algorithm_thesis.Base.{
  ℕ, ◌<◌, ◌≡◌, refl, sym, ◌∙◌, ap, subst, Bool, not, Option, none, some, List, [], ◌∷◌, ◌++◌, map,
  append_assoc, append-nil, arith, if_cases, >>=-eq-some, Returns, lt→leb-false,
}
use raft_algorithm_thesis.Consensus.Types.{ApplyMsg, command_msg}
use raft_algorithm_thesis.Kv.Rsm.{
  Op, Rsm, find, notify_pending, notify_found, notify_outdated, handle_command,
}
use raft_algorithm_thesis.Kv.Rsm.Applied.{RaftAnswers, read_msg, read_all, send_all}
use raft_algorithm_thesis.Harness.Mocks.{
  MockPersister, MockRaft, new_mock_raft, mock_start, set_leader, mock_snapshot, GobList,
  mock_machine,
}

-- What a test does with the stand-in for Raft.
pub data Act (C : Type 0) : Type 0 where
  starts : C → Act C
  sets_leader : Bool → ℕ → Act C
  saves : List ℕ → List ℕ → Act C

module _ {C : Type 0} where
  unfoldable pub act : Act C → MockRaft C → MockRaft C
  act (starts command) m = (mock_start command m).0
  act (sets_leader is_leader leader) m = set_leader is_leader leader m
  act (saves state snapshot) m = mock_snapshot state snapshot m

  unfoldable pub act_all : List (Act C) → MockRaft C → MockRaft C
  act_all [] m = m
  act_all (a ∷ later) m = act_all later (act a m)

  -- The command, if Start gave it an index.
  abbrev pub accepted_of : C → Option (ℕ × ℕ) → List C
  accepted_of command none = []
  accepted_of command (some at) = command ∷ []

  unfoldable pub accepted : Act C → MockRaft C → List C
  accepted (starts command) m = accepted_of command (mock_start command m).1
  accepted _ m = []

  unfoldable pub accepted_all : List (Act C) → MockRaft C → List C
  accepted_all [] m = []
  accepted_all (a ∷ later) m = accepted a m ++ accepted_all later (act a m)

module _ {Req : Type 0} (gob : GobList Req) (max_raft_state : Option ℕ) (raft : RaftAnswers) where
  read_all-snoc :
      (xs : List (RaftAnswers × ApplyMsg (Op Req))) (msg : ApplyMsg (Op Req))
      (rsm mid end : Rsm (List Req))
      → read_all (mock_machine gob) max_raft_state xs rsm ≡ some mid
      → read_msg (mock_machine gob) max_raft_state raft msg mid ≡ some end
      → read_all (mock_machine gob) max_raft_state (xs ++ (raft, msg) ∷ []) rsm ≡ some end
  unfolding read_all
  read_all-snoc [] msg rsm mid end e h = let same : rsm ≡ mid = cc in rw (same, h) refl
  read_all-snoc ((r, m) ∷ xs) msg rsm mid end e h =
      let (next, run, rest) =
        >>=-eq-some (read_msg (mock_machine gob) max_raft_state r m rsm) _ e in
      rw run (read_all-snoc xs msg next mid end rest h)

  abbrev pub heard : List (ApplyMsg (Op Req)) → List (RaftAnswers × ApplyMsg (Op Req))
  heard ms = map (λ m. (raft, m)) ms

  -- The reader has got through the queue, and the requests have been applied.
  abbrev Reads : Rsm (List Req) → List (Op Req) → MockRaft (Op Req) → Type 0
  Reads rsm ops m =
      Returns
        (λ (rsm' : Rsm (List Req)).
          (rsm'.last_applied < m.next_index)
          × (rsm'.sm ≡ rsm.sm ++ map (λ op. op.req) ops)
          × (rsm'.pending ≡ []))
        (read_all (mock_machine gob) max_raft_state (heard m.msg_queue) rsm)

  -- What the reader does with the command of a Start.
  read_next :
      (command : Op Req) (index : ℕ) (sm : List Req) (last : ℕ)
      → last < index
      → read_msg
          (mock_machine gob)
          max_raft_state
          raft
          (command_msg (some command) index)
          (record { sm = sm; pending = []; last_applied = last })
        ≡ some (record { sm = sm ++ command.req ∷ []; pending = []; last_applied = index })
  unfolding read_msg handle_command notify_pending find notify_found notify_outdated send_all
  read_next command index sm last lt = rw (lt→leb-false index last lt) refl

  start-Reads :
      (rsm : Rsm (List Req)) (ops : List (Op Req)) (command : Op Req) (m : MockRaft (Op Req))
      → Reads rsm ops m
      → Reads rsm (ops ++ accepted (starts command) m) (act (starts command) m)
  unfolding act accepted mock_start
  start-Reads rsm ops command m (mid, read, (below, sm, empty)) =
      if_cases
        (λ (r : MockRaft (Op Req) × Option (ℕ × ℕ)). Reads rsm (ops ++ accepted_of command r.1) r.0)
        (not m.is_leader) (λ _. (mid, read, (below, rw (append-nil ops) sm, empty)))
        (λ _.
          let here : Rsm (List Req) = record {
            sm = mid.sm;
            pending = [];
            last_applied = mid.last_applied;
          } in
          let same : mid ≡ here =
            ap (λ ps. record { sm = mid.sm; pending = ps; last_applied = mid.last_applied })
              empty in
          let end : Rsm (List Req) = record {
            sm = mid.sm ++ command.req ∷ [];
            pending = [];
            last_applied = m.next_index;
          } in
          (
            end,
            rw
                (map-append {B = RaftAnswers × ApplyMsg (Op Req)} (λ m. (raft, m)) m.msg_queue
                  (command_msg (some command) m.next_index ∷ []))
                (read_all-snoc (heard m.msg_queue) _ rsm here end (read ∙ ap some same)
                  (read_next command m.next_index mid.sm mid.last_applied below)),
            (
              omega arith,
              ap (λ xs. xs ++ command.req ∷ []) sm
                  ∙ append_assoc rsm.sm (map (λ op. op.req) ops) (command.req ∷ [])
                  ∙ ap (λ xs. rsm.sm ++ xs) (sym (map-append (λ op. op.req) ops (command ∷ []))),
              refl,
            ),
          ))

  act-Reads :
      (rsm : Rsm (List Req)) (ops : List (Op Req)) (a : Act (Op Req)) (m : MockRaft (Op Req))
      → Reads rsm ops m
      → Reads rsm (ops ++ accepted a m) (act a m)
  act-Reads rsm ops (starts command) m h = start-Reads rsm ops command m h
  act-Reads rsm ops (sets_leader is_leader leader) m h =
      unfold act accepted set_leader in rw (append-nil ops) h
  act-Reads rsm ops (saves state snapshot) m h =
      unfold act accepted mock_snapshot in rw (append-nil ops) h

  act_all-Reads :
      (rsm : Rsm (List Req)) (ops : List (Op Req)) (acts : List (Act (Op Req)))
      (m : MockRaft (Op Req))
      → Reads rsm ops m
      → Reads rsm (ops ++ accepted_all acts m) (act_all acts m)
  unfolding act_all accepted_all
  act_all-Reads rsm ops [] m h = rw (append-nil ops) h
  act_all-Reads rsm ops (a ∷ later) m h =
      subst (λ xs. Reads rsm xs (act_all later (act a m)))
        (append_assoc ops (accepted a m) (accepted_all later (act a m)))
        (act_all-Reads rsm (ops ++ accepted a m) later (act a m) (act-Reads rsm ops a m h))

  -- Whatever a test does with the stand-in for Raft, with leaderships lost and snapshots taken, the
  -- reader behind it gets through the queue, and the stand-in for the state machine has then applied
  -- the requests of exactly those Starts that got an index, in their order, each once.
  pub act_all-applied :
      (acts : List (Act (Op Req))) (me : ℕ) (persister : MockPersister)
      → Returns
          (λ (rsm : Rsm (List Req)).
            rsm.sm ≡ map (λ op. op.req) (accepted_all acts (new_mock_raft me persister)))
          (read_all
            (mock_machine gob)
            max_raft_state
            (heard (act_all acts (new_mock_raft me persister)).msg_queue)
            (record { sm = []; pending = []; last_applied = 0 }))
  unfolding new_mock_raft read_all
  act_all-applied acts me persister =
      let (end, run, (below, sm, empty)) =
        act_all-Reads (record { sm = []; pending = []; last_applied = 0 }) [] acts
          (new_mock_raft me persister)
          (record { sm = []; pending = []; last_applied = 0 }, refl, (omega arith, refl, refl)) in
      (end, run, sm)

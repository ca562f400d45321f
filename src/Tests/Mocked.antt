-- ===== src/Tests/Mocked.antt =====
-- The stand-ins of the tests: a Start, a lost leadership, and another Start.
use raft_algorithm_thesis.Base.{ℕ, ◌≡◌, true, false, none, some, List, [], ◌∷◌, map, Returns}
use raft_algorithm_thesis.Kv.Rsm.{Op, Rsm}
use raft_algorithm_thesis.Kv.Rsm.Applied.{RaftAnswers, read_all}
use raft_algorithm_thesis.Harness.Mocks.{MockPersister, GobList, mock_machine, new_mock_raft}
use raft_algorithm_thesis.Harness.Mocks.Replica.{
  Act, starts, sets_leader, act_all, accepted_all, heard, act_all-applied,
}

abbrev no_disk : MockPersister
no_disk = record { raft_state = []; snapshot = [] }

abbrev gob_list : GobList ℕ
gob_list = record { encode = λ reqs. reqs; decode = λ bytes. some bytes }

abbrev acts : List (Act (Op ℕ))
acts =
    starts (record { id = 1; req = 5 })
    ∷ sets_leader false 1
    ∷ starts (record { id = 2; req = 6 })
    ∷ sets_leader true 0
    ∷ starts (record { id = 3; req = 7 })
    ∷ []

abbrev answers : RaftAnswers
answers = record {
  leads = true;
  term = 1;
  is_leader = true;
  persist_bytes = 0;
  hears = λ index id. false;
}

act_all-applied_example :
    Returns
      (λ (rsm : Rsm (List ℕ)).
        rsm.sm ≡ map (λ op. op.req) (accepted_all acts (new_mock_raft 0 no_disk)))
      (read_all
        (mock_machine gob_list)
        none
        (heard gob_list none answers (act_all acts (new_mock_raft 0 no_disk)).msg_queue)
        (record { sm = []; pending = []; last_applied = 0 }))
act_all-applied_example = act_all-applied gob_list none answers acts 0 no_disk

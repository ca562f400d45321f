-- ===== src/Tests/Clients.antt =====
-- The replicated state machine and the clerk.
use raft_algorithm_thesis.Base.{
  Option, ◌<◌, ℕ, ◌≡◌, refl, arith, true, not, none, some, List, [], ◌∷◌, ◌++◌,
}
use raft_algorithm_thesis.Kv.Api.{ok, put_args, err_version}
use raft_algorithm_thesis.Kv.Store.{do_op, lookup}
use raft_algorithm_thesis.Kv.Rsm.{Pending, find, notify_pending}
use raft_algorithm_thesis.Kv.Rsm.Entries.{IsMap}
use raft_algorithm_thesis.Kv.Rsm.Notify.{Notified, notify_pending-Notified}
use raft_algorithm_thesis.Kv.Service.{PutResponse, status_ok, status_version, status_wrong_leader}
use raft_algorithm_thesis.Kv.Clerk.{Clerk, put, put_loop, put_round, verdict, next_srv, next_tried}
use raft_algorithm_thesis.Kv.Clerk.Bounds.{put-InRange}
use raft_algorithm_thesis.Kv.Clerk.Put.{
  put-final_answer, put_lost, final_answer, any_unsure, timed_out_response, served_response, PutOk,
}
use raft_algorithm_thesis.Tests.Keys.{store}

abbrev waiting : List Pending
waiting =
    record { index = 4; id = 11; term = 2 }
    ∷ record { index = 5; id = 12; term = 2 }
    ∷ record { index = 6; id = 13; term = 1 }
    ∷ []

waiting-IsMap : IsMap waiting
unfolding find
waiting-IsMap = (refl, (refl, (refl, tt)))

notify_pending-Notified_example :
    Notified {Val = ℕ} 4 11 7 true 2 true waiting (notify_pending 4 11 7 true 2 true waiting)
notify_pending-Notified_example =
    notify_pending-Notified {Val = ℕ} 4 11 7 true 2 true waiting waiting-IsMap

abbrev clerk : Clerk
clerk = record { clients = 3; last_leader = 0 }

abbrev refused : PutResponse
refused = record { status = status_version; leader_hint = some 0 }

put-final_answer_example :
    (ck' : Clerk) × (put clerk ((none ∷ []) ++ some refused ∷ [])
      ≡ some (ck', final_answer (not (any_unsure (none ∷ []))) status_version))
put-final_answer_example = put-final_answer clerk (none ∷ []) refused [] (refl, tt) refl

succeeds : PutOk "a" "two" 1 store
unfolding do_op lookup
succeeds = refl

put_lost_example :
    (ck' : Clerk) × (put clerk (
        some (timed_out_response (some 0))
        ∷ some (served_response "a" "two" 1 (do_op (put_args "a" "two" 1) store).0)
        ∷ [])
      ≡ some (ck', err_version))
put_lost_example = put_lost clerk "a" "two" 1 store (some 0) (omega arith) succeeds

-- A call fails, a server names another one, and that one serves the put.
abbrev calls : List (Option PutResponse)
calls =
    none
    ∷ some (record { status = status_wrong_leader; leader_hint = some 2 })
    ∷ some (record { status = status_ok; leader_hint = some 0 })
    ∷ []

served : put clerk calls ≡ some (record { clients = 3; last_leader = 2 }, ok)
unfolding put put_loop put_round verdict next_srv next_tried
served = refl

put-InRange_example : 2 < clerk.clients
put-InRange_example =
    put-InRange clerk calls {ck' = record { clients = 3; last_leader = 2 }} {err = ok} (omega arith)
      served

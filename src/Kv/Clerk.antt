-- ===== src/Kv/Clerk.antt =====
-- kvraft/pkg/clerk/clerk.go: the client's retry loops. The outcomes of the calls are given as a
-- list, one for each round, `none` for a call that failed; with its end the loop is still running.
pub mod Put
pub mod Bounds
use Prim.Native.String.{String}
use raft_algorithm_thesis.Base.{
  ℕ, ◌+◌, ◌%◌, ◌≡◌, refl, Bool, true, false, not, ◌&&◌, Option, none, some, List, [], ◌∷◌, ltb, leb,
  ◌==◌, if◌then◌else◌,
}
use raft_algorithm_thesis.Kv.Api.{Err, ok, err_no_key, err_version, err_maybe, err_wrong_leader}
use raft_algorithm_thesis.Kv.Service.{
  Status, unspecified, status_ok, status_no_key, status_version, status_wrong_leader, status_maybe,
  GetResponse, PutResponse,
}

-- `pbStatusToErr`
unfoldable pub pb_status_to_err : Status → Err
pb_status_to_err status_ok = ok
pb_status_to_err status_no_key = err_no_key
pb_status_to_err status_version = err_version
pb_status_to_err status_wrong_leader = err_wrong_leader
pb_status_to_err status_maybe = err_maybe
pb_status_to_err unspecified = err_wrong_leader

-- `Clerk`, by the number of its clients, with the variables of a loop.
pub record Clerk : Type 0 where
  pub clients : ℕ
  pub last_leader : ℕ

pub record Round : Type 0 where
  pub srv : ℕ
  pub tried : ℕ
  pub first_attempt : Bool

-- The next server: the hint, where it names another one, or the one behind.
unfoldable pub next_srv : ℕ → ℕ → Option ℕ → ℕ
next_srv clients srv none = (srv + 1) % clients
next_srv clients srv (some hint) =
    if ltb hint clients && not (hint == srv) then hint else (srv + 1) % clients

-- `tried` after a round; the loop sleeps where it goes back to 0.
unfoldable pub next_tried : ℕ → ℕ → ℕ
next_tried clients tried = if leb clients (tried + 1) then 0 else tried + 1

abbrev pub hint_of_get : Option GetResponse → Option ℕ
hint_of_get none = none
hint_of_get (some resp) = resp.leader_hint

abbrev pub hint_of_put : Option PutResponse → Option ℕ
hint_of_put none = none
hint_of_put (some resp) = resp.leader_hint

abbrev pub is_status_wrong_leader : Status → Bool
is_status_wrong_leader status_wrong_leader = true
is_status_wrong_leader _ = false

-- A response that ends Get.
get_answer : Option GetResponse → Option (String × ℕ × Err)
get_answer none = none
get_answer (some resp) =
    if is_status_wrong_leader resp.status
    then none
    else some (resp.value, resp.version, pb_status_to_err resp.status)

-- The loop of `Get` from a server on: the clerk and the answer.
unfoldable pub get_loop :
    Clerk → Round → List (Option GetResponse) → Option (Clerk × (String × ℕ × Err))
unfolding get_answer
get_loop ck r [] = none
get_loop ck r (resp ∷ rest) =
    let again =
      get_loop ck
        (record r {
          srv = next_srv ck.clients r.srv (hint_of_get resp);
          tried = next_tried ck.clients r.tried;
        })
        rest in
    elim (get_answer resp) [
      | some answer ↦ some (record ck { last_leader = r.srv }, answer)
      | none ↦ again
    ]

-- What a round of Put makes of its call: an answer, or whether it is still the first attempt.
pub data Verdict : Type 0 where
  answer : Err → Verdict
  retry : (first_attempt : Bool) → Verdict

by_err : Bool → Err → Verdict
by_err first ok = answer ok
by_err first err_version = if first then answer err_version else answer err_maybe
by_err first err_wrong_leader = retry first
by_err first _ = retry false

unfoldable pub verdict : Bool → Option PutResponse → Verdict
unfolding by_err pb_status_to_err
verdict first none = retry false
verdict first (some resp) = by_err first (pb_status_to_err resp.status)

-- The end of a round: an answer, or the rounds that follow.
unfoldable pub put_round :
    Clerk → Round → (Bool → Option (Clerk × Err)) → Verdict → Option (Clerk × Err)
put_round ck r again (answer err) = some (record ck { last_leader = r.srv }, err)
put_round ck r again (retry first) = again first

abbrev pub after_put : Clerk → Round → Option PutResponse → Bool → Round
after_put ck r resp first = record {
  srv = next_srv ck.clients r.srv (hint_of_put resp);
  tried = next_tried ck.clients r.tried;
  first_attempt = first;
}

-- The loop of `Put` from a server on: the clerk and the answer.
unfoldable pub put_loop : Clerk → Round → List (Option PutResponse) → Option (Clerk × Err)
put_loop ck r [] = none
put_loop ck r (resp ∷ rest) =
    put_round ck r (λ first. put_loop ck (after_put ck r resp first) rest)
      (verdict r.first_attempt resp)

abbrev pub first_round : Clerk → Round
first_round ck = record { srv = ck.last_leader; tried = 0; first_attempt = true }

-- `Get`
unfoldable pub get : Clerk → List (Option GetResponse) → Option (Clerk × (String × ℕ × Err))
get ck calls = get_loop ck (first_round ck) calls

-- `Put`
unfoldable pub put : Clerk → List (Option PutResponse) → Option (Clerk × Err)
put ck calls = put_loop ck (first_round ck) calls

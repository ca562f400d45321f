-- ===== src/Kv/Clerk/Bounds.antt =====
-- clerk.go: the index of the server that is called.
use raft_algorithm_thesis.Base.{
  ℕ, ◌+◌, ◌<◌, ◌≡◌, Bool, Option, none, some, List, [], ◌∷◌, not, ◌&&◌, ltb, ◌==◌, arith, Ensures,
  Ensures-some, if_cases,
}
use native.Mathlib.Nat.{mod-lt}
use raft_algorithm_thesis.Kv.Api.{Err}
use raft_algorithm_thesis.Kv.Service.{PutResponse}
use raft_algorithm_thesis.Kv.Clerk.{
  Clerk, Round, Verdict, answer, retry, verdict, next_srv, put_loop, put_round, after_put,
  first_round, put, hint_of_put,
}

next_srv-lt :
    (clients srv : ℕ) (hint : Option ℕ) → 0 < clients → next_srv clients srv hint < clients
unfolding next_srv
next_srv-lt clients srv none h = mod-lt (srv + 1) h
next_srv-lt clients srv (some hint) h =
    if_cases (λ n. n < clients) (ltb hint clients && not (hint == srv)) (λ fits. ground arith)
      (λ no_hint. mod-lt (srv + 1) h)

-- The clerk names one of its clients.
abbrev pub InRange : {A : Type 0} → Clerk × A → Type 0
InRange (ck, a) = ck.last_leader < ck.clients

put_round-InRange :
    (ck : Clerk) (r : Round) (again : Bool → Option (Clerk × Err)) (v : Verdict)
    → r.srv < ck.clients
    → ((first : Bool) → Ensures InRange (again first))
    → Ensures InRange (put_round ck r again v)
unfolding put_round
put_round-InRange ck r again (answer err) h k = h
put_round-InRange ck r again (retry first) h k = k first

put_loop-InRange :
    (ck : Clerk) (r : Round) (calls : List (Option PutResponse))
    → r.srv < ck.clients
    → Ensures InRange (put_loop ck r calls)
unfolding put_loop
put_loop-InRange ck r [] h = tt
put_loop-InRange ck r (resp ∷ rest) h =
    put_round-InRange ck r _ (verdict r.first_attempt resp) h (λ first.
      put_loop-InRange ck (after_put ck r resp first) rest
        (next_srv-lt ck.clients r.srv (hint_of_put resp) (omega arith)))

-- Whatever leaders the servers name, a clerk whose last leader is the index of one of its clients has
-- such an index after Put.
pub put-InRange :
    (ck : Clerk) (calls : List (Option PutResponse)) {ck' : Clerk} {err : Err}
    → ck.last_leader < ck.clients
    → put ck calls ≡ some (ck', err)
    → ck'.last_leader < ck'.clients
unfolding put
put-InRange ck calls h run =
    Ensures-some InRange (put_loop ck (first_round ck) calls)
      (put_loop-InRange ck (first_round ck) calls h) run

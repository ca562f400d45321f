-- ===== src/Kv/Clerk/Put.antt =====
-- clerk.go, grpc.go and rsm.go: Put's answer, by the calls that it has made.
use Prim.Native.String.{String}
use text.Mathlib.TextPositions.{eq_refl}
use raft_algorithm_thesis.Base.{
  ℕ, ◌<◌, ◌^◌, ◌≡◌, ◌≢◌, refl, ◌∙◌, ap, Bool, true, false, not, ◌&&◌, ◌||◌, Option, none, some,
  List, [], ◌∷◌, ◌++◌, arith, inl, inr, All, Option-cases,
}
use raft_algorithm_thesis.Kv.Api.{
  Err, ok, err_version, err_maybe, err_wrong_leader, put_args, put_reply,
}
use raft_algorithm_thesis.Kv.Store.{Cell, Store, lookup, insert, lookup-insert, do_op, next_version}
use raft_algorithm_thesis.Kv.Service
use raft_algorithm_thesis.Kv.Service.{
  Status, status_ok, status_no_key, status_version, status_wrong_leader, status_maybe, unspecified,
  PutResponse, Value, int, reply,
}
use raft_algorithm_thesis.Kv.Clerk.{
  Clerk, Round, answer, retry, verdict, put_loop, put_round, after_put, first_round, next_srv, put,
}

-- A call that ends Put: the server has answered OK or ErrVersion.
abbrev pub is_final : Option PutResponse → Bool
is_final none = false
is_final (some r) = elim r.status [ status_ok ↦ true | status_version ↦ true | _ ↦ false ]

-- A call after which Put no longer knows that it has had no effect: one that failed, or that
-- answered with a status of another request.
abbrev pub is_unsure : Option PutResponse → Bool
is_unsure none = true
is_unsure (some r) = elim r.status [ status_no_key ↦ true | status_maybe ↦ true | _ ↦ false ]

abbrev pub any_unsure : List (Option PutResponse) → Bool
any_unsure [] = false
any_unsure (c ∷ cs) = is_unsure c || any_unsure cs

-- The answer to a final status, with the first attempt still open or not.
abbrev pub final_answer : Bool → Status → Err
final_answer first status_ok = ok
final_answer true _ = err_version
final_answer false _ = err_maybe

verdict-retry :
    (first : Bool) (c : Option PutResponse)
    → is_final c ≡ false
    → verdict first c ≡ retry (first && not (is_unsure c))
unfolding verdict
verdict-retry first none h = ground arith
verdict-retry first (some r) h = ground arith

verdict-answer :
    (first : Bool) (r : PutResponse)
    → is_final (some r) ≡ true
    → verdict first (some r) ≡ answer (final_answer first r.status)
unfolding verdict
verdict-answer first r h = ground arith

and_not : (a b c : Bool) → (a && not b) && not c ≡ a && not (b || c)
and_not a b c = ground arith

-- The clerk and the variables with which the loop goes on after a list of calls.
loop_end :
    (ck : Clerk) (r : Round) (pre : List (Option PutResponse)) (resp : PutResponse)
    (post : List (Option PutResponse))
    → All (λ c. is_final c ≡ false) pre
    → is_final (some resp) ≡ true
    → (ck' : Clerk) × (put_loop ck r (pre ++ some resp ∷ post)
        ≡ some (ck', final_answer (r.first_attempt && not (any_unsure pre)) resp.status))
unfolding put_loop put_round
loop_end ck r [] resp post h f =
    rw (verdict-answer r.first_attempt resp f) (record ck { last_leader = r.srv }, ground arith)
loop_end ck r (c ∷ pre) resp post h f = rw (verdict-retry r.first_attempt c h.0) (
    let (ck', run) =
      loop_end ck (after_put ck r c (r.first_attempt && not (is_unsure c))) pre resp post h.1 f in
    (
      ck',
      run
          ∙ ap (λ b. some (ck', final_answer b resp.status))
              (and_not r.first_attempt (is_unsure c) (any_unsure pre)),
    ))

-- Put answers at the first call that a server ends with OK or ErrVersion: OK for OK; for ErrVersion
-- it says ErrVersion if every call before it was answered with ErrWrongLeader or no known status,
-- and ErrMaybe if one of them failed or had another status.
pub put-final_answer :
    (ck : Clerk) (pre : List (Option PutResponse)) (resp : PutResponse)
    (post : List (Option PutResponse))
    → All (λ c. is_final c ≡ false) pre
    → is_final (some resp) ≡ true
    → (ck' : Clerk) × (put ck (pre ++ some resp ∷ post)
        ≡ some (ck', final_answer (not (any_unsure pre)) resp.status))
unfolding put
put-final_answer ck pre resp post h f = loop_end ck (first_round ck) pre resp post h f

-- The response to a Put whose Submit ran into its time-out, `leader` being the leader it names.
abbrev pub timed_out_response : Option ℕ → PutResponse
timed_out_response leader = Service.put err_wrong_leader (int leader)

-- The response to a Put that the store has served.
abbrev pub served_response : String → String → ℕ → Store → PutResponse
served_response key value version s =
    Service.put ok (reply (do_op (put_args key value version) s).1)

abbrev pub PutOk : String → String → ℕ → Store → Type 0
PutOk key value version s = (do_op (put_args key value version) s).1 ≡ put_reply ok

-- A put that succeeds writes the value with the next version.
PutOk-insert :
    (key value : String) (version : ℕ) (s : Store)
    → PutOk key value version s
    → (do_op (put_args key value version) s).0
      ≡ insert key (record { value = value; version = next_version version }) s
unfolding do_op
PutOk-insert key value version s h = elim (Option-cases (lookup key s)) [
  | inl absent ↦ ground arith
  | inr (c, found) ↦ ground arith
]

put_stale :
    (key value : String) (version : ℕ) (c : Cell) (s : Store)
    → lookup key s ≡ some c
    → c.version ≢ version
    → (do_op (put_args key value version) s).1 ≡ put_reply err_version
unfolding do_op
put_stale key value version c s found ne = rw found (ground arith)

put_again :
    (key value : String) (version : ℕ) (s : Store)
    → version < 2 ^ 64
    → PutOk key value version s
    → (do_op (put_args key value version) (do_op (put_args key value version) s).0).1
      ≡ put_reply err_version
put_again key value version s small h = rw (PutOk-insert key value version s h) (
    put_stale key value version (record { value = value; version = next_version version })
      (insert key _ s)
      (rw (
        lookup-insert key key (record { value = value; version = next_version version }) s,
        eq_refl key,
      ))
      (omega arith))

-- If a put succeeds in the store although its Submit has timed out, and the clerk's next call is
-- served after it, then Put reports ErrVersion, a refusal, for the put that took effect.
pub put_lost :
    (ck : Clerk) (key value : String) (version : ℕ) (s : Store) (leader : Option ℕ)
    → version < 2 ^ 64
    → PutOk key value version s
    → (ck' : Clerk) × (put ck (
          some (timed_out_response leader)
          ∷ some (served_response key value version (do_op (put_args key value version) s).0)
          ∷ [])
        ≡ some (ck', err_version))
unfolding put put_loop put_round verdict Service.put
put_lost ck key value version s leader small h = rw (put_again key value version s small h) (
  record ck {
    last_leader = next_srv ck.clients ck.last_leader (timed_out_response leader).leader_hint;
  },
  refl,
)

-- ===== src/Kv/Service.antt =====
-- kvraft/internal/kvserver/grpc.go: the gRPC handlers, and the way that Submit (rsm.go) answers them.
use Prim.Native.String.{String}
use raft_algorithm_thesis.Base.{
  ℕ, ◌%◌, ◌^◌, Bool, true, false, Option, none, some, ltb, if◌then◌else◌,
}
use raft_algorithm_thesis.Kv.Api.{
  Err, ok, err_no_key, err_version, err_maybe, err_wrong_leader, Reply, get_reply, put_reply,
}

-- `kvpb.Status`
pub data Status : Type 0 where
  unspecified status_ok status_no_key status_version status_wrong_leader status_maybe : Status

-- GetResponse and PutResponse; a hint that is negative is `none`, and one that is not set is 0.
pub record GetResponse : Type 0 where
  pub status : Status
  pub value : String
  pub version : ℕ
  pub leader_hint : Option ℕ

pub record PutResponse : Type 0 where
  pub status : Status
  pub leader_hint : Option ℕ

-- `errToStatus`
unfoldable pub err_to_status : Err → Status
err_to_status ok = status_ok
err_to_status err_no_key = status_no_key
err_to_status err_version = status_version
err_to_status err_wrong_leader = status_wrong_leader
err_to_status err_maybe = status_maybe

-- The dynamic value that Submit returns.
pub data Value : Type 0 where
  int : Option ℕ → Value
  reply : Reply → Value
  nil : Value

-- `int32(leader)`; the upper half of the 32-bit numbers is negative.
unfoldable pub int32_hint : Option ℕ → Option ℕ
int32_hint none = none
int32_hint (some n) = if ltb (n % 2 ^ 32) (2 ^ 31) then some (n % 2 ^ 32) else none

unfoldable pub hint_of : Value → Option ℕ
hint_of (int leader) = int32_hint leader
hint_of _ = none

get_value : Err → Value → GetResponse
get_value code (reply (get_reply value version err)) = record {
  status = err_to_status err;
  value = value;
  version = version;
  leader_hint = some 0;
}
get_value code _ = record {
  status = status_wrong_leader;
  value = "";
  version = 0;
  leader_hint = some 0;
}

abbrev pub is_wrong_leader : Err → Bool
is_wrong_leader err_wrong_leader = true
is_wrong_leader _ = false

-- `KVService.Get`, once Submit has returned.
unfoldable pub get : Err → Value → GetResponse
unfolding get_value hint_of err_to_status
get code val =
    if is_wrong_leader code
    then record { status = err_to_status code; value = ""; version = 0; leader_hint = hint_of val }
    else get_value code val

put_value : Err → Value → PutResponse
put_value code (reply (put_reply err)) = record { status = err_to_status err; leader_hint = some 0 }
put_value code _ = record { status = status_wrong_leader; leader_hint = some 0 }

-- `KVService.Put`, once Submit has returned.
unfoldable pub put : Err → Value → PutResponse
unfolding put_value hint_of err_to_status
put code val =
    if is_wrong_leader code
    then record { status = err_to_status code; leader_hint = hint_of val }
    else put_value code val

-- ===== src/Kv/Api.antt =====
-- kvraft/api/kv.go: requests, replies and error codes.
use Prim.Native.String.{String}
use raft_algorithm_thesis.Base.{ℕ}

-- `Err`
pub data Err : Type 0 where
  ok err_no_key err_version err_maybe err_wrong_leader : Err

-- What DoOp switches on: GetArgs, PutArgs, or any other type.
pub data Request : Type 0 where
  get_args : (key : String) → Request
  put_args : (key value : String) (version : ℕ) → Request
  other : Request

-- GetReply and PutReply.
pub data Reply : Type 0 where
  get_reply : (value : String) (version : ℕ) (err : Err) → Reply
  put_reply : (err : Err) → Reply

-- ===== src/Kv/Model.antt =====
-- kvraft/internal/testutils/kvmodel.go: the sequential model that histories are checked against.
pub mod Refine
use Prim.Native.String.{String}
use text.Mathlib.Text.{◌==◌ as str_eq}
use text.Mathlib.TextEquality.{eq_iff}
use text.Mathlib.TextPositions.{eq_refl}
use raft_algorithm_thesis.Base.{
  ℕ, ◌+◌, ◌%◌, ◌^◌, ◌≡◌, refl, Bool, true, false, not, ◌&&◌, Option, none, some, List, [], ◌∷◌,
  ◌==◌, if◌then◌else◌, arith, Option-cases, inl, inr, Bool-cases, sym, ◌∙◌,
}
use raft_algorithm_thesis.Kv.Api.{
  Err, ok, err_no_key, err_version, err_maybe, err_wrong_leader, Request, get_args, put_args, other,
  Reply, get_reply, put_reply,
}
use raft_algorithm_thesis.Kv.Store.{Cell, Store, lookup, insert, next_version, do_op, lookup-insert}

-- `KvInput`, its Op 0 or 1, and `KvOutput`.
pub data KvInput : Type 0 where
  get_input : (key : String) → KvInput
  put_input : (key value : String) (version : ℕ) → KvInput

pub record KvOutput : Type 0 where
  pub value : String
  pub version : ℕ
  pub err : Err

pub record KvState : Type 0 where
  pub value : String
  pub version : ℕ

-- `Init`
abbrev pub init : KvState
init = record { value = ""; version = 0 }

abbrev pub key_of : KvInput → String
key_of (get_input key) = key
key_of (put_input key value version) = key

step_get : KvState → KvOutput → Err → Bool × KvState
step_get st out ok = (str_eq out.value st.value && (out.version == st.version), st)
step_get st out err_no_key = (st.version == 0, st)
step_get st out _ = (true, st)

written : KvState → String → KvState
written st value = record { value = value; version = next_version st.version }

step_put : KvState → String → ℕ → Err → Bool × KvState
unfolding written
step_put st value version ok =
    if st.version == version then (true, written st value) else (false, st)
step_put st value version err_version = (not (st.version == version), st)
step_put st value version err_maybe =
    if st.version == version then (true, written st value) else (true, st)
step_put st value version _ = (true, st)

-- `Step`
unfoldable pub step : KvState → KvInput → KvOutput → Bool × KvState
unfolding step_get step_put
step st (get_input key) out = step_get st out out.err
step st (put_input key value version) out = step_put st value version out.err

-- ===== src/Kv/Store.antt =====
-- kvraft/internal/kvserver/store.go: the versioned map, as an association list.
pub mod Saving
use Prim.Native.String.{String}
use text.Mathlib.Text.{◌==◌ as str_eq}
use text.Mathlib.TextEquality.{eq_iff}
use raft_algorithm_thesis.Base.{
  ℕ, ◌+◌, ◌%◌, ◌^◌, ◌≡◌, refl, not, Option, none, some, List, [], ◌∷◌, ◌==◌, if◌then◌else◌, arith,
}
use raft_algorithm_thesis.Kv.Api.{
  ok, err_no_key, err_version, err_wrong_leader, Request, get_args, put_args, other, Reply,
  get_reply, put_reply,
}

pub record Cell : Type 0 where
  pub value : String
  pub version : ℕ

abbrev pub Store : Type 0
Store = List (String × Cell)

unfoldable pub lookup : String → Store → Option Cell
lookup k [] = none
lookup k ((j, c) ∷ m) = if str_eq j k then some c else lookup k m

unfoldable pub insert : String → Cell → Store → Store
insert k c [] = (k, c) ∷ []
insert k c ((j, d) ∷ m) = if str_eq j k then (k, c) ∷ m else (j, d) ∷ insert k c m

-- `TVersion` is a uint64.
abbrev pub next_version : ℕ → ℕ
next_version v = (v + 1) % 2 ^ 64

get_op : Option Cell → Reply
get_op none = get_reply "" 0 err_no_key
get_op (some c) = get_reply c.value c.version ok

put_op : String → String → ℕ → Option Cell → Store → Store × Reply
put_op key value version none s =
    if not (version == 0)
    then (s, put_reply err_version)
    else (insert key (record { value = value; version = 1 }) s, put_reply ok)
put_op key value version (some c) s =
    if not (c.version == version)
    then (s, put_reply err_version)
    else (insert key (record { value = value; version = next_version c.version }) s, put_reply ok)

-- `DoOp`
unfoldable pub do_op : Request → Store → Store × Reply
unfolding get_op put_op
do_op (get_args key) s = (s, get_op (lookup key s))
do_op (put_args key value version) s = put_op key value version (lookup key s) s
do_op other s = (s, put_reply err_wrong_leader)

pub lookup-insert :
    (k j : String) (c : Cell) (s : Store)
    → lookup j (insert k c s) ≡ (if str_eq k j then some c else lookup j s)
unfolding lookup insert
lookup-insert k j c [] = refl
lookup-insert k j c ((i, d) ∷ s) =
    ground (arith, eq_iff k j, eq_iff i k, eq_iff i j, lookup-insert k j c s)

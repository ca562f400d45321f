-- ===== src/Tests/Keys.antt =====
-- The store and its model.
use Prim.Native.String.{String}
use raft_algorithm_thesis.Base.{ap, sym, some, ◌≡◌, refl, true, List, [], ◌∷◌}
use raft_algorithm_thesis.Kv.Store.Saving.{
  GobMap, Encodes, snapshot, restore, execute, restore-snapshot,
}
use raft_algorithm_thesis.Kv.Store.{Store, do_op, lookup, insert}
use raft_algorithm_thesis.Kv.Api.{put_args, put_reply, ok, err_version}
use raft_algorithm_thesis.Kv.Model.{KvInput, get_input, put_input}
use raft_algorithm_thesis.Kv.Model.Refine.{view, history, serve, serve_all, accepts, serve-accepts}

abbrev pub store : Store
store = ("a", record { value = "one"; version = 1 }) ∷ []

-- A put of a stale version is refused, and the next version is accepted.
stale_put : do_op (put_args "a" "two" 0) store ≡ (store, put_reply err_version)
unfolding do_op lookup
stale_put = refl

next_put :
    do_op (put_args "a" "two" 1) store
    ≡ (("a", record { value = "two"; version = 2 }) ∷ [], put_reply ok)
unfolding do_op lookup insert
next_put = refl

abbrev inputs : List KvInput
inputs = get_input "a" ∷ put_input "a" "two" 1 ∷ put_input "b" "x" 0 ∷ get_input "a" ∷ []

serve-accepts_example :
    accepts (view "a" store) (history "a" (serve store inputs))
    ≡ (true, view "a" (serve_all store inputs))
serve-accepts_example = serve-accepts inputs store "a"

abbrev rewritten : Store
rewritten = ("a", record { value = "two"; version = 2 }) ∷ []

-- A stream of one byte for the one store of this test.
abbrev gob : GobMap
gob = record { encode = λ s. 1 ∷ []; decode = λ bytes. some rewritten }

rewrites : execute (put_args "a" "two" 1 ∷ []) store ≡ rewritten
unfolding execute do_op lookup insert
rewrites = refl

encodes : Encodes gob (execute (put_args "a" "two" 1 ∷ []) store)
unfolding lookup
encodes = record {
  first = 1;
  rest = [];
  stream = refl;
  entries = rewritten;
  decoded = refl;
  keyed = (refl, tt);
  same = λ k. ap (lookup k) (sym rewrites);
}

restore-snapshot_example :
    (s' : Store) × (restore gob (snapshot gob (execute (put_args "a" "two" 1 ∷ []) store)) store
      ≡ some s')
    × ((k : String) → lookup k s' ≡ lookup k (execute (put_args "a" "two" 1 ∷ []) store))
restore-snapshot_example = restore-snapshot gob (put_args "a" "two" 1 ∷ []) store encodes

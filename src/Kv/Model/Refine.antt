-- ===== src/Kv/Model/Refine.antt =====
-- store.go against kvmodel.go: the store's outputs, as a history of the model.
use Prim.Native.String.{String}
use text.Mathlib.Text.{◌==◌ as str_eq}
use text.Mathlib.TextEquality.{eq_iff}
use text.Mathlib.TextPositions.{eq_refl}
use raft_algorithm_thesis.Base.{
  ℕ, ◌≡◌, refl, Bool, true, false, ◌&&◌, Option, none, some, List, [], ◌∷◌, if◌then◌else◌, arith,
  Option-cases, inl, inr, Bool-cases, sym, ap, subst,
}
use raft_algorithm_thesis.Kv.Api.{Request, get_args, put_args, Reply, get_reply, put_reply}
use raft_algorithm_thesis.Kv.Store.{Cell, Store, lookup, insert, next_version, do_op, lookup-insert}
use raft_algorithm_thesis.Kv.Model.{
  KvInput, get_input, put_input, KvOutput, KvState, init, key_of, step,
}

-- The requests and outputs of the tests' clients.
abbrev pub request_of : KvInput → Request
request_of (get_input key) = get_args key
request_of (put_input key value version) = put_args key value version

abbrev pub output_of : Reply → KvOutput
output_of (get_reply value version err) = record { value = value; version = version; err = err }
output_of (put_reply err) = record { value = ""; version = 0; err = err }

abbrev cell_state : Option Cell → KvState
cell_state none = init
cell_state (some c) = record { value = c.value; version = c.version }

-- What the store holds for a key, as the model sees it.
abbrev pub view : String → Store → KvState
view k s = cell_state (lookup k s)

abbrev pub reply_to : KvInput → Store → KvOutput
reply_to i s = output_of (do_op (request_of i) s).1

abbrev pub after : KvInput → Store → Store
after i s = (do_op (request_of i) s).0

same_view :
    (key k : String) (s : Store) → view k s ≡ (if str_eq key k then view key s else view k s)
same_view key k s = elim (Bool-cases (str_eq key k)) [
  | inl same ↦ rw same (ap (λ j. view j s) (sym ((eq_iff key k).0 same)))
  | inr differs ↦ rw differs
]

inserted_view :
    (key k : String) (c : Cell) (s : Store)
    → view k (insert key c s) ≡ (if str_eq key k then cell_state (some c) else view k s)
inserted_view key k c s = elim (Bool-cases (str_eq key k)) [
  | inl same ↦ rw (lookup-insert key k c s, same)
  | inr differs ↦ rw (lookup-insert key k c s, differs)
]

abbrev Follows : KvInput → Store → String → Type 0
Follows i s k =
    ((step (view (key_of i) s) i (reply_to i s)).0 ≡ true)
    × (view k (after i s)
        ≡ (if str_eq (key_of i) k then (step (view (key_of i) s) i (reply_to i s)).1 else view k s))

get-Follows : (key : String) (s : Store) (k : String) → Follows (get_input key) s k
unfolding do_op step
get-Follows key s k = elim (Option-cases (lookup key s)) [
  | inl absent ↦ ground (arith, same_view key k s)
  | inr (c, found) ↦ ground (arith, eq_refl c.value, same_view key k s)
]

put-Follows :
    (key value : String) (version : ℕ) (s : Store) (k : String)
    → Follows (put_input key value version) s k
unfolding do_op step
put-Follows key value version s k = elim (Option-cases (lookup key s)) [
  | inl absent ↦
      ground
        (arith, same_view key k s, inserted_view key k (record { value = value; version = 1 }) s)
  | inr (c, found) ↦ ground (
    arith,
    same_view key k s,
    inserted_view key k (record { value = value; version = next_version c.version }) s,
  )
]

-- The model accepts the store's reply to every request, moves to the state that the store then has
-- for the request's key, and the request leaves the other keys alone.
do_op-step :
    (i : KvInput) (s : Store) (k : String)
    → ((step (view (key_of i) s) i (reply_to i s)).0 ≡ true)
      × (view k (after i s) ≡ (
          if str_eq (key_of i) k then (step (view (key_of i) s) i (reply_to i s)).1 else view k s))
do_op-step (get_input key) s k = get-Follows key s k
do_op-step (put_input key value version) s k = put-Follows key value version s k

-- The store's outputs to a list of requests.
pub serve : Store → List KvInput → List (KvInput × KvOutput)
serve s [] = []
serve s (i ∷ is) = (i, reply_to i s) ∷ serve (after i s) is

pub serve_all : Store → List KvInput → Store
serve_all s [] = s
serve_all s (i ∷ is) = serve_all (after i s) is

-- `Partition`: the part of a history that is about one key.
unfoldable pub history : String → List (KvInput × KvOutput) → List (KvInput × KvOutput)
history k [] = []
history k ((i, o) ∷ h) = if str_eq (key_of i) k then (i, o) ∷ history k h else history k h

-- The model run along a history: whether it accepts every output, and the state at the end.
unfoldable pub accepts : KvState → List (KvInput × KvOutput) → Bool × KvState
accepts st [] = (true, st)
accepts st ((i, o) ∷ h) =
    ((step st i o).0 && (accepts (step st i o).1 h).0, (accepts (step st i o).1 h).1)

one_step :
    (i : KvInput) (s : Store) (k : String)
    → str_eq (key_of i) k ≡ true
    → ((step (view k s) i (reply_to i s)).0 ≡ true)
      × ((step (view k s) i (reply_to i s)).1 ≡ view k (after i s))
one_step i s k same =
    subst
      (λ st.
        ((step st i (reply_to i s)).0 ≡ true) × ((step st i (reply_to i s)).1 ≡ view k (after i s)))
      (ap (λ j. view j s) ((eq_iff (key_of i) k).0 same))
      ((do_op-step i s k).0, sym (rw same at (do_op-step i s k).1))

-- Requests that are served one after another, as the replicated log orders them, give for each key
-- a history that the model accepts from the key's state before, and that leads it to the key's
-- state after.
pub serve-accepts :
    (is : List KvInput) (s : Store) (k : String)
    → accepts (view k s) (history k (serve s is)) ≡ (true, view k (serve_all s is))
unfolding serve serve_all history accepts
serve-accepts [] s k = refl
serve-accepts (i ∷ is) s k = elim (Bool-cases (str_eq (key_of i) k)) [
  | inl same ↦
      rw (same, (one_step i s k same).0, (one_step i s k same).1, serve-accepts is (after i s) k)
  | inr differs ↦ rw (differs) (rw (← untouched differs) (serve-accepts is (after i s) k))
]
  where
    untouched : str_eq (key_of i) k ≡ false → view k (after i s) ≡ view k s
    untouched differs = rw differs at (do_op-step i s k).1

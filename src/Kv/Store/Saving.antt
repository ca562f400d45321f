-- ===== src/Kv/Store/Saving.antt =====
-- kvraft/internal/kvserver/store.go: Snapshot and Restore.
use Prim.Native.String.{String}
use text.Mathlib.Text.{◌==◌ as str_eq}
use text.Mathlib.TextEquality.{eq_iff}
use raft_algorithm_thesis.Base.{
  ℕ, ◌≡◌, refl, sym, subst, ◌∙◌, not, Option, none, some, List, [], ◌∷◌, ◌==◌, if_cases, ◌>>=◌,
  arith, Bool-cases, inl, inr,
}
use raft_algorithm_thesis.Kv.Api.{Request, get_args, put_args, other, Reply}
use raft_algorithm_thesis.Kv.Store.{Cell, Store, lookup, insert, put_op, do_op, lookup-insert}

-- encoding/gob for the store's map: the entries that a stream holds are in any order.
pub record GobMap : Type 0 where
  pub encode : Store → List ℕ
  pub decode : List ℕ → Option Store

-- The entries of a stream, put into a map that is there.
unfoldable pub decode_into : Store → Store → Store
decode_into [] s = s
decode_into ((k, c) ∷ entries) s = decode_into entries (insert k c s)

module _ (gob : GobMap) where
  -- `Snapshot`
  unfoldable pub snapshot : Store → List ℕ
  snapshot s = gob.encode s

  -- `Restore`: gob adds a stream's entries to the map that is there; `none` where it fails.
  unfoldable pub restore : List ℕ → Store → Option Store
  restore [] s = some []
  restore (b ∷ bytes) s = do entries ← gob.decode (b ∷ bytes); some (decode_into entries s)

-- The entries of a stream have different keys.
abbrev pub IsKeyed : Store → Type 0
IsKeyed [] = Unit
IsKeyed ((k, c) ∷ entries) = (lookup k entries ≡ none) × IsKeyed entries

-- What encoding/gob does for a store: the stream is not empty, and it is read back as entries of
-- different keys, which are those of the store.
pub record Encodes (gob : GobMap) (s : Store) : Type 0 where
  pub first : ℕ
  pub rest : List ℕ
  pub stream : gob.encode s ≡ first ∷ rest
  pub entries : Store
  pub decoded : gob.decode (first ∷ rest) ≡ some entries
  pub keyed : IsKeyed entries
  pub same : (k : String) → lookup k entries ≡ lookup k s

abbrev or_else : Option Cell → Option Cell → Option Cell
or_else none d = d
or_else (some c) d = some c

lookup-decode_into :
    (k : String) (entries s : Store)
    → IsKeyed entries
    → lookup k (decode_into entries s) ≡ or_else (lookup k entries) (lookup k s)
unfolding decode_into lookup
lookup-decode_into k [] s h = refl
lookup-decode_into k ((j, c) ∷ entries) s h = elim (Bool-cases (str_eq j k)) [
  | inl e ↦
      (let absent : lookup k entries ≡ none =
          subst (λ x. lookup x entries ≡ none) ((eq_iff j k).0 e) h.0 in
        rw (lookup-decode_into k entries (insert j c s) h.1, lookup-insert j k c s, e, absent) refl)
  | inr e ↦ rw (lookup-decode_into k entries (insert j c s) h.1, lookup-insert j k c s, e) refl
]

-- The requests, served one after another.
unfoldable pub execute : List Request → Store → Store
execute [] s = s
execute (r ∷ rs) s = execute rs (do_op r s).0

insert-keeps :
    (key k : String) (c : Cell) (s : Store) → lookup k (insert key c s) ≡ none → lookup k s ≡ none
insert-keeps key k c s h = ground (arith, lookup-insert key k c s)

put_op-keeps :
    (key value : String) (version : ℕ) (o : Option Cell) (s : Store) (k : String)
    → lookup k (put_op key value version o s).0 ≡ none
    → lookup k s ≡ none
unfolding put_op
put_op-keeps key value version none s k =
    if_cases (λ (r : Store × Reply). lookup k r.0 ≡ none → lookup k s ≡ none) (not (version == 0))
      (λ _ h. h) (λ _ h. insert-keeps key k _ s h)
put_op-keeps key value version (some c) s k =
    if_cases (λ (r : Store × Reply). lookup k r.0 ≡ none → lookup k s ≡ none)
      (not (c.version == version)) (λ _ h. h) (λ _ h. insert-keeps key k _ s h)

do_op-keeps :
    (r : Request) (s : Store) (k : String) → lookup k (do_op r s).0 ≡ none → lookup k s ≡ none
unfolding do_op
do_op-keeps (get_args key) s k h = h
do_op-keeps (put_args key value version) s k h = put_op-keeps key value version (lookup key s) s k h
do_op-keeps other s k h = h

execute-keeps :
    (rs : List Request) (s : Store) (k : String)
    → lookup k (execute rs s) ≡ none
    → lookup k s ≡ none
unfolding execute
execute-keeps [] s k h = h
execute-keeps (r ∷ rs) s k h = do_op-keeps r s k (execute-keeps rs (do_op r s).0 k h)

or_else-kept : (o d : Option Cell) → (o ≡ none → d ≡ none) → or_else o d ≡ o
or_else-kept none d h = h refl
or_else-kept (some c) d h = refl

-- If a store restores the snapshot of a later one, which has executed any further requests, then
-- Restore returns, and every key has the value and the version of the later store. The stream adds
-- to the map that is there, but no key of an earlier store is missing from a later one.
pub restore-snapshot :
    (gob : GobMap) (rs : List Request) (s : Store)
    → Encodes gob (execute rs s)
    → (s' : Store) × (restore gob (snapshot gob (execute rs s)) s ≡ some s')
      × ((k : String) → lookup k s' ≡ lookup k (execute rs s))
unfolding restore snapshot
restore-snapshot gob rs s e = (
  decode_into e.entries s,
  rw (e.stream, e.decoded) refl,
  λ k.
      lookup-decode_into k e.entries s e.keyed
      ∙ or_else-kept (lookup k e.entries) (lookup k s)
          (λ absent. execute-keeps rs s k (sym (e.same k) ∙ absent))
      ∙ e.same k,
)

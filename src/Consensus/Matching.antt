-- ===== src/Consensus/Matching.antt =====
-- log_replication.go: appendNewEntries against a description by recursion on the entries.
pub mod Merge
use raft_algorithm_thesis.Base.{
  ℕ, zero, suc, ◌+◌, ◌-◌, ◌≤◌, ◌<◌, ◌≡◌, refl, ap, ◌∙◌, some, List, [], ◌∷◌, ◌++◌, ◌==◌,
  if◌then◌else◌, length, get_elem?, take, drop, arith, Bool-cases, inl, inr, get_elem?-drop,
  take-append-drop, ltb, lt→ltb, le→ltb, true, false, subst,
}
use raft_algorithm_thesis.Consensus.Types.{Entry, Raft}
use raft_algorithm_thesis.Consensus.Log.{get_len, get_log}
use raft_algorithm_thesis.Consensus.Append.{append_new_entries}

module _ {C : Type 0} where
  -- The entries carry the indices i, i + 1, …
  abbrev pub IsContiguous : ℕ → List (Entry C) → Type 0
  IsContiguous i [] = Unit
  IsContiguous i (e ∷ es) = (e.index ≡ i) × IsContiguous (suc i) es

  -- An old log tail and the new entries for the same places: what agrees in its terms stays, and
  -- from the first difference on the new entries replace the rest.
  unfoldable pub merge : List (Entry C) → List (Entry C) → List (Entry C)
  merge old [] = old
  merge [] (e ∷ es) = e ∷ es
  merge (o ∷ os) (e ∷ es) = if o.term == e.term then o ∷ merge os es else e ∷ es

  pub get_log-drop :
      (rf : Raft C) (p : ℕ) → get_log rf (rf.last_included_index + p) ≡ get_elem? (drop p rf.logs) 0
  unfolding get_log
  get_log-drop rf p =
      rw (get_elem?-drop p rf.logs 0)
        (ground (arith, ap (get_elem? rf.logs) (index_eq rf.last_included_index p)))
    where
      index_eq : (k p : ℕ) → k + p - k ≡ p + 0
      index_eq k p = omega arith

  pub take-drop-suc :
      (p : ℕ) (xs : List (Entry C)) {x : Entry C} (rest ys : List (Entry C))
      → drop p xs ≡ x ∷ rest
      → (take (suc p) xs ++ ys ≡ take p xs ++ x ∷ ys) × (drop (suc p) xs ≡ rest)
  take-drop-suc zero [] rest ys h = cc
  take-drop-suc zero (x ∷ xs) rest ys h = ground arith
  take-drop-suc (suc p) [] rest ys h = cc
  take-drop-suc (suc p) (x ∷ xs) rest ys h = ground (arith, take-drop-suc p xs rest ys h)

  drop-eq-nil :
      (p : ℕ) (xs : List (Entry C))
      → drop p xs ≡ []
      → p ≤ length xs
      → (p ≡ length xs) × (take p xs ≡ xs)
  drop-eq-nil zero [] h le = (refl, refl)
  drop-eq-nil zero (x ∷ xs) h le = cc
  drop-eq-nil (suc p) [] h le = absurd (omega arith)
  drop-eq-nil (suc p) (x ∷ xs) h le = ground (arith, drop-eq-nil p xs h)

  drop-eq-cons :
      (p : ℕ) (xs : List (Entry C)) {x : Entry C} (rest : List (Entry C))
      → drop p xs ≡ x ∷ rest
      → p < length xs
  drop-eq-cons zero [] rest h = cc
  drop-eq-cons zero (x ∷ xs) rest h = omega arith
  drop-eq-cons (suc p) [] rest h = cc
  drop-eq-cons (suc p) (x ∷ xs) rest h = omega (arith, drop-eq-cons p xs rest h)

  -- One round of the loop: past the end, at an entry of the same term, at a conflict.
  append_round :
      (e : Entry C) (es : List (Entry C)) (rf : Raft C) (p : ℕ) (tail : List (Entry C))
      → drop p rf.logs ≡ tail
      → e.index ≡ rf.last_included_index + p
      → p ≤ length rf.logs
      → ((q : ℕ)
          → q ≡ suc p
          → q ≤ length rf.logs
          → append_new_entries es rf
            ≡ some (record rf { logs = take q rf.logs ++ merge (drop q rf.logs) es }))
      → append_new_entries (e ∷ es) rf
        ≡ some (record rf { logs = take p rf.logs ++ merge tail (e ∷ es) })
  unfolding append_new_entries merge get_len
  append_round e es rf p [] d i le ih = rw (past, (drop-eq-nil p rf.logs d le).1)
    where
      past : ltb e.index (get_len rf) ≡ false
      past = le→ltb e.index (get_len rf) (omega (arith, drop-eq-nil p rf.logs d le))
  append_round e es rf p (o ∷ os) d i le ih = elim (Bool-cases (o.term == e.term)) [
    | inl same ↦
        rw (below, found, same)
          (ih (suc p) refl inside
            ∙ ap (λ (l : List (Entry C)). some (record rf { logs = l })) (step same))
    | inr differs ↦ rw (below, found, differs, offset)
  ]
    where
      inside : p < length rf.logs
      inside = drop-eq-cons p rf.logs os d

      below : ltb e.index (get_len rf) ≡ true
      below = lt→ltb e.index (get_len rf) (omega (arith, inside))

      found : get_log rf e.index ≡ some o
      found = rw i (get_log-drop rf p ∙ ap (λ (l : List (Entry C)). get_elem? l 0) d)

      offset : e.index - rf.last_included_index ≡ p
      offset = omega arith

      step :
          (o.term == e.term) ≡ true
          → take (suc p) rf.logs ++ merge (drop (suc p) rf.logs) es
            ≡ take p rf.logs ++ (o ∷ merge os es)
      step same =
          rw (← (take-drop-suc p rf.logs os (merge os es) d).0, (take-drop-suc p rf.logs os [] d).1)

  -- appendNewEntries, on entries that continue the log from place `p`, is `merge` behind place `p`;
  -- in particular it does not panic, and it changes nothing but the log.
  pub append_new_entries-merge :
      (es : List (Entry C)) (rf : Raft C) (p : ℕ)
      → IsContiguous (rf.last_included_index + p) es
      → p ≤ length rf.logs
      → append_new_entries es rf
        ≡ some (record rf { logs = take p rf.logs ++ merge (drop p rf.logs) es })
  unfolding append_new_entries merge
  append_new_entries-merge [] rf p c le = rw (take-append-drop p rf.logs)
  append_new_entries-merge (e ∷ es) rf p c le =
      append_round e es rf p (drop p rf.logs) refl c.0 le
        (λ q eq q_le. append_new_entries-merge es rf q (shift q eq) q_le)
    where
      shift : (q : ℕ) → q ≡ suc p → IsContiguous (rf.last_included_index + q) es
      shift q eq = subst (λ i. IsContiguous i es) (omega arith) c.1

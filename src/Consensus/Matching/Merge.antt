-- ===== src/Consensus/Matching/Merge.antt =====
-- log_replication.go: `merge`, the description of appendNewEntries, entry by entry.
use raft_algorithm_thesis.Base.{
  ℕ, zero, suc, ◌≤◌, ◌≡◌, refl, some, List, [], ◌∷◌, length, get_elem?, take, arith, ◌==◌,
  Bool-cases, inl, inr,
}
use raft_algorithm_thesis.Consensus.Types.{Entry}
use raft_algorithm_thesis.Consensus.Matching.{IsContiguous, merge}

module _ {C : Type 0} where
  -- The terms of the two agree in the first k places where both have an entry.
  abbrev pub AgreesTo : ℕ → List (Entry C) → List (Entry C) → Type 0
  AgreesTo zero old es = Unit
  AgreesTo (suc k) [] es = Unit
  AgreesTo (suc k) (o ∷ os) [] = Unit
  AgreesTo (suc k) (o ∷ os) (e ∷ es) = (o.term ≡ e.term) × AgreesTo k os es

  -- Every new entry is there afterwards, at its place and with its term.
  pub get_elem?-merge :
      (old es : List (Entry C)) (k : ℕ) {e : Entry C}
      → get_elem? es k ≡ some e
      → (e' : Entry C) × (get_elem? (merge old es) k ≡ some e') × (e'.term ≡ e.term)
  unfolding merge
  get_elem?-merge old [] k h = cc
  get_elem?-merge [] (e ∷ es) k {e = x} h = (x, h, refl)
  get_elem?-merge (o ∷ os) (e ∷ es) zero h = elim (Bool-cases (o.term == e.term)) [
    | inl same ↦ rw same (o, refl, ground arith)
    | inr differs ↦ rw differs (e, refl, ground arith)
  ]
  get_elem?-merge (o ∷ os) (e ∷ es) (suc k) {e = x} h = elim (Bool-cases (o.term == e.term)) [
    | inl same ↦ rw same (get_elem?-merge os es k h)
    | inr differs ↦ rw differs (x, h, refl)
  ]

  pub merge-IsContiguous :
      (i : ℕ) (old es : List (Entry C))
      → IsContiguous i old
      → IsContiguous i es
      → IsContiguous i (merge old es)
  unfolding merge
  merge-IsContiguous i old [] co ce = co
  merge-IsContiguous i [] (e ∷ es) co ce = ce
  merge-IsContiguous i (o ∷ os) (e ∷ es) co ce = elim (Bool-cases (o.term == e.term)) [
    | inl same ↦ rw same (co.0, merge-IsContiguous (suc i) os es co.1 ce.1)
    | inr differs ↦ rw differs ce
  ]

  pub length-merge : (old es : List (Entry C)) → length es ≤ length (merge old es)
  unfolding merge
  length-merge old [] = omega arith
  length-merge [] (e ∷ es) = omega arith
  length-merge (o ∷ os) (e ∷ es) = ground (arith, length-merge os es)

  -- What agrees with the new entries is not lost.
  pub merge-AgreesTo :
      (k : ℕ) (old es : List (Entry C))
      → AgreesTo k old es
      → k ≤ length old
      → (take k (merge old es) ≡ take k old) × (k ≤ length (merge old es))
  unfolding merge
  merge-AgreesTo zero old es a le = (refl, omega arith)
  merge-AgreesTo (suc k) [] es a le = absurd (omega arith)
  merge-AgreesTo (suc k) (o ∷ os) [] a le = (refl, le)
  merge-AgreesTo (suc k) (o ∷ os) (e ∷ es) a le =
      ground (arith, merge-AgreesTo k os es a.1 (omega arith))

  -- Entries that are all in the log already change nothing: a delayed or repeated request is
  -- harmless, also where the log has grown beyond it.
  pub merge_stale :
      (old es : List (Entry C))
      → AgreesTo (length es) old es
      → length es ≤ length old
      → merge old es ≡ old
  unfolding merge
  merge_stale old [] a le = refl
  merge_stale [] (e ∷ es) a le = absurd (omega arith)
  merge_stale (o ∷ os) (e ∷ es) a le = ground (arith, merge_stale os es a.1 (omega arith))

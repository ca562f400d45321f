-- ===== src/Consensus/Invariant.antt =====
-- The invariant of a node's state, and access to the log under it.
use raft_algorithm_thesis.Base.{
  ℕ, zero, suc, ◌+◌, ◌-◌, ◌≤◌, ◌<◌, ◌≡◌, sym, ◌∙◌, some, List, [], ◌∷◌, ◌++◌, length, take, drop,
  get_elem?, get_elem?_total, get_elem?-lt, arith, false, ◌==◌, le→ltb, subst,
}
use raft_algorithm_thesis.Consensus.Types.{Entry, Raft}
use raft_algorithm_thesis.Consensus.Log.{get_log, get_last_log}
use raft_algorithm_thesis.Consensus.Matching.{IsContiguous}

module _ {C : Type 0} where
  pub record IsWellFormed (rf : Raft C) : Type 0 where
    pub contiguous : IsContiguous rf.last_included_index rf.logs
    pub nonempty : 0 < length rf.logs
    pub anchored : rf.last_included_index ≤ rf.commit_index
    pub committed : rf.commit_index < rf.last_included_index + length rf.logs
    pub applied : rf.last_applied ≤ rf.commit_index
    pub member : rf.me < rf.peers
    pub nexts : length rf.next_index ≡ rf.peers
    pub matches : length rf.match_index ≡ rf.peers

  -- The log has an entry of term `t` at index `i`.
  abbrev pub HasTerm : Raft C → ℕ → ℕ → Type 0
  HasTerm rf i t = (e : Entry C) × (get_log rf i ≡ some e) × (e.term ≡ t)

  pub get_log-get_elem? :
      (rf : Raft C) (i : ℕ)
      → rf.last_included_index ≤ i
      → get_log rf i ≡ get_elem? rf.logs (i - rf.last_included_index)
  unfolding get_log
  get_log-get_elem? rf i h = rw (le→ltb i rf.last_included_index h)

  pub get_log_total :
      (rf : Raft C) (i : ℕ)
      → rf.last_included_index ≤ i
      → i < rf.last_included_index + length rf.logs
      → (e : Entry C) × (get_log rf i ≡ some e)
  get_log_total rf i h lt =
      rw (get_log-get_elem? rf i h)
        (get_elem?_total rf.logs (i - rf.last_included_index) (omega arith))

  -- An entry that is read stands in range.
  pub get_log-range :
      (rf : Raft C) (i : ℕ) {e : Entry C}
      → get_log rf i ≡ some e
      → (rf.last_included_index ≤ i) × (i < rf.last_included_index + length rf.logs)
  unfolding get_log
  get_log-range rf i {e} h =
      ground (arith, get_elem?-lt rf.logs (i - rf.last_included_index) {a = e})

  pub IsContiguous-get_elem? :
      (i : ℕ) (xs : List (Entry C)) (k : ℕ) {e : Entry C}
      → IsContiguous i xs
      → get_elem? xs k ≡ some e
      → e.index ≡ i + k
  IsContiguous-get_elem? i [] k c h = cc
  IsContiguous-get_elem? i (x ∷ xs) zero c h = ground arith
  IsContiguous-get_elem? i (x ∷ xs) (suc k) c h =
      omega (arith, IsContiguous-get_elem? (suc i) xs k c.1 h)

  pub IsContiguous-append :
      (i : ℕ) (xs ys : List (Entry C))
      → IsContiguous i xs
      → IsContiguous (i + length xs) ys
      → IsContiguous i (xs ++ ys)
  IsContiguous-append i [] ys cx cy = subst (λ k. IsContiguous k ys) (omega arith) cy
  IsContiguous-append i (x ∷ xs) ys cx cy = (
    cx.0,
    IsContiguous-append (suc i) xs ys cx.1 (subst (λ k. IsContiguous k ys) (omega arith) cy),
  )

  pub IsContiguous-take :
      (i n : ℕ) (xs : List (Entry C)) → IsContiguous i xs → IsContiguous i (take n xs)
  IsContiguous-take i zero xs c = tt
  IsContiguous-take i (suc n) [] c = tt
  IsContiguous-take i (suc n) (x ∷ xs) c = (c.0, IsContiguous-take (suc i) n xs c.1)

  pub IsContiguous-drop :
      (i n : ℕ) (xs : List (Entry C)) → IsContiguous i xs → IsContiguous (i + n) (drop n xs)
  IsContiguous-drop i zero xs c = subst (λ k. IsContiguous k xs) (omega arith) c
  IsContiguous-drop i (suc n) [] c = tt
  IsContiguous-drop i (suc n) (x ∷ xs) c =
      subst (λ k. IsContiguous k (drop n xs)) (omega arith) (IsContiguous-drop (suc i) n xs c.1)

  module _ {rf : Raft C} (wf : IsWellFormed rf) where
    -- An entry of the log carries its own index.
    pub get_log-index : (i : ℕ) {e : Entry C} → get_log rf i ≡ some e → e.index ≡ i
    get_log-index i {e} h = omega (
      arith,
      IsContiguous-get_elem? rf.last_included_index rf.logs (i - rf.last_included_index) {e = e}
          wf.contiguous (sym (get_log-get_elem? rf i (get_log-range rf i h).0) ∙ h),
      get_log-range rf i h,
    )

    pub get_last_log_total :
        (e : Entry C) × (get_last_log rf ≡ some e)
        × (e.index + 1 ≡ rf.last_included_index + length rf.logs)
    unfolding get_last_log
    get_last_log_total =
        let (e, q) = get_elem?_total rf.logs (length rf.logs - 1) (omega (arith, wf.nonempty)) in
        (e, rw (nonzero) q, omega (arith, wf.nonempty, at_end e q))
      where
        nonzero : (length rf.logs == 0) ≡ false
        nonzero = ground (arith, wf.nonempty)

        at_end :
            (e : Entry C)
            → get_elem? rf.logs (length rf.logs - 1) ≡ some e
            → e.index ≡ rf.last_included_index + (length rf.logs - 1)
        at_end e q =
            IsContiguous-get_elem? rf.last_included_index rf.logs (length rf.logs - 1) wf.contiguous
              q

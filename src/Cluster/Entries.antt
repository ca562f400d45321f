-- ===== src/Cluster/Entries.antt =====
-- raft.go and storage.go: the entries that Start and Snapshot keep.
use raft_algorithm_thesis.Base.{
  ℕ, zero, suc, ◌+◌, ◌-◌, ◌≤◌, ◌≡◌, refl, sym, ◌∙◌, ap, subst, not, ◌||◌, Option, some, List, [],
  ◌∷◌, ◌++◌, if_cases, Ensures, Ensures->>=, Ensures-some, ltb, leb, get_elem?, length, drop, arith,
  le→ltb, get_elem?-drop,
}
use raft_algorithm_thesis.Consensus.Types.{Entry, Raft}
use raft_algorithm_thesis.Consensus.Log.{
  is_leader, get_log, get_len, get_physical_index, slice_from, get_first_log,
}
use raft_algorithm_thesis.Consensus.Storage.{save, snapshot}
use raft_algorithm_thesis.Consensus.Leader.{start}
use raft_algorithm_thesis.Consensus.Invariant.{get_log-get_elem?}
use raft_algorithm_thesis.Consensus.Backtrack.Refusing.{SameLog, persist-SameLog}

module _ {C : Type 0} where
  -- The entries that one log has and the other has not compacted are in the other.
  abbrev pub KeepsEntries : Raft C → Raft C → Type 0
  KeepsEntries rf rf' =
      (i : ℕ) (e : Entry C)
      → rf'.last_included_index ≤ i
      → get_log rf i ≡ some e
      → get_log rf' i ≡ some e

  pub SameLog-KeepsEntries : (rf rf' : Raft C) → SameLog rf rf' → KeepsEntries rf rf'
  unfolding get_log get_physical_index
  SameLog-KeepsEntries rf rf' (l, s) i e le q = rw (l, s) q

  get_elem?-append :
      (xs ys : List (Entry C)) (i : ℕ) {e : Entry C}
      → get_elem? xs i ≡ some e
      → get_elem? (xs ++ ys) i ≡ some e
  get_elem?-append [] ys i h = cc
  get_elem?-append (x ∷ xs) ys zero h = h
  get_elem?-append (x ∷ xs) ys (suc i) h = get_elem?-append xs ys i h

  grown-KeepsEntries :
      (rf : Raft C) (es : List (Entry C)) → KeepsEntries rf (record rf { logs = rf.logs ++ es })
  unfolding get_log get_physical_index
  grown-KeepsEntries rf es i e le q = rw (le→ltb i rf.last_included_index le) (
      get_elem?-append rf.logs es (i - rf.last_included_index)
        (sym (get_log-get_elem? rf i le) ∙ q))

  then_SameLog : (rf mid rf' : Raft C) → KeepsEntries rf mid → SameLog mid rf' → KeepsEntries rf rf'
  then_SameLog rf mid rf' k s i e le q =
      SameLog-KeepsEntries mid rf' s i e le (k i e (subst (λ n. n ≤ i) s.1 le) q)

  pub start-KeepsEntries : (command : Option C) (rf : Raft C) → KeepsEntries rf (start command rf).0
  unfolding start
  start-KeepsEntries command rf =
      if_cases (λ (r : Raft C × Option (ℕ × ℕ)). KeepsEntries rf r.0) (not (is_leader rf.state))
        (λ _ i e le q. q)
        (λ _.
          then_SameLog rf (record rf { logs = rf.logs ++ entry ∷ [] }) _
            (grown-KeepsEntries rf (entry ∷ [])) (persist-SameLog _))
    where
      entry : Entry C
      entry = record { index = get_len rf; term = rf.current_term; command = command }

  physical :
      (rf : Raft C) (index : ℕ) {p : ℕ}
      → get_physical_index rf index ≡ some p
      → (rf.last_included_index ≤ index) × (p ≡ index - rf.last_included_index)
  unfolding get_physical_index
  physical rf index run = ground arith

  sliced : (xs : List (Entry C)) (p : ℕ) → Ensures (λ rest. rest ≡ drop p xs) (slice_from xs p)
  unfolding slice_from
  sliced xs p =
      if_cases (Ensures (λ rest. rest ≡ drop p xs)) (leb p (length xs)) (λ _. refl) (λ _. tt)

  -- A log that is cut at an index.
  cut-KeepsEntries :
      (rf rf' : Raft C) (index : ℕ)
      → rf.last_included_index ≤ index
      → rf'.logs ≡ drop (index - rf.last_included_index) rf.logs
      → rf'.last_included_index ≡ index
      → KeepsEntries rf rf'
  cut-KeepsEntries rf rf' index le l s i e above q =
      get_log-get_elem? rf' i above
      ∙ rw (l, s)
          (get_elem?-drop (index - rf.last_included_index) rf.logs (i - index)
            ∙ ap (get_elem? rf.logs) at
            ∙ sym (get_log-get_elem? rf i (omega (arith, above, s)))
            ∙ q)
    where
      at : index - rf.last_included_index + (i - index) ≡ i - rf.last_included_index
      at = omega (arith, above, s)

  pub snapshot-KeepsEntries :
      (index : ℕ) (bytes : List ℕ) (rf : Raft C)
      → Ensures (KeepsEntries rf) (snapshot index bytes rf)
  unfolding snapshot save
  snapshot-KeepsEntries index bytes rf =
      if_cases (Ensures (KeepsEntries rf))
        (leb index rf.last_included_index || ltb rf.commit_index index) (λ skip i e le q. q)
        (λ _. Ensures->>= (KeepsEntries rf) (get_physical_index rf index) _ (λ p run.
          Ensures->>= (KeepsEntries rf) (slice_from rf.logs p) _ (λ rest cut.
            Ensures->>= (KeepsEntries rf) (get_first_log _) _ (λ first _.
              let (le, at) = physical rf index run in
              cut-KeepsEntries rf _ index le
                (subst (λ p. rest ≡ drop p rf.logs) at
                  (Ensures-some (λ rest. rest ≡ drop p rf.logs) _ (sliced rf.logs p) cut))
                refl))))

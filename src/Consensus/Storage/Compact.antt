-- ===== src/Consensus/Storage/Compact.antt =====
-- storage.go: Snapshot, and the log that it leaves.
use raft_algorithm_thesis.Base.{
  ℕ, ◌+◌, ◌-◌, ◌≤◌, ◌<◌, ◌≡◌, refl, sym, ◌∙◌, ap, subst, false, ◌||◌, some, List, length, drop,
  get_elem?, get_elem?-drop, get_elem?_total, length-drop, arith, ltb, leb, le→ltb, le→leb, Returns,
  ◌⊎◌,
}
use raft_algorithm_thesis.Consensus.Types.{Entry, Raft}
use raft_algorithm_thesis.Consensus.Log.{get_log, get_physical_index, slice_from, get_first_log}
use raft_algorithm_thesis.Consensus.Storage.{snapshot, save}
use raft_algorithm_thesis.Consensus.Matching.{IsContiguous}
use raft_algorithm_thesis.Consensus.Invariant.{
  IsWellFormed, HasTerm, get_log-get_elem?, IsContiguous-drop,
}

module _ {C : Type 0} where
  pub slice_from-drop :
      (xs : List (Entry C)) (i : ℕ) → i ≤ length xs → slice_from xs i ≡ some (drop i xs)
  unfolding slice_from
  slice_from-drop xs i h = rw (le→leb i (length xs) h)

  pub get_physical_index-sub :
      (rf : Raft C) (i : ℕ)
      → rf.last_included_index ≤ i
      → get_physical_index rf i ≡ some (i - rf.last_included_index)
  unfolding get_physical_index
  get_physical_index-sub rf i h = rw (le→ltb i rf.last_included_index h)

  -- The log cut at an index, as a node of its own.
  pub get_log-cut :
      (rf rf' : Raft C) (index i : ℕ)
      → rf.last_included_index ≤ index
      → index ≤ i
      → rf'.logs ≡ drop (index - rf.last_included_index) rf.logs
      → rf'.last_included_index ≡ index
      → get_log rf' i ≡ get_log rf i
  get_log-cut rf rf' index i lo le logs at =
      get_log-get_elem? rf' i (omega arith)
      ∙ moved
      ∙ ap (get_elem? rf.logs) offset
      ∙ sym (get_log-get_elem? rf i (omega arith))
    where
      moved :
          get_elem? rf'.logs (i - rf'.last_included_index)
          ≡ get_elem? rf.logs (index - rf.last_included_index + (i - index))
      moved = rw (logs, at) (get_elem?-drop (index - rf.last_included_index) rf.logs (i - index))

      offset : index - rf.last_included_index + (i - index) ≡ i - rf.last_included_index
      offset = omega arith

  -- What a snapshot at an index leaves.
  pub record IsCompacted (index : ℕ) (bytes : List ℕ) (rf rf' : Raft C) : Type 0 where
    pub well_formed : IsWellFormed rf'
    pub at : rf'.last_included_index ≡ index
    pub stored : rf'.persister.snapshot ≡ bytes
    pub boundary : HasTerm rf index rf'.last_included_term
    pub kept : (i : ℕ) → index ≤ i → get_log rf' i ≡ get_log rf i

  -- The node after a snapshot is taken, `first` being the entry at the index.
  abbrev compacted : ℕ → List ℕ → Entry C → Raft C → Raft C
  compacted index bytes first rf = save bytes (record rf {
    logs = drop (index - rf.last_included_index) rf.logs;
    last_included_index = index;
    last_included_term = first.term;
  })

  compacted-IsWellFormed :
      (index : ℕ) (bytes : List ℕ) (first : Entry C) (rf : Raft C)
      → IsWellFormed rf
      → rf.last_included_index < index
      → index ≤ rf.commit_index
      → IsWellFormed (compacted index bytes first rf)
  unfolding save
  compacted-IsWellFormed index bytes first rf wf lo hi = record {
    contiguous =
        subst (λ i. IsContiguous i (drop p rf.logs)) (omega arith)
          (IsContiguous-drop rf.last_included_index p rf.logs wf.contiguous);
    nonempty = omega (arith, length-drop p rf.logs, wf.committed);
    anchored = hi;
    committed = omega (arith, length-drop p rf.logs, wf.committed);
    applied = wf.applied;
    member = wf.member;
    nexts = wf.nexts;
    matches = wf.matches;
  }
    where
      p : ℕ
      p = index - rf.last_included_index

  -- Snapshot on a well-formed node, for an index that is applied and not yet compacted: it returns,
  -- stores the bytes, keeps the invariant and every entry from the index on, and takes the
  -- boundary's term from the log.
  pub snapshot-IsCompacted :
      (index : ℕ) (bytes : List ℕ) (rf : Raft C)
      → IsWellFormed rf
      → rf.last_included_index < index
      → index ≤ rf.commit_index
      → Returns (IsCompacted index bytes rf) (snapshot index bytes rf)
  unfolding snapshot get_first_log
  snapshot-IsCompacted index bytes rf wf lo hi =
      let (first, q) =
        get_elem?_total (drop p rf.logs) 0 (omega (arith, length-drop p rf.logs, wf.committed)) in
      (
        compacted index bytes first rf,
        rw (
          takes,
          get_physical_index-sub rf index (omega arith),
          slice_from-drop rf.logs p (omega (arith, wf.committed)),
          q,
        ),
        record {
          well_formed = compacted-IsWellFormed index bytes first rf wf lo hi;
          at = unfold save in refl;
          stored = unfold save in refl;
          boundary = (first, at_index first q, unfold save in refl);
          kept = λ i le.
              get_log-cut rf (compacted index bytes first rf) index i (omega arith) le
                (unfold save in refl) (unfold save in refl);
        },
      )
    where
      p : ℕ
      p = index - rf.last_included_index

      plus_zero : index - rf.last_included_index ≡ p + 0
      plus_zero = omega arith

      at_index :
          (first : Entry C)
          → get_elem? (drop p rf.logs) 0 ≡ some first
          → get_log rf index ≡ some first
      at_index first q =
          get_log-get_elem? rf index (omega arith)
          ∙ ap (get_elem? rf.logs) plus_zero
          ∙ sym (get_elem?-drop p rf.logs 0)
          ∙ q

      takes : (leb index rf.last_included_index || ltb rf.commit_index index) ≡ false
      takes = ground arith

  -- Otherwise it changes nothing.
  pub snapshot_skips :
      (index : ℕ) (bytes : List ℕ) (rf : Raft C)
      → (index ≤ rf.last_included_index) ⊎ (rf.commit_index < index)
      → snapshot index bytes rf ≡ some rf
  unfolding snapshot
  snapshot_skips index bytes rf h = ground arith

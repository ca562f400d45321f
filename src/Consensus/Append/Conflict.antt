-- ===== src/Consensus/Append/Conflict.antt =====
-- log_replication.go: handleConsistencyConflict, and what its hints mean.
use native.Mathlib.Decide.{dec_le, dec_lt}
use raft_algorithm_thesis.Base.{
  ℕ, zero, suc, ◌+◌, ◌≤◌, ◌<◌, ◌≡◌, ◌≢◌, refl, Option, none, some, length, arith, false, ltb, leb,
  ◌==◌, le→ltb, le→leb, lt→ltb, subst, ◌||◌, Bool-cases, inl, inr, ◌⊎◌, ==_iff, lt→leb-false,
}
use raft_algorithm_thesis.Consensus.Types.{Entry, Raft, AppendEntriesArgs, AppendEntriesReply}
use raft_algorithm_thesis.Consensus.Log.{get_len, get_log, has_entry_at}
use raft_algorithm_thesis.Consensus.Append.{scan_conflict, handle_consistency_conflict}
use raft_algorithm_thesis.Consensus.Invariant.{IsWellFormed, HasTerm, get_log_total, get_log-range}

module _ {C : Type 0} {rf : Raft C} (wf : IsWellFormed rf) where
  -- Where the scan stops: all above has the term, and at the place itself, the log proper, not.
  abbrev IsScan : ℕ → ℕ → ℕ → Type 0
  IsScan term from to =
      (to ≤ from)
      × ((i : ℕ) → to < i → i ≤ from → HasTerm rf i term)
      × ((to ≤ rf.last_included_index)
          ⊎ ((e : Entry C) × (get_log rf to ≡ some e) × (e.term ≢ term)))

  -- The scan goes on below an entry of the term.
  IsScan-suc :
      (term from to : ℕ) {e : Entry C}
      → get_log rf (suc from) ≡ some e
      → e.term ≡ term
      → IsScan term from to
      → IsScan term (suc from) to
  IsScan-suc term from to {e} q same (le, above, stop) = (omega arith, here, stop)
    where
      here : (i : ℕ) → to < i → i ≤ suc from → HasTerm rf i term
      here i lt i_le = elim (dec_le i from) [
        | yes low ↦ above i lt low
        | no high ↦ subst (λ j. HasTerm rf j term) (omega arith) (e, q, same)
      ]

  scan_conflict-IsScan :
      (term from : ℕ)
      → from < rf.last_included_index + length rf.logs
      → (to : ℕ) × (scan_conflict rf term from ≡ some to) × IsScan term from to
  unfolding scan_conflict
  scan_conflict-IsScan term zero h =
      (0, refl, (omega arith, λ i a b. absurd (omega arith), inl (omega arith)))
  scan_conflict-IsScan term (suc from) h =
      elim (Bool-cases (ltb rf.last_included_index (suc from))) [
        | inl inside ↦
            (let (e, q) = get_log_total rf (suc from) (ground arith) h in
              elim (Bool-cases (e.term == term)) [
                | inl same ↦
                    (let (to, run, s) = scan_conflict-IsScan term from (omega arith) in
                      (
                        to,
                        rw (inside, q, same) run,
                        IsScan-suc term from to q ((==_iff e.term term).0 same) s,
                      ))
                | inr differs ↦ (
                  suc from,
                  rw (inside, q, differs),
                  (omega arith, λ i a b. absurd (omega arith), inr (e, q, ground arith)),
                )
              ])
        | inr outside ↦
            (suc from, rw outside, (omega arith, λ i a b. absurd (omega arith), inl (ground arith)))
      ]

  -- A refusal names where to go on: behind the snapshot, at the end of the log, or at the first
  -- entry of the conflicting term.
  pub data Hint (args : AppendEntriesArgs C) (reply refused : AppendEntriesReply) : Type 0 where
    compacted :
        args.prev_log_index < rf.last_included_index
        → refused
          ≡ record reply { conflict_index = rf.last_included_index + 1; conflict_term = none }
        → Hint args reply refused
    too_short :
        get_len rf ≤ args.prev_log_index
        → refused ≡ record reply { conflict_index = get_len rf; conflict_term = none }
        → Hint args reply refused
    conflicting :
        (term index : ℕ)
        → HasTerm rf args.prev_log_index term
        → term ≢ args.prev_log_term
        → IsScan term args.prev_log_index index
        → refused ≡ record reply { conflict_index = index + 1; conflict_term = some term }
        → Hint args reply refused

  pub has_entry_at-get_log :
      (i term : ℕ) {e : Entry C}
      → get_log rf i ≡ some e
      → has_entry_at rf i term ≡ some (e.term == term)
  unfolding has_entry_at get_len
  has_entry_at-get_log i term {e} q = rw (in_range, q)
    where
      in_range :
          (ltb i rf.last_included_index || leb (rf.last_included_index + length rf.logs) i) ≡ false
      in_range = ground (arith, get_log-range rf i {e = e} q)

  pub has_entry_at_beyond : (i term : ℕ) → get_len rf ≤ i → has_entry_at rf i term ≡ some false
  unfolding has_entry_at
  has_entry_at_beyond i term h = ground arith

  -- Whether a request goes through, and with which hint it is refused.
  abbrev pub Outcome :
      AppendEntriesArgs C → AppendEntriesReply → Option (Option AppendEntriesReply) → Type 0
  Outcome args reply r =
      (HasTerm rf args.prev_log_index args.prev_log_term × (r ≡ some none))
      ⊎ ((refused : AppendEntriesReply) × Hint args reply refused × (r ≡ some (some refused)))

  conflict_at_entry :
      (args : AppendEntriesArgs C) (reply : AppendEntriesReply)
      → rf.last_included_index ≤ args.prev_log_index
      → args.prev_log_index < rf.last_included_index + length rf.logs
      → Outcome args reply (handle_consistency_conflict args reply rf)
  unfolding handle_consistency_conflict get_len
  conflict_at_entry args reply lo hi =
      let prev = args.prev_log_index in
      let (e, q) = get_log_total rf prev lo hi in
      elim (Bool-cases (e.term == args.prev_log_term)) [
        | inl same ↦ inl (
          (e, q, (==_iff _ _).0 same),
          rw (le→ltb prev rf.last_included_index lo, has_entry_at-get_log prev _ q, same),
        )
        | inr differs ↦
            (let (to, run, s) = scan_conflict-IsScan e.term prev hi in
              inr (
                _,
                conflicting e.term to (e, q, refl) (ground arith) s refl,
                rw (
                  le→ltb prev rf.last_included_index lo,
                  has_entry_at-get_log prev _ q,
                  differs,
                  lt→leb-false _ _ hi,
                  q,
                  run,
                ),
              ))
      ]

  -- On a well-formed node the check returns: it lets the request through, and the log has the
  -- request's previous entry with its term; or it refuses with one of three hints. The previous
  -- entry is in the snapshot, and the hint is behind the snapshot; it is beyond the log, and the hint
  -- is the log's end; or it has another term, and the hint is that term with the index behind which
  -- all entries up to the previous one have it.
  pub handle_consistency_conflict_cases :
      (args : AppendEntriesArgs C) (reply : AppendEntriesReply)
      → Outcome args reply (handle_consistency_conflict args reply rf)
  unfolding handle_consistency_conflict
  handle_consistency_conflict_cases args reply = elim (dec_lt prev rf.last_included_index) [
    | yes below ↦ inr (_, compacted below refl, rw (lt→ltb prev rf.last_included_index below))
    | no above ↦ elim (dec_le (get_len rf) prev) [
      | yes beyond ↦ inr (
        _,
        too_short beyond refl,
        rw (
          le→ltb prev rf.last_included_index (omega arith),
          has_entry_at_beyond prev _ beyond,
          le→leb (get_len rf) prev beyond,
        ),
      )
      | no within ↦ conflict_at_entry args reply (omega arith) (within_len within)
    ]
  ]
    where
      prev : ℕ
      prev = args.prev_log_index

      within_len : ¬ (get_len rf ≤ prev) → prev < rf.last_included_index + length rf.logs
      within_len h = unfold get_len in omega arith

-- ===== src/Consensus/Node/WellFormed.antt =====
-- The invariant of a node over any of its events.
use native.Mathlib.Decide.{dec_le, dec_lt}
use raft_algorithm_thesis.Base.{
  List, Ensures-intro, ℕ, ◌≡◌, sym, subst, Option, none, some, Ensures, Ensures-some, suc, inl, inr,
  arith,
}
use raft_algorithm_thesis.Consensus.Types.{Raft}
use raft_algorithm_thesis.Consensus.Matching.{IsContiguous}
use raft_algorithm_thesis.Consensus.Invariant.{IsWellFormed}
use raft_algorithm_thesis.Consensus.Storage.{snapshot}
use raft_algorithm_thesis.Consensus.Storage.Compact.{snapshot-IsCompacted, snapshot_skips}
use raft_algorithm_thesis.Consensus.Storage.Install.{Covers}
use raft_algorithm_thesis.Consensus.Storage.Receive.{install_snapshot-Received}
use raft_algorithm_thesis.Consensus.Append.Preserve.{AgreesOnCommitted, append_entries-IsWellFormed}
use raft_algorithm_thesis.Consensus.Applier.Order.{apply_round-Applies}
use raft_algorithm_thesis.Consensus.Node.{
  Event, append_request, vote_request, snapshot_request, submitted, election_timer, vote_reply,
  append_reply, snapshot_reply, compacted, applied, restarted, state_of, step,
}
use raft_algorithm_thesis.Consensus.Node.Durable.{IsLive}
use raft_algorithm_thesis.Consensus.Node.Electing.{
  FstWellFormed, request_vote-IsWellFormed, start-IsWellFormed, election_timeout-IsWellFormed,
  request_vote_from_peer-IsWellFormed,
}
use raft_algorithm_thesis.Consensus.Node.Replying.{
  append_reply-IsWellFormed, snapshot_reply-IsWellFormed,
}
use raft_algorithm_thesis.Consensus.Node.Booting.{restart-IsWellFormed}

module _ {C : Type 0} where
  -- What the protocol promises to a node about the requests that reach it: entries are consecutive,
  -- and neither they nor a snapshot contradict what the node has committed.
  abbrev pub Admissible : Event C → Raft C → Type 0
  Admissible (append_request args) rf =
      IsContiguous (suc args.prev_log_index) args.entries × AgreesOnCommitted args rf
  Admissible (snapshot_request args) rf = Covers args rf
  Admissible _ rf = Unit

  state_of-IsWellFormed :
      {A : Type 0} (m : Option (Raft C × A))
      → Ensures FstWellFormed m
      → Ensures IsWellFormed (state_of m)
  state_of-IsWellFormed none h = tt
  state_of-IsWellFormed (some (rf, a)) h = h

  snapshot-IsWellFormed :
      (index : ℕ) (bytes : List ℕ) (rf : Raft C)
      → IsWellFormed rf
      → Ensures IsWellFormed (snapshot index bytes rf)
  snapshot-IsWellFormed index bytes rf wf = elim (dec_le index rf.last_included_index) [
    | yes old ↦ subst (Ensures IsWellFormed) (sym (snapshot_skips index bytes rf (inl old))) wf
    | no newer ↦ elim (dec_lt rf.commit_index index) [
      | yes early ↦
          subst (Ensures IsWellFormed) (sym (snapshot_skips index bytes rf (inr early))) wf
      | no covered ↦
          (let (rf', run, h) = snapshot-IsCompacted index bytes rf wf (omega arith) (omega arith) in
            subst (Ensures IsWellFormed) (sym run) h.well_formed)
    ]
  ]

  step-Ensures :
      (e : Event C) (rf : Raft C)
      → IsLive rf
      → IsWellFormed rf
      → Admissible e rf
      → Ensures IsWellFormed (step e rf)
  unfolding step
  step-Ensures (append_request args) rf l wf (c, agrees) =
      state_of-IsWellFormed _ (
        Ensures-intro FstWellFormed _
          (λ r run. append_entries-IsWellFormed args rf wf c agrees run))
  step-Ensures (vote_request args) rf l wf ok =
      state_of-IsWellFormed _ (request_vote-IsWellFormed args rf wf)
  step-Ensures (snapshot_request args) rf l wf covers =
      let (r, run, h) = install_snapshot-Received args rf wf covers in
      state_of-IsWellFormed _ (subst (Ensures FstWellFormed) (sym run) h.0)
  step-Ensures (submitted command) rf l wf ok = start-IsWellFormed command rf wf
  step-Ensures election_timer rf l wf ok =
      state_of-IsWellFormed _ (election_timeout-IsWellFormed rf wf)
  step-Ensures (vote_reply args reply granted) rf l wf ok =
      state_of-IsWellFormed _ (request_vote_from_peer-IsWellFormed args reply granted rf wf)
  step-Ensures (append_reply peer args reply) rf l wf ok =
      append_reply-IsWellFormed peer args reply rf wf
  step-Ensures (snapshot_reply peer args reply) rf l wf ok =
      snapshot_reply-IsWellFormed peer args reply rf wf
  step-Ensures (compacted index bytes) rf l wf ok = snapshot-IsWellFormed index bytes rf wf
  step-Ensures applied rf l wf ok =
      let (r, run, h) = apply_round-Applies rf wf in
      state_of-IsWellFormed _ (subst (Ensures FstWellFormed) (sym run) h.0)
  step-Ensures restarted rf l wf ok = restart-IsWellFormed rf l wf

  -- Every event keeps a live node well-formed, on every outcome, where the entries of an
  -- AppendEntries request are consecutive and agree with what the node has committed, and where the
  -- node has committed nothing against the snapshot of an InstallSnapshot request.
  pub step-IsWellFormed :
      (e : Event C) (rf : Raft C) {rf' : Raft C}
      → IsLive rf
      → IsWellFormed rf
      → Admissible e rf
      → step e rf ≡ some rf'
      → IsWellFormed rf'
  step-IsWellFormed e rf l wf ok run =
      Ensures-some IsWellFormed (step e rf) (step-Ensures e rf l wf ok) run

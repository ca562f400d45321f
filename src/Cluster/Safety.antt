-- ===== src/Cluster/Safety.antt =====
-- ticker.go and log_replication.go: one leader for each term.
use native.Mathlib.Decide.{ℕ_discrete}
use raft_algorithm_thesis.Base.{
  ℕ, ◌≤◌, ◌≡◌, ◌≢◌, refl, sym, ap, true, ◌∙◌, subst, some, arith, Bool, ltb, ◌==◌, is_id, ◌&&◌,
  ◌||◌,
}
use raft_algorithm_thesis.Consensus.Types.{Raft, NodeState}
use raft_algorithm_thesis.Consensus.Storage.{fresh}
use raft_algorithm_thesis.Consensus.Node.Safety.{fresh-IsLive}
use raft_algorithm_thesis.Cluster.{
  Cluster, initial, Step, moves, stands, answers, counts, Reach, begins, next,
}
use raft_algorithm_thesis.Cluster.Count.{IsMajority, count_mono, majorities_meet}
use raft_algorithm_thesis.Cluster.Invariant.{
  voters, IsPlaced, LeaderElected, IsSound, is_id-some, some-is_id,
}
use raft_algorithm_thesis.Cluster.Steps.{moves-IsSound, stands-IsSound}
use raft_algorithm_thesis.Cluster.Replies.{answers-IsSound}
use raft_algorithm_thesis.Cluster.Counting.{counts-IsSound}

follower≢leader : NodeState.follower ≢ NodeState.leader
follower≢leader e = cc

-- The node has voted for the candidate in the term, as far as its state still tells.
abbrev pub backs : {C : Type 0} → Raft C → ℕ → ℕ → Bool
backs rf term candidate =
    ltb term rf.current_term || (rf.current_term == term && is_id rf.voted_for candidate)

backs-vote :
    {C : Type 0} (rf : Raft C) (term candidate : ℕ)
    → term ≤ rf.current_term
    → (term ≡ rf.current_term → rf.voted_for ≡ some candidate)
    → backs rf term candidate ≡ true
backs-vote rf term candidate le held = elim (ℕ_discrete term rf.current_term) [
  | yes e ↦ ground (arith, some-is_id rf.voted_for candidate (held e))
  | no ne ↦ ground (arith)
]

module _ {C : Type 0} where
  initial-IsPlaced :
      (n i : ℕ) → IsPlaced n i ((initial {C = C} n).votes i) ((initial {C = C} n).nodes i)
  unfolding fresh
  initial-IsPlaced n i = record {
    live = fresh-IsLive n i;
    peers = refl;
    me = refl;
    past = λ term candidate e. cc;
  }

  initial-LeaderElected :
      (n i : ℕ) (rf : Raft C)
      → rf ≡ (initial n).nodes i
      → LeaderElected n (initial {C = C} n).votes i rf
  unfolding fresh
  initial-LeaderElected n i rf e l =
      absurd (follower≢leader (sym (ap (λ (rf : Raft C). rf.state) e) ∙ l))

  initial-IsSound : (n : ℕ) → IsSound n (initial {C = C} n)
  initial-IsSound n = record {
    placed = initial-IsPlaced n;
    recorded = λ a h g. absurd h;
    counted = λ i term. omega arith;
    elected = λ i. initial-LeaderElected n i _ refl;
  }

  Step-IsSound : {n : ℕ} {c c' : Cluster C} → Step n c c' → IsSound n c → IsSound n c'
  Step-IsSound {n} {c} (moves i e rf l run eq) s =
      subst (IsSound n) (sym eq) (moves-IsSound n c i e rf l run s)
  Step-IsSound {n} {c} (stands i rf args lt run eq) s =
      subst (IsSound n) (sym eq) (stands-IsSound n c i rf args lt run s)
  Step-IsSound {n} {c} (answers i args rf reply run eq) s =
      subst (IsSound n) (sym eq) (answers-IsSound n c i args rf reply run s)
  Step-IsSound {n} {c} (counts a rf granted lt has new run eq) s =
      subst (IsSound n) (sym eq) (counts-IsSound n c a rf granted lt has new run s)

  pub Reach-IsSound : {n : ℕ} {c : Cluster C} → Reach n c → IsSound n c
  Reach-IsSound {n} begins = initial-IsSound n
  Reach-IsSound (next r s) = Step-IsSound s (Reach-IsSound r)

  -- In every reachable state of a cluster, with any messages delivered and nodes restarting at will,
  -- a majority of the nodes back each leader: their term is later than the leader's, or it is the
  -- same and their vote is the leader's.
  pub leader_has-IsMajority :
      {n : ℕ} {c : Cluster C} (i : ℕ)
      → Reach n c
      → (c.nodes i).state ≡ NodeState.leader
      → IsMajority n (λ j. backs (c.nodes j) (c.nodes i).current_term i)
  leader_has-IsMajority {n} {c} i r l = omega (
    arith,
    s.elected i l,
    count_mono n (voters c.votes (c.nodes i).current_term i)
        (λ j. backs (c.nodes j) (c.nodes i).current_term i)
        (λ j h.
          let (le, held) = (s.placed j).past _ i (is_id-some _ i h) in
          backs-vote (c.nodes j) (c.nodes i).current_term i le held),
  )
    where
      s : IsSound n c
      s = Reach-IsSound r

  -- In every reachable state of a cluster, with any messages delivered in any order, any number of
  -- times or never, and nodes restarting at will, two leaders of the same term are the same node.
  pub one_leader_per_term :
      {n : ℕ} {c : Cluster C} (i i' : ℕ)
      → Reach n c
      → (c.nodes i).state ≡ NodeState.leader
      → (c.nodes i').state ≡ NodeState.leader
      → (c.nodes i).current_term ≡ (c.nodes i').current_term
      → i ≡ i'
  one_leader_per_term {n} {c} i i' r l l' t = elim (ℕ_discrete i i') [
    | yes e ↦ e
    | no ne ↦ absurd (
        majorities_meet n (voters c.votes (c.nodes i).current_term i)
          (voters c.votes (c.nodes i').current_term i') (λ j p p'. ne (same j p p')) (s.elected i l)
          (s.elected i' l'))
  ]
    where
      s : IsSound n c
      s = Reach-IsSound r

      same :
          (j : ℕ)
          → voters c.votes (c.nodes i).current_term i j ≡ true
          → voters c.votes (c.nodes i').current_term i' j ≡ true
          → i ≡ i'
      same j p p' =
          let v : c.votes j (c.nodes i).current_term ≡ some i = is_id-some _ i p in
          let v' : c.votes j (c.nodes i').current_term ≡ some i' = is_id-some _ i' p' in cc

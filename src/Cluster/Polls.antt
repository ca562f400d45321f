-- ===== src/Cluster/Polls.antt =====
-- ticker.go: what an election does to its node, and a reply to a request for a vote.
use mathlib.Core.Bool.{false≢true}
use raft_algorithm_thesis.Base.{
  ℕ, ◌+◌, ◌/◌, ◌≡◌, ◌⊎◌, inl, inr, refl, sym, ◌∙◌, ap, true, false, Bool, not, Option, none, some,
  arith, if_cases, Ensures, Ensures->>=, Ensures-some, ltb, ◌==◌,
}
use raft_algorithm_thesis.Consensus.Types.{Raft, NodeState, RequestVoteArgs, RequestVoteReply}
use raft_algorithm_thesis.Consensus.Log.{is_leader, get_last_log}
use raft_algorithm_thesis.Consensus.Storage.{persist, save}
use raft_algorithm_thesis.Consensus.Vote.{handle_higher_term}
use raft_algorithm_thesis.Consensus.Election.{
  gen_request_vote_args, start_election, become_candidate, election_timeout, become_leader,
  is_still_valid_candidate, count_vote, request_vote_from_peer,
}
use raft_algorithm_thesis.Cluster.Promotion.{NoPromotion, none_promoted, higher-NoPromotion}

module _ {C : Type 0} where
  -- A new candidate: its place, its new term, its own vote.
  pub record Stands (rf rf' : Raft C) (args : RequestVoteArgs) : Type 0 where
    pub peers : rf'.peers ≡ rf.peers
    pub me : rf'.me ≡ rf.me
    pub state : rf'.state ≡ NodeState.candidate
    pub term : rf'.current_term ≡ args.term
    pub later : args.term ≡ rf.current_term + 1
    pub vote : rf'.voted_for ≡ some rf.me

  abbrev StandsIn : Raft C → Raft C × RequestVoteArgs → Type 0
  StandsIn rf (rf', args) = Stands rf rf' args

  args-term :
      (rf : Raft C)
      → Ensures (λ (args : RequestVoteArgs). args.term ≡ rf.current_term) (gen_request_vote_args rf)
  unfolding gen_request_vote_args
  args-term rf =
      Ensures->>= (λ (args : RequestVoteArgs). args.term ≡ rf.current_term) (get_last_log rf) _
        (λ last _. refl)

  -- Saving the state changes none of the fields.
  abbrev pub IsFrame : Raft C → Raft C → Type 0
  IsFrame rf rf' =
      (rf'.peers ≡ rf.peers)
      × (rf'.me ≡ rf.me)
      × (rf'.state ≡ rf.state)
      × (rf'.current_term ≡ rf.current_term)
      × (rf'.voted_for ≡ rf.voted_for)

  pub persist-IsFrame : (rf : Raft C) → IsFrame rf (persist rf)
  unfolding persist save
  persist-IsFrame rf =
      if_cases (IsFrame rf) rf.dead (λ _. (refl, refl, refl, refl, refl))
        (λ _. (refl, refl, refl, refl, refl))

  candidate-Stands : (rf : Raft C) → Ensures (StandsIn rf) (become_candidate rf)
  unfolding become_candidate start_election
  candidate-Stands rf = Ensures->>= (StandsIn rf) (gen_request_vote_args voted) _ (λ args run.
      let t =
        Ensures-some (λ (a : RequestVoteArgs). a.term ≡ voted.current_term) _ (args-term voted)
          run in
      let (p, m, s, u, v) = persist-IsFrame candidate in
      let (p', m', s', u', v') = persist-IsFrame raised in
      record {
        peers = p ∙ p';
        me = m ∙ m';
        state = s ∙ s';
        term = sym t;
        later = t ∙ u ∙ u';
        vote = v ∙ ap some m';
      })
    where
      raised : Raft C
      raised = record rf { state = NodeState.candidate; current_term = rf.current_term + 1 }

      candidate : Raft C
      candidate = record (persist raised) {
        voted_for = some (persist raised).me;
        current_leader = none;
      }

      voted : Raft C
      voted = persist candidate

  abbrev TimesOut : Raft C → Raft C × Option RequestVoteArgs → Type 0
  TimesOut rf (rf', none) = Unit
  TimesOut rf (rf', some args) = Stands rf rf' args

  timeout-TimesOut : (rf : Raft C) → Ensures (TimesOut rf) (election_timeout rf)
  unfolding election_timeout
  timeout-TimesOut rf =
      if_cases (Ensures (TimesOut rf)) (is_leader rf.state) (λ _. tt)
        (λ _.
          Ensures->>= (TimesOut rf) (become_candidate rf) _
            (λ r run. Ensures-some (StandsIn rf) _ (candidate-Stands rf) run))

  -- An election that begins.
  pub election_timeout-Stands :
      (rf : Raft C) {rf' : Raft C} {args : RequestVoteArgs}
      → election_timeout rf ≡ some (rf', some args)
      → Stands rf rf' args
  election_timeout-Stands rf run = Ensures-some (TimesOut rf) _ (timeout-TimesOut rf) run

  -- A node that wins: it was a candidate of the term, and the votes are a majority.
  pub record Wins (args : RequestVoteArgs) (granted : ℕ) (rf rf' : Raft C) : Type 0 where
    pub peers : rf'.peers ≡ rf.peers
    pub me : rf'.me ≡ rf.me
    pub term : rf'.current_term ≡ args.term
    pub majority : granted + 1 ≡ rf.peers / 2 + 1

  -- What a reply does to the node and to the count.
  abbrev pub Counts : RequestVoteArgs → RequestVoteReply → ℕ → Raft C → Raft C × ℕ → Type 0
  Counts args reply granted rf (rf', granted') =
      (NoPromotion rf rf' ⊎ (Wins args granted rf rf' × (reply.vote_granted ≡ true)))
      × ((granted' ≡ granted) ⊎ ((granted' ≡ granted + 1) × (reply.vote_granted ≡ true)))

  become_leader-Wins :
      (args : RequestVoteArgs) (granted : ℕ) (rf : Raft C)
      → rf.current_term ≡ args.term
      → granted + 1 ≡ rf.peers / 2 + 1
      → Ensures (Wins args granted rf) (become_leader rf)
  unfolding become_leader
  become_leader-Wins args granted rf t m =
      Ensures->>= (Wins args granted rf) (get_last_log rf) _
        (λ last _. record { peers = refl; me = refl; term = t; majority = m })

  count_vote-Counts :
      (args : RequestVoteArgs) (reply : RequestVoteReply) (granted : ℕ) (rf : Raft C)
      → rf.current_term ≡ args.term
      → reply.vote_granted ≡ true
      → Ensures (Counts args reply granted rf) (count_vote granted rf)
  unfolding count_vote
  count_vote-Counts args reply granted rf t g =
      if_cases (Ensures (Counts args reply granted rf)) (granted + 1 == rf.peers / 2 + 1)
        (λ wins. Ensures->>= (Counts args reply granted rf) (become_leader rf) _ (λ rf' run. (
          inr (
            Ensures-some (Wins args granted rf) _
                (become_leader-Wins args granted rf t (ground arith)) run,
            g,
          ),
          inr (refl, g),
        )))
        (λ waits. (inl (none_promoted rf), inr (refl, g)))

  valid-term :
      (term : ℕ) (rf : Raft C)
      → not (is_still_valid_candidate term rf) ≡ false
      → rf.current_term ≡ term
  unfolding is_still_valid_candidate
  valid-term term rf v = ground arith

  same-term :
      (term : ℕ) (rf : Raft C)
      → (handle_higher_term term rf).1 ≡ false
      → (handle_higher_term term rf).0 ≡ rf
  unfolding handle_higher_term
  same-term term rf =
      if_cases (λ (r : Raft C × Bool). r.1 ≡ false → r.0 ≡ rf) (ltb rf.current_term term)
        (λ _ e. absurd (false≢true (sym e))) (λ _ e. refl)

  pub request_vote_from_peer-Counts :
      (args : RequestVoteArgs) (reply : RequestVoteReply) (granted : ℕ) (rf : Raft C)
      → Ensures (Counts args reply granted rf) (request_vote_from_peer args reply granted rf)
  unfolding request_vote_from_peer
  request_vote_from_peer-Counts args reply granted rf =
      if_cases (Ensures P) (not (is_still_valid_candidate args.term rf))
        (λ stale. (inl (none_promoted rf), inl refl))
        (λ valid.
          if_cases (Ensures P) (handle_higher_term reply.term rf).1
            (λ higher. (inl (higher-NoPromotion reply.term rf), inl refl))
            (λ same.
              if_cases (Ensures P) reply.vote_granted
                (λ granted_it. rw (same-term reply.term rf same) (
                  count_vote-Counts args reply granted rf (valid-term args.term rf valid)
                    granted_it))
                (λ denied. (inl (higher-NoPromotion reply.term rf), inl refl))))
    where
      P : Raft C × ℕ → Type 0
      P = Counts args reply granted rf

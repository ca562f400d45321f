-- ===== src/Cluster/Counting.antt =====
-- ticker.go: a cluster when a candidate counts an answer.
use raft_algorithm_thesis.Base.{
  ℕ, ◌+◌, ◌/◌, ◌≤◌, ◌<◌, ◌≡◌, refl, sym, inl, inr, ◌⊎◌, true, false, some, arith, Ensures-some,
  put_at-All, put_at-here, put_at, IsAmong,
}
use raft_algorithm_thesis.Consensus.Types.{Raft}
use raft_algorithm_thesis.Consensus.Storage.{fresh}
use raft_algorithm_thesis.Consensus.Election.{request_vote_from_peer}
use raft_algorithm_thesis.Consensus.Node.Durable.{Keeps}
use raft_algorithm_thesis.Consensus.Node.Votes.{KeepsFst}
use raft_algorithm_thesis.Consensus.Node.Leading.{request_vote_from_peer-Keeps}
use raft_algorithm_thesis.Cluster.{Poll, Answer, Cluster, set_poll, counted_poll}
use raft_algorithm_thesis.Cluster.Count.{count, Implies, count_mono, count_more}
use raft_algorithm_thesis.Cluster.Promotion.{NoPromotion}
use raft_algorithm_thesis.Cluster.Polls.{Wins, Counts, request_vote_from_peer-Counts}
use raft_algorithm_thesis.Cluster.Invariant.{
  Votes, voters, counted_voters, IsPlaced, LeaderElected, IsSound, some-is_id, Extends-refl,
  set_poll-PollsCounted,
}
use raft_algorithm_thesis.Cluster.Steps.{IsPlaced-later, elected_later}

-- The voters counted stay counted.
later_counted :
    (votes : Votes) (term candidate voter granted : ℕ) (poll : Poll)
    → Implies
        (counted_voters votes term candidate poll)
        (counted_voters votes term candidate (counted_poll voter granted poll))
later_counted votes term candidate voter granted poll j h = ground (arith)

-- The voters of a poll are voters of the candidate.
counted-voters :
    (votes : Votes) (term candidate : ℕ) (poll : Poll)
    → Implies (counted_voters votes term candidate poll) (voters votes term candidate)
counted-voters votes term candidate poll j h = ground arith

-- A granted answer adds its voter to those counted.
counted_more :
    (n : ℕ) (votes : Votes) (term candidate voter granted : ℕ) (poll : Poll)
    → voter < n
    → poll.counted voter ≡ false
    → votes voter term ≡ some candidate
    → poll.granted ≤ count n (counted_voters votes term candidate poll)
    → poll.granted + 1
      ≤ count n (counted_voters votes term candidate (counted_poll voter granted poll))
counted_more n votes term candidate voter granted poll lt fresh given le = omega (
  arith,
  le,
  count_more n (counted_voters votes term candidate poll) _ voter
      (later_counted votes term candidate voter granted poll) lt (rw fresh refl)
      (rw (put_at-here voter true poll.counted) (some-is_id _ candidate given)),
)

-- Counting an answer that was refused.
counted_same :
    (n : ℕ) (votes : Votes) (term candidate voter granted : ℕ) (poll : Poll)
    → poll.granted ≤ count n (counted_voters votes term candidate poll)
    → poll.granted ≤ count n (counted_voters votes term candidate (counted_poll voter granted poll))
counted_same n votes term candidate voter granted poll le =
    omega (arith, le, count_mono n _ _ (later_counted votes term candidate voter granted poll))

module _ {C : Type 0} where
  -- What the answer that a candidate counts says of the votes.
  count_bound :
      (n : ℕ) (c : Cluster C) (a : Answer) (granted : ℕ)
      → a.voter < n
      → IsAmong a c.answers
      → (c.polls a.args.candidate_id a.args.term).counted a.voter ≡ false
      → IsSound n c
      → a.reply.vote_granted ≡ true
      → (c.polls a.args.candidate_id a.args.term).granted + 1
        ≤ count n (
            counted_voters c.votes a.args.term a.args.candidate_id
              (counted_poll a.voter granted (c.polls a.args.candidate_id a.args.term)))
  count_bound n c a granted lt has fresh s g =
      counted_more n c.votes a.args.term a.args.candidate_id a.voter granted
        (c.polls a.args.candidate_id a.args.term) lt fresh (s.recorded a has g)
        (s.counted a.args.candidate_id a.args.term)

  -- A candidate that wins has a majority.
  Wins-LeaderElected :
      (n : ℕ) (c : Cluster C) (a : Answer) (rf : Raft C)
      → a.voter < n
      → IsAmong a c.answers
      → (c.polls a.args.candidate_id a.args.term).counted a.voter ≡ false
      → IsSound n c
      → a.reply.vote_granted ≡ true
      → Wins a.args
          (c.polls a.args.candidate_id a.args.term).granted
          (c.nodes a.args.candidate_id)
          rf
      → (j : ℕ) → LeaderElected n c.votes j (put_at a.args.candidate_id rf c.nodes j)
  Wins-LeaderElected n c a rf lt has fresh s g w =
      put_at-All (LeaderElected n c.votes) a.args.candidate_id rf c.nodes
        (λ _. rw w.term (
          omega (
            arith,
            count_bound n c a 0 lt has fresh s g,
            majority,
            count_mono n _ _ (
                counted-voters c.votes a.args.term a.args.candidate_id
                  (counted_poll a.voter 0 (c.polls a.args.candidate_id a.args.term))),
          )))
        s.elected
    where
      majority : n / 2 + 1 ≡ (c.polls a.args.candidate_id a.args.term).granted + 1
      majority = rw (sym (s.placed a.args.candidate_id).peers) (sym w.majority)

  pub counts-IsSound :
      (n : ℕ) (c : Cluster C) (a : Answer) (rf : Raft C) (granted : ℕ)
      → a.voter < n
      → IsAmong a c.answers
      → (c.polls a.args.candidate_id a.args.term).counted a.voter ≡ false
      → request_vote_from_peer a.args a.reply
          (c.polls a.args.candidate_id a.args.term).granted
          (c.nodes a.args.candidate_id)
        ≡ some (rf, granted)
      → IsSound n c
      → IsSound n (record c {
        nodes = put_at a.args.candidate_id rf c.nodes;
        polls =
            set_poll a.args.candidate_id a.args.term
              (counted_poll a.voter granted (c.polls a.args.candidate_id a.args.term))
              c.polls;
      })
  counts-IsSound n c a rf granted lt has fresh run s = record {
    placed =
        put_at-All (λ j rf. IsPlaced n j (c.votes j) rf) i rf c.nodes
          (IsPlaced-later n i (c.votes i) (c.nodes i) rf kept place.0 place.1 (s.placed i))
          s.placed;
    recorded = s.recorded;
    counted =
        set_poll-PollsCounted n c.votes i a.args.term
          (counted_poll a.voter granted (c.polls i a.args.term)) c.polls (bound outcome.1)
          s.counted;
    elected = elected outcome.0;
  }
    where
      i : ℕ
      i = a.args.candidate_id

      outcome : Counts a.args a.reply (c.polls i a.args.term).granted (c.nodes i) (rf, granted)
      outcome =
          Ensures-some (Counts a.args a.reply _ (c.nodes i)) _
            (request_vote_from_peer-Counts a.args a.reply _ (c.nodes i)) run

      kept : Keeps (c.nodes i) rf
      kept =
          Ensures-some (KeepsFst (c.nodes i)) _
            (request_vote_from_peer-Keeps a.args a.reply _ (c.nodes i)) run

      place : (rf.peers ≡ (c.nodes i).peers) × (rf.me ≡ (c.nodes i).me)
      place = elim outcome.0 [ inl p ↦ (p.peers, p.me) | inr w ↦ (w.0.peers, w.0.me) ]

      bound :
          (granted ≡ (c.polls i a.args.term).granted)
            ⊎ ((granted ≡ (c.polls i a.args.term).granted + 1) × (a.reply.vote_granted ≡ true))
          → granted
            ≤ count n (
                counted_voters c.votes a.args.term i
                  (counted_poll a.voter granted (c.polls i a.args.term)))
      bound (inl e) = omega (
        arith,
        e,
        counted_same n c.votes a.args.term i a.voter granted (c.polls i a.args.term)
            (s.counted i a.args.term),
      )
      bound (inr (e, g)) = omega (arith, e, count_bound n c a granted lt has fresh s g)

      elected :
          NoPromotion (c.nodes i) rf
            ⊎ (Wins a.args (c.polls i a.args.term).granted (c.nodes i) rf
                × (a.reply.vote_granted ≡ true))
          → (j : ℕ) → LeaderElected n c.votes j (put_at i rf c.nodes j)
      elected (inl p) =
          elected_later n i c.votes c.votes rf c.nodes (Extends-refl c.votes) p s.elected
      elected (inr (w, g)) = Wins-LeaderElected n c a rf lt has fresh s g w

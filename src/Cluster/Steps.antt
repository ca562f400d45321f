-- ===== src/Cluster/Steps.antt =====
-- ticker.go: a cluster when a node moves on, or stands for election.
use raft_algorithm_thesis.Base.{
  ℕ, ◌≤◌, ◌<◌, ◌≡◌, ◌≢◌, refl, sym, ◌∙◌, ap, false, Option, some, arith, Ensures-some, put_at-All,
  put_at-Both, put_at,
}
use raft_algorithm_thesis.Consensus.Types.{Raft, NodeState, RequestVoteArgs}
use raft_algorithm_thesis.Consensus.Election.{election_timeout}
use raft_algorithm_thesis.Consensus.Node.{Event, step}
use raft_algorithm_thesis.Consensus.Node.Durable.{Keeps}
use raft_algorithm_thesis.Consensus.Node.Votes.{KeepsFst}
use raft_algorithm_thesis.Consensus.Node.Leading.{election_timeout-Keeps}
use raft_algorithm_thesis.Consensus.Node.Safety.{step-Ensures}
use raft_algorithm_thesis.Cluster.{Cluster, cast, set_poll, new_poll, IsLocal}
use raft_algorithm_thesis.Cluster.Count.{count, count_more}
use raft_algorithm_thesis.Cluster.Promotion.{NoPromotion}
use raft_algorithm_thesis.Cluster.Local.{step-NoPromotion}
use raft_algorithm_thesis.Cluster.Polls.{election_timeout-Stands}
use raft_algorithm_thesis.Cluster.Invariant.{
  Votes, counted_voters, Extends, IsPlaced, LeaderElected, IsSound, some-is_id, Extends-refl,
  cast-Extends, later-IsMajority, later_polls, set_poll-PollsCounted, cast-here,
}

own_vote :
    (n : ℕ) (votes : Votes) (term i : ℕ)
    → i < n
    → votes i term ≡ some i
    → 1 ≤ count n (counted_voters votes term i (new_poll i))
own_vote n votes term i lt v = omega (
  arith,
  count_more n (λ _. false) (counted_voters votes term i (new_poll i)) i (λ j e. cc) lt refl
      (ground (arith, some-is_id (votes i term) i v)),
)

candidate≢leader : NodeState.candidate ≢ NodeState.leader
candidate≢leader e = cc

module _ {C : Type 0} where
  -- A node that goes on, with the votes it has given.
  pub IsPlaced-later :
      (n i : ℕ) (votes : ℕ → Option ℕ) (rf rf' : Raft C)
      → Keeps rf rf'
      → rf'.peers ≡ rf.peers
      → rf'.me ≡ rf.me
      → IsPlaced n i votes rf
      → IsPlaced n i votes rf'
  IsPlaced-later n i votes rf rf' k p m s = record {
    live = k.live s.live;
    peers = p ∙ s.peers;
    me = m ∙ s.me;
    past = λ term candidate given.
        let (le, held) = s.past term candidate given in
        (
          omega (arith, k.term_le),
          λ e.
              let same : term ≡ rf.current_term = omega (arith, k.term_le) in
              k.vote (sym same ∙ e) candidate (held same),
        );
  }

  -- A node that gives a vote.
  pub IsPlaced-cast :
      (n i term candidate : ℕ) (votes : ℕ → Option ℕ) (rf : Raft C)
      → rf.current_term ≡ term
      → rf.voted_for ≡ some candidate
      → IsPlaced n i votes rf
      → IsPlaced n i (put_at term (some candidate) votes) rf
  IsPlaced-cast n i term candidate votes rf t v s = record {
    live = s.live;
    peers = s.peers;
    me = s.me;
    past =
        put_at-All
          (λ u given.
            (c : ℕ)
            → given ≡ some c
            → (u ≤ rf.current_term) × (u ≡ rf.current_term → rf.voted_for ≡ some c))
          term (some candidate) votes (λ c e. (omega arith, λ _. v ∙ e)) s.past;
  }

  -- A node goes on without becoming a leader.
  pub elected_later :
      (n i : ℕ) (votes votes' : Votes) (rf : Raft C) (nodes : ℕ → Raft C)
      → Extends votes votes'
      → NoPromotion (nodes i) rf
      → ((j : ℕ) → LeaderElected n votes j (nodes j))
      → (j : ℕ) → LeaderElected n votes' j (put_at i rf nodes j)
  elected_later n i votes votes' rf nodes ext p h =
      put_at-All (LeaderElected n votes') i rf nodes
        (λ l.
          let (l', t) = p.led l in rw t (later-IsMajority n (nodes i).current_term i ext (h i l')))
        (λ j l. later-IsMajority n (nodes j).current_term j ext (h j l))

  pub moves-IsSound :
      (n : ℕ) (c : Cluster C) (i : ℕ) (e : Event C) (rf : Raft C)
      → IsLocal e
      → step e (c.nodes i) ≡ some rf
      → IsSound n c
      → IsSound n (record c { nodes = put_at i rf c.nodes })
  moves-IsSound n c i e rf l run s =
      let p = Ensures-some (NoPromotion (c.nodes i)) _ (step-NoPromotion e (c.nodes i) l) run in
      let k =
        Ensures-some (Keeps (c.nodes i)) _ (step-Ensures e (c.nodes i) (s.placed i).live) run in
      record {
        placed =
            put_at-All (λ j rf. IsPlaced n j (c.votes j) rf) i rf c.nodes
              (IsPlaced-later n i (c.votes i) (c.nodes i) rf k p.peers p.me (s.placed i)) s.placed;
        recorded = s.recorded;
        counted = s.counted;
        elected = elected_later n i c.votes c.votes rf c.nodes (Extends-refl c.votes) p s.elected;
      }

  pub stands-IsSound :
      (n : ℕ) (c : Cluster C) (i : ℕ) (rf : Raft C) (args : RequestVoteArgs)
      → i < n
      → election_timeout (c.nodes i) ≡ some (rf, some args)
      → IsSound n c
      → IsSound n (record c {
        nodes = put_at i rf c.nodes;
        votes = cast i args.term i c.votes;
        polls = set_poll i args.term (new_poll i) c.polls;
      })
  stands-IsSound n c i rf args lt run s =
      let st = election_timeout-Stands (c.nodes i) run in
      let k = Ensures-some (KeepsFst (c.nodes i)) _ (election_timeout-Keeps (c.nodes i)) run in
      let me = (s.placed i).me in
      let ext : Extends c.votes (cast i args.term i c.votes) =
        cast-Extends i args.term i c.votes (λ other given.
          absurd (omega (arith, ((s.placed i).past args.term other given).0, st.later))) in
      record {
        placed =
            put_at-Both (λ j rf votes. IsPlaced n j votes rf) i rf
              (put_at args.term (some i) (c.votes i)) c.nodes c.votes
              (IsPlaced-cast n i args.term i (c.votes i) rf st.term (st.vote ∙ ap some me)
                (IsPlaced-later n i (c.votes i) (c.nodes i) rf k st.peers st.me (s.placed i)))
              s.placed;
        recorded = λ a h g. ext a.voter a.args.term a.args.candidate_id (s.recorded a h g);
        counted =
            set_poll-PollsCounted n (cast i args.term i c.votes) i args.term (new_poll i) c.polls
              (own_vote n (cast i args.term i c.votes) args.term i lt
                (cast-here i args.term i c.votes))
              (later_polls n c.polls ext s.counted);
        elected =
            elected_later n i c.votes (cast i args.term i c.votes) rf c.nodes ext
              (record {
                peers = st.peers;
                me = st.me;
                led = λ l. absurd (candidate≢leader (sym st.state ∙ l));
              })
              s.elected;
      }

-- ===== src/Cluster/Replies.antt =====
-- log_replication.go and ticker.go: a cluster when a node answers, or counts an answer.
use raft_algorithm_thesis.Base.{
  ℕ, ◌≡◌, sym, ◌∙◌, subst, inl, inr, true, Option, some, List, ◌∷◌, arith, if_cases, Ensures-some,
  put_at-All, put_at-Both, put_at,
}
use raft_algorithm_thesis.Consensus.Types.{Raft, RequestVoteArgs, RequestVoteReply}
use raft_algorithm_thesis.Consensus.Vote.{request_vote}
use raft_algorithm_thesis.Consensus.Node.Durable.{Keeps}
use raft_algorithm_thesis.Consensus.Node.Votes.{KeepsFst, request_vote-Keeps}
use raft_algorithm_thesis.Cluster.{Answer, Cluster, cast_if}
use raft_algorithm_thesis.Cluster.Promotion.{FstNoPromotion, request_vote-NoPromotion}
use raft_algorithm_thesis.Cluster.Granting.{granted_vote}
use raft_algorithm_thesis.Cluster.Invariant.{
  Votes, Extends, AnswersRecorded, IsPlaced, IsSound, Extends-refl, cast-Extends, later_polls,
  cast-here,
}
use raft_algorithm_thesis.Cluster.Steps.{IsPlaced-later, IsPlaced-cast, elected_later}

answered-recorded :
    (votes votes' : Votes) (log : List Answer) (a : Answer)
    → Extends votes votes'
    → (a.reply.vote_granted ≡ true → votes' a.voter a.args.term ≡ some a.args.candidate_id)
    → AnswersRecorded votes log
    → AnswersRecorded votes' (a ∷ log)
answered-recorded votes votes' log a ext new old b (inl e) g =
    subst (λ x. x.reply.vote_granted ≡ true → votes' x.voter x.args.term ≡ some x.args.candidate_id)
      (sym e) new g
answered-recorded votes votes' log a ext new old b (inr h) g =
    ext b.voter b.args.term b.args.candidate_id (old b h g)

module _ {C : Type 0} where
  -- A vote granted was not given to another candidate of the term.
  free_vote :
      (n i : ℕ) (votes : ℕ → Option ℕ) (args : RequestVoteArgs) (rf rf' : Raft C) (other : ℕ)
      → IsPlaced n i votes rf
      → Keeps rf rf'
      → rf'.current_term ≡ args.term
      → rf'.voted_for ≡ some args.candidate_id
      → votes args.term ≡ some other
      → other ≡ args.candidate_id
  free_vote n i votes args rf rf' other s k t v given =
      let (le, held) = s.past args.term other given in
      let same : args.term ≡ rf.current_term = omega (arith, k.term_le) in
      let kept : rf'.voted_for ≡ some other = k.vote (sym same ∙ sym t) other (held same) in cc

  -- A granted vote is cast; a refused one leaves the votes.
  cast_if-Extends :
      (n : ℕ) (c : Cluster C) (i : ℕ) (args : RequestVoteArgs) (rf : Raft C)
      (reply : RequestVoteReply)
      → request_vote args (c.nodes i) ≡ some (rf, reply)
      → IsSound n c
      → Extends c.votes (cast_if reply.vote_granted i args.term args.candidate_id c.votes)
  cast_if-Extends n c i args rf reply run s =
      if_cases (Extends c.votes) reply.vote_granted
        (λ g.
          let k = Ensures-some (KeepsFst (c.nodes i)) _ (request_vote-Keeps args (c.nodes i)) run in
          let (t, v) = granted_vote args (c.nodes i) run g in
          cast-Extends i args.term args.candidate_id c.votes (λ other given.
            free_vote n i (c.votes i) args (c.nodes i) rf other (s.placed i) k t v given))
        (λ _. Extends-refl c.votes)

  answered-IsPlaced :
      (n : ℕ) (c : Cluster C) (i : ℕ) (args : RequestVoteArgs) (rf : Raft C)
      (reply : RequestVoteReply)
      → request_vote args (c.nodes i) ≡ some (rf, reply)
      → IsSound n c
      → (j : ℕ)
      → IsPlaced n j
          (cast_if reply.vote_granted i args.term args.candidate_id c.votes j)
          (put_at i rf c.nodes j)
  answered-IsPlaced n c i args rf reply run s j =
      if_cases (λ (votes : Votes). IsPlaced n j (votes j) (put_at i rf c.nodes j))
        reply.vote_granted
        (λ g.
          let (t, v) = granted_vote args (c.nodes i) run g in
          put_at-Both (λ j rf votes. IsPlaced n j votes rf) i rf
            (put_at args.term (some args.candidate_id) (c.votes i)) c.nodes c.votes
            (IsPlaced-cast n i args.term args.candidate_id (c.votes i) rf t v moved) s.placed j)
        (λ _. put_at-All (λ j rf. IsPlaced n j (c.votes j) rf) i rf c.nodes moved s.placed j)
    where
      moved : IsPlaced n i (c.votes i) rf
      moved =
          let k = Ensures-some (KeepsFst (c.nodes i)) _ (request_vote-Keeps args (c.nodes i)) run in
          let p =
            Ensures-some (FstNoPromotion (c.nodes i)) _ (request_vote-NoPromotion args (c.nodes i))
              run in
          IsPlaced-later n i (c.votes i) (c.nodes i) rf k p.peers p.me (s.placed i)

  pub answers-IsSound :
      (n : ℕ) (c : Cluster C) (i : ℕ) (args : RequestVoteArgs) (rf : Raft C)
      (reply : RequestVoteReply)
      → request_vote args (c.nodes i) ≡ some (rf, reply)
      → IsSound n c
      → IsSound n (record c {
        nodes = put_at i rf c.nodes;
        votes = cast_if reply.vote_granted i args.term args.candidate_id c.votes;
        answers = record { voter = i; args = args; reply = reply } ∷ c.answers;
      })
  answers-IsSound n c i args rf reply run s =
      let ext = cast_if-Extends n c i args rf reply run s in
      let p =
        Ensures-some (FstNoPromotion (c.nodes i)) _ (request_vote-NoPromotion args (c.nodes i))
          run in
      record {
        placed = answered-IsPlaced n c i args rf reply run s;
        recorded =
            answered-recorded c.votes _ c.answers (record { voter = i; args = args; reply = reply })
              ext (λ g. rw g (cast-here i args.term args.candidate_id c.votes)) s.recorded;
        counted = later_polls n c.polls ext s.counted;
        elected = elected_later n i c.votes _ rf c.nodes ext p s.elected;
      }

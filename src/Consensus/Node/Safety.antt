-- ===== src/Consensus/Node/Safety.antt =====
-- Whole histories of a node: its restarts and its votes.
use raft_algorithm_thesis.Base.{
  ℕ, true, [], ◌≡◌, refl, sym, ◌∙◌, Option, none, some, subst, Ensures, Ensures-some, Ensures->>=,
  if_cases, Returns-some, ◌+◌,
}
use raft_algorithm_thesis.Consensus.Types.{
  Raft, NodeState, Entry, RequestVoteArgs, RequestVoteReply,
}
use raft_algorithm_thesis.Consensus.Log.{get_last_log}
use raft_algorithm_thesis.Consensus.Vote.{request_vote}
use raft_algorithm_thesis.Consensus.Vote.Grant.{GrantsLawfully, request_vote-GrantsLawfully}
use raft_algorithm_thesis.Consensus.Election.{
  become_candidate, start_election, gen_request_vote_args,
}
use raft_algorithm_thesis.Consensus.Storage.{make, fresh, read_persist, persist}
use raft_algorithm_thesis.Consensus.Node.{
  Event, append_request, vote_request, snapshot_request, submitted, election_timer, vote_reply,
  append_reply, snapshot_reply, compacted, applied, restarted, state_of, step, Reach, here, next,
}
use raft_algorithm_thesis.Consensus.Node.Durable.{
  saved, IsLive, Keeps, Keeps-refl, Keeps-trans, persist-frame,
}
use raft_algorithm_thesis.Consensus.Node.Votes.{KeepsFst, request_vote-Keeps, append_entries-Keeps}
use raft_algorithm_thesis.Consensus.Node.Snapshots.{
  snapshot-Keeps, install_snapshot-Keeps, restart-Keeps,
}
use raft_algorithm_thesis.Consensus.Node.Leading.{
  become_candidate-Keeps, start-Keeps, election_timeout-Keeps, request_vote_from_peer-Keeps,
  append_reply-Keeps, snapshot_reply-Keeps, apply_round-Keeps,
}

module _ {C : Type 0} where
  state_of-Keeps :
      {A : Type 0} (rf : Raft C) (m : Option (Raft C × A))
      → Ensures (KeepsFst rf) m
      → Ensures (Keeps rf) (state_of m)
  state_of-Keeps rf none e = tt
  state_of-Keeps rf (some (rf', r)) e = e

  pub step-Ensures : (e : Event C) (rf : Raft C) → IsLive rf → Ensures (Keeps rf) (step e rf)
  unfolding step
  step-Ensures (append_request args) rf l = state_of-Keeps rf _ (append_entries-Keeps args rf)
  step-Ensures (vote_request args) rf l = state_of-Keeps rf _ (request_vote-Keeps args rf)
  step-Ensures (snapshot_request args) rf l = state_of-Keeps rf _ (install_snapshot-Keeps args rf)
  step-Ensures (submitted command) rf l = start-Keeps command rf
  step-Ensures election_timer rf l = state_of-Keeps rf _ (election_timeout-Keeps rf)
  step-Ensures (vote_reply args reply granted) rf l =
      state_of-Keeps rf _ (request_vote_from_peer-Keeps args reply granted rf)
  step-Ensures (append_reply peer args reply) rf l = append_reply-Keeps peer args reply rf
  step-Ensures (snapshot_reply peer args reply) rf l = snapshot_reply-Keeps peer args reply rf
  step-Ensures (compacted index bytes) rf l = snapshot-Keeps index bytes rf
  step-Ensures applied rf l = state_of-Keeps rf _ (apply_round-Keeps rf)
  step-Ensures restarted rf l =
      let (rf', run, e, k) = restart-Keeps rf l in subst (Ensures (Keeps rf)) (sym run) k

  pub Reach-Keeps : {rf rf' : Raft C} → IsLive rf → Reach rf rf' → Keeps rf rf'
  Reach-Keeps {rf} l here = Keeps-refl rf
  Reach-Keeps {rf} l (next {rf' = mid} e r run) =
      let k = Reach-Keeps l r in
      Keeps-trans k (Ensures-some (Keeps mid) (step e mid) (step-Ensures e mid (k.live l)) run)

  -- Whatever happens to a live node, a restart at any later moment succeeds and brings back the
  -- term, the vote, the log and the snapshot's end that the node held at that moment.
  pub restart_recovers :
      {rf rf' : Raft C}
      → IsLive rf
      → Reach rf rf'
      → (rf'' : Raft C) × (step restarted rf' ≡ some rf'') × (saved rf'' ≡ saved rf')
  unfolding step
  restart_recovers {rf' = rf'} l r =
      let (rf'', run, e, k) = restart-Keeps rf' ((Reach-Keeps l r).live l) in (rf'', run, e)

  -- A node on a fresh disk is live.
  pub fresh-IsLive :
      (peers me : ℕ) → IsLive (fresh {C = C} peers me (record { raft_state = []; snapshot = [] }))
  unfolding fresh make read_persist
  fresh-IsLive peers me = record { alive = refl; durable = refl }

  -- The node has given its vote of a term.
  abbrev pub HasVoted : Raft C → ℕ → ℕ → Type 0
  HasVoted rf term candidate = (rf.current_term ≡ term) × (rf.voted_for ≡ some candidate)

  later_vote :
      {rf rf' : Raft C} (t c c' : ℕ) → Keeps rf rf' → HasVoted rf t c → HasVoted rf' t c' → c ≡ c'
  later_vote t c c' k (e, v) (e', v') = cc (k.vote (e ∙ sym e') c v)

  -- A vote granted is in the state.
  granted-HasVoted :
      (args : RequestVoteArgs) (rf : Raft C) {rf' : Raft C} {reply : RequestVoteReply}
      {last : Entry C}
      → get_last_log rf ≡ some last
      → request_vote args rf ≡ some (rf', reply)
      → reply.vote_granted ≡ true
      → HasVoted rf' args.term args.candidate_id
  granted-HasVoted args rf {last = last} q run g =
      (Returns-some (GrantsLawfully args rf last) _ (request_vote-GrantsLawfully args rf last q)
          run).1
        g

  -- If a live node grants a vote, and at any later moment, whatever happened in between and with
  -- restarts, grants another vote for the same term, then both went to the same candidate.
  pub one_vote_per_term :
      {rf rf₁ rf₂ rf₃ : Raft C} {reply reply' : RequestVoteReply} {last last' : Entry C}
      (args args' : RequestVoteArgs)
      → IsLive rf
      → get_last_log rf ≡ some last
      → get_last_log rf₂ ≡ some last'
      → request_vote args rf ≡ some (rf₁, reply)
      → reply.vote_granted ≡ true
      → Reach rf₁ rf₂
      → request_vote args' rf₂ ≡ some (rf₃, reply')
      → reply'.vote_granted ≡ true
      → args.term ≡ args'.term
      → args.candidate_id ≡ args'.candidate_id
  one_vote_per_term {rf} {rf₁} {rf₂} {rf₃} args args' l q q' run g r run' g' e =
      later_vote args.term args.candidate_id args'.candidate_id kept
        (granted-HasVoted args rf q run g) (rw e (granted-HasVoted args' rf₂ q' run' g'))
    where
      granting : Keeps rf rf₁
      granting = Ensures-some (KeepsFst rf) _ (request_vote-Keeps args rf) run

      between : Keeps rf₁ rf₂
      between = Reach-Keeps (granting.live l) r

      kept : Keeps rf₁ rf₃
      kept = Keeps-trans between (Ensures-some (KeepsFst rf₂) _ (request_vote-Keeps args' rf₂) run')

  gen_request_vote_args-term :
      (rf : Raft C)
      → Ensures (λ (args : RequestVoteArgs). args.term ≡ rf.current_term) (gen_request_vote_args rf)
  unfolding gen_request_vote_args
  gen_request_vote_args-term rf =
      Ensures->>= (λ (args : RequestVoteArgs). args.term ≡ rf.current_term) (get_last_log rf) _
        (λ last _. refl)

  -- The candidate of an election has the vote of the election's term.
  abbrev OwnVote : Raft C → Raft C × RequestVoteArgs → Type 0
  OwnVote rf (rf', args) = HasVoted rf' args.term rf.me

  started-HasVoted : (rf : Raft C) → Ensures (OwnVote rf) (become_candidate rf)
  unfolding become_candidate start_election
  started-HasVoted rf = Ensures->>= (OwnVote rf) (gen_request_vote_args voted) _ (λ args run. (
    sym (
        Ensures-some (λ (a : RequestVoteArgs). a.term ≡ voted.current_term) _
          (gen_request_vote_args-term voted) run),
    (persist-frame candidate).2 ∙ mine,
  ))
    where
      raised : Raft C
      raised = record rf { state = NodeState.candidate; current_term = rf.current_term + 1 }

      candidate : Raft C
      candidate = record (persist raised) {
        voted_for = some (persist raised).me;
        current_leader = none;
      }

      voted : Raft C
      voted = persist candidate

      mine : some (persist raised).me ≡ some rf.me
      mine =
          unfold persist in
          if_cases (λ (r : Raft C). some r.me ≡ some rf.me) rf.dead (λ _. refl) (λ _. refl)

  -- A live node that has started an election grants no other candidate a vote of the election's
  -- term, at no later moment, whatever happened in between and with restarts.
  pub candidate_votes_for_itself :
      {rf rf₁ rf₂ rf₃ : Raft C} {args : RequestVoteArgs} {reply : RequestVoteReply} {last : Entry C}
      (args' : RequestVoteArgs)
      → IsLive rf
      → get_last_log rf₂ ≡ some last
      → become_candidate rf ≡ some (rf₁, args)
      → Reach rf₁ rf₂
      → request_vote args' rf₂ ≡ some (rf₃, reply)
      → reply.vote_granted ≡ true
      → args.term ≡ args'.term
      → args'.candidate_id ≡ rf.me
  candidate_votes_for_itself {rf} {rf₁} {rf₂} {rf₃} {args} args' l q run r run' g e = sym (
      later_vote args.term rf.me args'.candidate_id kept
        (Ensures-some (OwnVote rf) _ (started-HasVoted rf) run)
        (rw e (granted-HasVoted args' rf₂ q run' g)))
    where
      starting : Keeps rf rf₁
      starting = Ensures-some (KeepsFst rf) _ (become_candidate-Keeps rf) run

      kept : Keeps rf₁ rf₃
      kept =
          Keeps-trans (Reach-Keeps (starting.live l) r)
            (Ensures-some (KeepsFst rf₂) _ (request_vote-Keeps args' rf₂) run')

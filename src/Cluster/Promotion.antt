-- ===== src/Cluster/Promotion.antt =====
-- ticker.go, log_replication.go, raft.go and storage.go: which events make a node a leader.
use raft_algorithm_thesis.Base.{
  ℕ, ◌≡◌, refl, sym, ◌∙◌, not, ◌&&◌, Option, none, some, List, [], ◌∷◌, if_cases, Ensures,
  Ensures->>=, Ensures-some, Ensures-mono, ltb, ◌==◌,
}
use raft_algorithm_thesis.Consensus.Types.{
  Entry, Raft, NodeState, RequestVoteArgs, AppendEntriesArgs, AppendEntriesReply,
}
use raft_algorithm_thesis.Consensus.Log.{get_len, get_log, is_leader}
use raft_algorithm_thesis.Consensus.Storage.{persist, save}
use raft_algorithm_thesis.Consensus.Vote.{
  handle_higher_term, request_vote, adopt_vote_term, can_vote, is_log_up_to_date,
}
use raft_algorithm_thesis.Consensus.Append.{
  append_entries, finish_append, append_new_entries, accept_entries, advance_commit_index, follow,
  handle_consistency_conflict,
}
use raft_algorithm_thesis.Consensus.Leader.{start}

module _ {C : Type 0} where
  -- A node that is a leader afterwards was one before, in the same term; its place in the cluster
  -- stays.
  pub record NoPromotion (rf rf' : Raft C) : Type 0 where
    pub peers : rf'.peers ≡ rf.peers
    pub me : rf'.me ≡ rf.me
    pub led :
        rf'.state ≡ NodeState.leader
        → (rf.state ≡ NodeState.leader) × (rf'.current_term ≡ rf.current_term)

  abbrev pub FstNoPromotion : {A : Type 0} → Raft C → Raft C × A → Type 0
  FstNoPromotion rf r = NoPromotion rf r.0

  pub none_promoted : (rf : Raft C) → NoPromotion rf rf
  none_promoted rf = record { peers = refl; me = refl; led = λ l. (l, refl) }

  pub NoPromotion-trans :
      {rf rf' rf'' : Raft C} → NoPromotion rf rf' → NoPromotion rf' rf'' → NoPromotion rf rf''
  NoPromotion-trans p q = record {
    peers = q.peers ∙ p.peers;
    me = q.me ∙ p.me;
    led = λ l. (let (l', t') = q.led l in let (l'', t) = p.led l' in (l'', t' ∙ t));
  }

  -- The node steps down.
  pub demoted :
      (rf rf' : Raft C)
      → rf'.peers ≡ rf.peers
      → rf'.me ≡ rf.me
      → rf'.state ≡ NodeState.follower
      → NoPromotion rf rf'
  demoted rf rf' p m f = record { peers = p; me = m; led = λ l. cc }

  pub persist-NoPromotion : (rf : Raft C) → NoPromotion rf (persist rf)
  unfolding persist save
  persist-NoPromotion rf =
      if_cases (NoPromotion rf) rf.dead (λ _. none_promoted rf)
        (λ _. record { peers = refl; me = refl; led = λ l. (l, refl) })

  pub save-NoPromotion : (bytes : List ℕ) (rf : Raft C) → NoPromotion rf (save bytes rf)
  unfolding save
  save-NoPromotion bytes rf = record { peers = refl; me = refl; led = λ l. (l, refl) }

  pub higher-NoPromotion : (term : ℕ) (rf : Raft C) → NoPromotion rf (handle_higher_term term rf).0
  unfolding handle_higher_term
  higher-NoPromotion term rf =
      if_cases (FstNoPromotion rf) (ltb rf.current_term term)
        (λ _. NoPromotion-trans (demoted rf _ refl refl refl) (persist-NoPromotion _))
        (λ _. none_promoted rf)

  adopt-NoPromotion :
      (args : RequestVoteArgs) (rf : Raft C) → NoPromotion rf (adopt_vote_term args rf)
  unfolding adopt_vote_term
  adopt-NoPromotion args rf =
      if_cases (NoPromotion rf) (ltb rf.current_term args.term) (λ _. demoted rf _ refl refl refl)
        (λ _. none_promoted rf)

  pub request_vote-NoPromotion :
      (args : RequestVoteArgs) (rf : Raft C) → Ensures (FstNoPromotion rf) (request_vote args rf)
  unfolding request_vote
  request_vote-NoPromotion args rf =
      let adopted = adopt-NoPromotion args rf in
      if_cases (Ensures (FstNoPromotion rf)) (ltb args.term rf.current_term) (λ _. none_promoted rf)
        (λ _. Ensures->>= (FstNoPromotion rf) (is_log_up_to_date _ _ _) _ (λ up _.
          if_cases (Ensures (FstNoPromotion rf)) (can_vote args (adopt_vote_term args rf) && up)
            (λ _. NoPromotion-trans adopted (
              NoPromotion-trans (record { peers = refl; me = refl; led = λ l. (l, refl) })
                (persist-NoPromotion _)))
            (λ _. NoPromotion-trans adopted (persist-NoPromotion _))))

  pub start-NoPromotion : (command : Option C) (rf : Raft C) → NoPromotion rf (start command rf).0
  unfolding start
  start-NoPromotion command rf =
      if_cases (FstNoPromotion rf) (not (is_leader rf.state)) (λ _. none_promoted rf)
        (λ _.
          NoPromotion-trans (record { peers = refl; me = refl; led = λ l. (l, refl) })
            (persist-NoPromotion _))

  -- A change of the log, the commit index and the tables.
  abbrev pub Same : Raft C → Raft C → Type 0
  Same rf rf' =
      (rf'.peers ≡ rf.peers)
      × (rf'.me ≡ rf.me)
      × (rf'.state ≡ rf.state)
      × (rf'.current_term ≡ rf.current_term)

  pub Same-NoPromotion : (rf rf' : Raft C) → Same rf rf' → NoPromotion rf rf'
  Same-NoPromotion rf rf' (p, m, s, t) = record { peers = p; me = m; led = λ l. (sym s ∙ l, t) }

  Same-trans : (rf rf' rf'' : Raft C) → Same rf rf' → Same rf' rf'' → Same rf rf''
  Same-trans rf rf' rf'' (p, m, s, t) (p', m', s', t') = (p' ∙ p, m' ∙ m, s' ∙ s, t' ∙ t)

  append_new_entries-Same :
      (es : List (Entry C)) (rf : Raft C) → Ensures (Same rf) (append_new_entries es rf)
  unfolding append_new_entries
  append_new_entries-Same [] rf = (refl, refl, refl, refl)
  append_new_entries-Same (e ∷ es) rf =
      if_cases (Ensures (Same rf)) (ltb e.index (get_len rf))
        (λ _. Ensures->>= (Same rf) (get_log rf e.index) _ (λ old _.
          if_cases (Ensures (Same rf)) (old.term == e.term) (λ _. append_new_entries-Same es rf)
            (λ _. (refl, refl, refl, refl))))
        (λ _. (refl, refl, refl, refl))

  advance-Same : (commit : ℕ) (rf : Raft C) → Same rf (advance_commit_index commit rf)
  unfolding advance_commit_index
  advance-Same commit rf =
      if_cases (Same rf) (ltb rf.commit_index commit) (λ _. (refl, refl, refl, refl))
        (λ _. (refl, refl, refl, refl))

  pub accept-Same :
      (args : AppendEntriesArgs C) (rf : Raft C) → Ensures (Same rf) (accept_entries args rf)
  unfolding accept_entries
  accept-Same args rf = Ensures->>= (Same rf) (append_new_entries args.entries rf) _ (λ rf' run.
      Same-trans rf rf' (advance_commit_index args.leader_commit rf')
        (Ensures-some (Same rf) _ (append_new_entries-Same args.entries rf) run)
        (advance-Same args.leader_commit rf'))

  follow-NoPromotion : (args : AppendEntriesArgs C) (rf : Raft C) → NoPromotion rf (follow args rf)
  unfolding follow
  follow-NoPromotion args rf = demoted rf _ refl refl refl

  finish-NoPromotion :
      (args : AppendEntriesArgs C) (reply : AppendEntriesReply) (rf : Raft C)
      (conflict : Option AppendEntriesReply)
      → Ensures (FstNoPromotion rf) (finish_append args reply rf conflict)
  unfolding finish_append
  finish-NoPromotion args reply rf (some refused) = persist-NoPromotion rf
  finish-NoPromotion args reply rf none =
      Ensures->>= (FstNoPromotion rf) (accept_entries args rf) _ (λ rf' run.
        NoPromotion-trans
          (Same-NoPromotion rf rf' (Ensures-some (Same rf) _ (accept-Same args rf) run))
          (persist-NoPromotion rf'))

  pub append_entries-NoPromotion :
      (args : AppendEntriesArgs C) (rf : Raft C)
      → Ensures (FstNoPromotion rf) (append_entries args rf)
  unfolding append_entries
  append_entries-NoPromotion args rf =
      if_cases (Ensures (FstNoPromotion rf)) (ltb args.term rf.current_term) (λ _. none_promoted rf)
        (λ _. Ensures->>= (FstNoPromotion rf) (handle_consistency_conflict _ _ _) _ (λ conflict _.
          Ensures-mono (FstNoPromotion (follow args rf)) (FstNoPromotion rf)
            (λ r k. NoPromotion-trans (follow-NoPromotion args rf) k) _
            (finish-NoPromotion args _ (follow args rf) conflict)))

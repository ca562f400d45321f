-- ===== src/Consensus/Node/Votes.antt =====
-- log_replication.go: RequestVote, AppendEntries and the terms of replies as steps of a node.
use raft_algorithm_thesis.Base.{
  ℕ, ◌≤◌, ◌≡◌, refl, ◌∙◌, true, Option, none, some, List, [], ◌∷◌, arith, ap, if_cases, Ensures,
  Ensures->>=, Ensures-some, ltb, ◌==◌, ◌&&◌,
}
use raft_algorithm_thesis.Consensus.Types.{
  Entry, Raft, RequestVoteArgs, AppendEntriesArgs, AppendEntriesReply,
}
use raft_algorithm_thesis.Consensus.Log.{get_len, get_log}
use raft_algorithm_thesis.Consensus.Vote.{
  handle_higher_term, request_vote, adopt_vote_term, can_vote, is_log_up_to_date,
}
use raft_algorithm_thesis.Consensus.Append.{
  append_entries, finish_append, append_new_entries, accept_entries, advance_commit_index, follow,
  handle_consistency_conflict,
}
use raft_algorithm_thesis.Consensus.Node.Durable.{Keeps, Keeps-refl, IsLawful, persist-Keeps}

module _ {C : Type 0} where
  abbrev pub KeepsFst : {A : Type 0} → Raft C → Raft C × A → Type 0
  KeepsFst rf r = Keeps rf r.0

  pub higher-Keeps : (term : ℕ) (rf : Raft C) → Keeps rf (handle_higher_term term rf).0
  unfolding handle_higher_term
  higher-Keeps term rf =
      if_cases (KeepsFst rf) (ltb rf.current_term term)
        (λ up.
          persist-Keeps
            (record { dead = refl; term_le = ground arith; vote = λ e c v. absurd (ground arith) }))
        (λ no_change. Keeps-refl rf)

  -- The loop of appendNewEntries changes the log alone.
  append_new_entries-frame :
      (es : List (Entry C)) (rf : Raft C)
      → Ensures (λ rf'. rf' ≡ record rf { logs = rf'.logs }) (append_new_entries es rf)
  unfolding append_new_entries
  append_new_entries-frame [] rf = refl
  append_new_entries-frame (e ∷ es) rf =
      if_cases (Ensures IsLogged) (ltb e.index (get_len rf))
        (λ below. Ensures->>= IsLogged (get_log rf e.index) _ (λ old found.
          if_cases (Ensures IsLogged) (old.term == e.term) (λ same. append_new_entries-frame es rf)
            (λ differs. refl)))
        (λ beyond. refl)
    where
      IsLogged : Raft C → Type 0
      IsLogged rf' = rf' ≡ record rf { logs = rf'.logs }

  follow-IsLawful :
      (args : AppendEntriesArgs C) (rf : Raft C)
      → rf.current_term ≤ args.term
      → IsLawful rf (follow args rf)
  unfolding follow
  follow-IsLawful args rf le = record {
    dead = refl;
    term_le = ground arith;
    vote = λ e c v. ground arith;
  }

  adopt-IsLawful : (args : RequestVoteArgs) (rf : Raft C) → IsLawful rf (adopt_vote_term args rf)
  unfolding adopt_vote_term
  adopt-IsLawful args rf = record {
    dead = ground arith;
    term_le = ground arith;
    vote = λ e c v. ground arith;
  }

  -- A vote is given only where none, or the same, was given in the term.
  grant-IsLawful :
      (args : RequestVoteArgs) (rf : Raft C)
      → can_vote args (adopt_vote_term args rf) ≡ true
      → IsLawful rf (record (adopt_vote_term args rf) { voted_for = some args.candidate_id })
  unfolding adopt_vote_term can_vote
  grant-IsLawful args rf grants = record {
    dead = ground arith;
    term_le = ground arith;
    vote = λ e c v. ground arith;
  }

  pub request_vote-Keeps :
      (args : RequestVoteArgs) (rf : Raft C) → Ensures (KeepsFst rf) (request_vote args rf)
  unfolding request_vote
  request_vote-Keeps args rf =
      if_cases (Ensures (KeepsFst rf)) (ltb args.term rf.current_term) (λ old. Keeps-refl rf)
        (λ current. Ensures->>= (KeepsFst rf) (is_log_up_to_date _ _ _) _ (λ up_to_date run.
          if_cases (Ensures (KeepsFst rf)) (can_vote args (adopt_vote_term args rf) && up_to_date)
            (λ grants. persist-Keeps (grant-IsLawful args rf (ground arith)))
            (λ refuses. persist-Keeps (adopt-IsLawful args rf))))

  IsLawful-trans_frame :
      {rf rf' : Raft C} (rf'' : Raft C)
      → IsLawful rf rf'
      → rf''.dead ≡ rf'.dead
      → rf''.current_term ≡ rf'.current_term
      → rf''.voted_for ≡ rf'.voted_for
      → IsLawful rf rf''
  IsLawful-trans_frame rf'' h d t v = record {
    dead = d ∙ h.dead;
    term_le = omega (arith, h.term_le);
    vote = λ e c w. v ∙ h.vote (e ∙ t) c w;
  }

  advance-frame :
      (commit : ℕ) (rf : Raft C)
      → ((advance_commit_index commit rf).dead ≡ rf.dead)
        × ((advance_commit_index commit rf).current_term ≡ rf.current_term)
        × ((advance_commit_index commit rf).voted_for ≡ rf.voted_for)
  unfolding advance_commit_index
  advance-frame commit rf = (ground arith, ground arith, ground arith)

  accept-IsLawful :
      (args : AppendEntriesArgs C) (rf : Raft C)
      → rf.current_term ≤ args.term
      → Ensures (IsLawful rf) (accept_entries args (follow args rf))
  unfolding accept_entries
  accept-IsLawful args rf le =
      Ensures->>= (IsLawful rf) (append_new_entries args.entries (follow args rf)) _ (λ rf' run.
        lawful rf' (
          Ensures-some (λ rf'. rf' ≡ record (follow args rf) { logs = rf'.logs }) _
            (append_new_entries-frame args.entries (follow args rf)) run))
    where
      lawful :
          (rf' : Raft C)
          → rf' ≡ record (follow args rf) { logs = rf'.logs }
          → IsLawful rf (advance_commit_index args.leader_commit rf')
      lawful rf' e =
          IsLawful-trans_frame (advance_commit_index args.leader_commit rf')
            (follow-IsLawful args rf le)
            ((advance-frame args.leader_commit rf').0 ∙ ap (λ (r : Raft C). r.dead) e)
            ((advance-frame args.leader_commit rf').1 ∙ ap (λ (r : Raft C). r.current_term) e)
            ((advance-frame args.leader_commit rf').2 ∙ ap (λ (r : Raft C). r.voted_for) e)

  finish-Keeps :
      (args : AppendEntriesArgs C) (rf : Raft C)
      → rf.current_term ≤ args.term
      → (reply : AppendEntriesReply) (conflict : Option AppendEntriesReply)
      → Ensures (KeepsFst rf) (finish_append args reply (follow args rf) conflict)
  unfolding finish_append
  finish-Keeps args rf le reply (some refused) = persist-Keeps (follow-IsLawful args rf le)
  finish-Keeps args rf le reply none =
      Ensures->>= (KeepsFst rf) (accept_entries args (follow args rf)) _
        (λ rf' run. persist-Keeps (Ensures-some (IsLawful rf) _ (accept-IsLawful args rf le) run))

  pub append_entries-Keeps :
      (args : AppendEntriesArgs C) (rf : Raft C) → Ensures (KeepsFst rf) (append_entries args rf)
  unfolding append_entries
  append_entries-Keeps args rf =
      if_cases (Ensures (KeepsFst rf)) (ltb args.term rf.current_term) (λ old. Keeps-refl rf)
        (λ current.
          Ensures->>= (KeepsFst rf) (handle_consistency_conflict _ _ _) _
            (λ conflict run. finish-Keeps args rf (ground arith) _ conflict))

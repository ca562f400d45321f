-- ===== src/Consensus/Vote/Grant.antt =====
-- log_replication.go: RequestVote, and the votes that may be granted.
use mathlib.Core.Bool.{false≢true}
use native.Mathlib.Decide.{dec_lt}
use raft_algorithm_thesis.Base.{
  ◌≤◌, ◌<◌, ◌≡◌, ◌↔◌, ◌⊎◌, refl, sym, ◌∙◌, Bool, true, false, not, ◌&&◌, none, some, arith, ltb,
  leb, ◌==◌, if◌then◌else◌, Returns, if_Returns, lt→ltb, le→ltb, if_cases,
}
use raft_algorithm_thesis.Consensus.Types.{Entry, Raft, RequestVoteArgs, RequestVoteReply}
use raft_algorithm_thesis.Consensus.Log.{get_last_log}
use raft_algorithm_thesis.Consensus.Storage.{persist}
use raft_algorithm_thesis.Consensus.Vote.{
  request_vote, adopt_vote_term, can_vote, is_log_up_to_date,
}
use raft_algorithm_thesis.Consensus.Node.Durable.{persist-frame}

module _ {C : Type 0} where
  -- The candidate's last entry is not older than the node's: by term first, then by index.
  abbrev pub IsUpToDate : RequestVoteArgs → Entry C → Type 0
  IsUpToDate args last =
      (last.term < args.last_log_term)
      ⊎ ((last.term ≡ args.last_log_term) × (last.index ≤ args.last_log_index))

  -- The node may vote for the candidate in the request's term.
  abbrev pub IsFree : RequestVoteArgs → Raft C → Type 0
  IsFree args rf =
      (rf.current_term < args.term)
      ⊎ ((rf.current_term ≡ args.term)
          × ((rf.voted_for ≡ none) ⊎ (rf.voted_for ≡ some args.candidate_id)))

  -- The reply grants exactly the votes that may be given, and a vote granted is in the state.
  abbrev pub GrantsLawfully :
      RequestVoteArgs → Raft C → Entry C → Raft C × RequestVoteReply → Type 0
  GrantsLawfully args rf last (rf', reply) =
      ((reply.vote_granted ≡ true) ↔ (IsFree args rf × IsUpToDate args last))
      × (reply.vote_granted ≡ true
          → (rf'.current_term ≡ args.term) × (rf'.voted_for ≡ some args.candidate_id))

  get_last_log-adopt :
      (args : RequestVoteArgs) (rf : Raft C)
      → get_last_log (adopt_vote_term args rf) ≡ get_last_log rf
  unfolding adopt_vote_term get_last_log
  get_last_log-adopt args rf =
      if_cases (λ (r : Raft C). get_last_log r ≡ get_last_log rf) (ltb rf.current_term args.term)
        (λ _. refl) (λ _. refl)

  -- The comparison that isLogUpToDate makes.
  abbrev newer : RequestVoteArgs → Entry C → Bool
  newer args last =
      if not (args.last_log_term == last.term)
      then ltb last.term args.last_log_term
      else leb last.index args.last_log_index

  newer_iff :
      (args : RequestVoteArgs) (last : Entry C) → (newer args last ≡ true) ↔ IsUpToDate args last
  newer_iff args last = (λ h. ground arith, λ h. ground arith)

  is_log_up_to_date-newer :
      (args : RequestVoteArgs) (rf : Raft C) {last : Entry C}
      → get_last_log rf ≡ some last
      → is_log_up_to_date args.last_log_term args.last_log_index (adopt_vote_term args rf)
        ≡ some (newer args last)
  unfolding is_log_up_to_date
  is_log_up_to_date-newer args rf q = rw (get_last_log-adopt args rf, q)

  adopted-fields :
      (args : RequestVoteArgs) (rf : Raft C)
      → rf.current_term ≤ args.term
      → ((adopt_vote_term args rf).current_term ≡ args.term)
        × ((can_vote args (adopt_vote_term args rf) ≡ true) ↔ IsFree args rf)
  unfolding adopt_vote_term can_vote
  adopted-fields args rf le = (ground arith, (λ h. ground arith, λ h. ground arith))

  -- The state and the reply of a request that is not stale, by whether the vote is granted.
  request_vote_current :
      (args : RequestVoteArgs) (rf : Raft C) {last : Entry C}
      → get_last_log rf ≡ some last
      → rf.current_term ≤ args.term
      → request_vote args rf ≡ (
          if can_vote args (adopt_vote_term args rf) && newer args last
          then some (
            persist (record (adopt_vote_term args rf) { voted_for = some args.candidate_id }),
            record { term = rf.current_term; vote_granted = true },
          )
          else some (
            persist (adopt_vote_term args rf),
            record { term = rf.current_term; vote_granted = false },
          ))
  unfolding request_vote
  request_vote_current args rf {last} q le =
      rw (le→ltb args.term rf.current_term le, is_log_up_to_date-newer args rf {last = last} q)

  granted_lem :
      (args : RequestVoteArgs) (rf : Raft C) (last : Entry C)
      → rf.current_term ≤ args.term
      → can_vote args (adopt_vote_term args rf) && newer args last ≡ true
      → GrantsLawfully args rf last (
        persist (record (adopt_vote_term args rf) { voted_for = some args.candidate_id }),
        record { term = rf.current_term; vote_granted = true },
      )
  granted_lem args rf last le grants = (
    (λ _. (fields.1.0 (ground arith), (newer_iff args last).0 (ground arith)), λ _. refl),
    λ _. (kept.1 ∙ fields.0, kept.2),
  )
    where
      fields :
          ((adopt_vote_term args rf).current_term ≡ args.term)
          × ((can_vote args (adopt_vote_term args rf) ≡ true) ↔ IsFree args rf)
      fields = adopted-fields args rf le

      voted : Raft C
      voted = record (adopt_vote_term args rf) { voted_for = some args.candidate_id }

      kept :
          ((persist voted).dead ≡ voted.dead)
          × ((persist voted).current_term ≡ voted.current_term)
          × ((persist voted).voted_for ≡ voted.voted_for)
      kept = persist-frame voted

  denied_lem :
      (args : RequestVoteArgs) (rf : Raft C) (last : Entry C)
      → rf.current_term ≤ args.term
      → can_vote args (adopt_vote_term args rf) && newer args last ≡ false
      → GrantsLawfully args rf last (
        persist (adopt_vote_term args rf),
        record { term = rf.current_term; vote_granted = false },
      )
  denied_lem args rf last le denies =
      ((λ e. absurd (false≢true e), λ h. may h), λ e. absurd (false≢true e))
    where
      may : IsFree args rf × IsUpToDate args last → false ≡ true
      may (free, up) =
          sym denies ∙ both ((adopted-fields args rf le).1.1 free) ((newer_iff args last).1 up)
        where
          both :
              can_vote args (adopt_vote_term args rf) ≡ true
              → newer args last ≡ true
              → can_vote args (adopt_vote_term args rf) && newer args last ≡ true
          both p q = rw (p, q)

  stale_lem :
      (args : RequestVoteArgs) (rf : Raft C) (last : Entry C)
      → args.term < rf.current_term
      → GrantsLawfully args rf last (rf, record { term = rf.current_term; vote_granted = false })
  stale_lem args rf last old =
      ((λ e. absurd (false≢true e), λ h. absurd (ground (arith, h.0))), λ e. absurd (false≢true e))

  -- On a node with a log, RequestVote returns; it grants the vote exactly if the request's term is
  -- newer than the node's, or the same with no vote given to another candidate, and the candidate's
  -- last entry is not older than the node's. A vote that is granted is recorded in the request's term.
  pub request_vote-GrantsLawfully :
      (args : RequestVoteArgs) (rf : Raft C) (last : Entry C)
      → get_last_log rf ≡ some last
      → Returns (GrantsLawfully args rf last) (request_vote args rf)
  request_vote-GrantsLawfully args rf last q = elim (dec_lt args.term rf.current_term) [
    | yes old ↦ (
      (rf, record { term = rf.current_term; vote_granted = false }),
      unfold request_vote in rw (lt→ltb args.term rf.current_term old),
      stale_lem args rf last old,
    )
    | no current ↦ rw (request_vote_current args rf {last = last} q (omega arith)) (
        if_Returns (GrantsLawfully args rf last)
          (can_vote args (adopt_vote_term args rf) && newer args last)
          (granted_lem args rf last (omega arith)) (denied_lem args rf last (omega arith)))
  ]

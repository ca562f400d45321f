-- ===== src/Consensus/Leader/Commit.antt =====
-- log_replication.go: updateCommitIndex against a description of the commit index.
use mathlib.Core.Bool.{false≢true}
use native.Mathlib.Decide.{dec_le}
use raft_algorithm_thesis.Base.{
  ℕ, zero, suc, ◌+◌, ◌-◌, ◌/◌, ◌≤◌, ◌<◌, ◌≡◌, refl, sym, ◌∙◌, ap, subst, true, not, ◌&&◌, some,
  List, [], ◌∷◌, length, arith, ltb, leb, ◌==◌, ltb→lt, if◌then◌else◌, Bool-cases, inl, inr, ◌⊎◌,
  Returns, ◌↔◌,
}
use raft_algorithm_thesis.Consensus.Types.{Entry, Raft}
use raft_algorithm_thesis.Consensus.Log.{get_len, get_log}
use raft_algorithm_thesis.Consensus.Leader.{
  count_others, count_nodes_with_log_at, commits_at, find_commit, update_commit_index,
}
use raft_algorithm_thesis.Consensus.Invariant.{IsWellFormed, HasTerm, get_log_total}

-- The places of a list from `i` on, other than `me`, that hold at least `index`.
abbrev pub holders : ℕ → ℕ → ℕ → List ℕ → List ℕ
holders me index i [] = []
holders me index i (m ∷ ms) =
    if not (i == me) && leb index m
    then i ∷ holders me index (i + 1) ms
    else holders me index (i + 1) ms

pub count_others-holders :
    (me index i : ℕ) (ms : List ℕ) → count_others me index i ms ≡ length (holders me index i ms)
unfolding count_others
count_others-holders me index i [] = refl
count_others-holders me index i (m ∷ ms) = ground (arith, count_others-holders me index (i + 1) ms)

module _ {C : Type 0} where
  -- The entry at an index is of the node's term, and more than half of the nodes hold it: the node
  -- itself and the peers whose matchIndex has reached the index.
  abbrev pub IsReplicated : Raft C → ℕ → Type 0
  IsReplicated rf n =
      HasTerm rf n rf.current_term × (rf.peers / 2 < 1 + length (holders rf.me n 0 rf.match_index))

  commits_at_iff :
      (rf : Raft C) (n : ℕ) {e : Entry C}
      → get_log rf n ≡ some e
      → (commits_at rf n e ≡ true) ↔ IsReplicated rf n
  unfolding commits_at count_nodes_with_log_at
  commits_at_iff rf n {e} q = (
    λ h. ((e, q, ground arith), ground (arith, count_others-holders rf.me n 0 rf.match_index)),
    λ h. ground (arith, same h.0, h.1, count_others-holders rf.me n 0 rf.match_index),
  )
    where
      same : HasTerm rf n rf.current_term → e.term ≡ rf.current_term
      same (x, r, t) = ap (λ (y : Entry C). y.term) (some_eq r) ∙ t
        where
          some_eq : get_log rf n ≡ some x → e ≡ x
          some_eq r = cc

  -- The loop's result from n down.
  abbrev pub IsLastReplicated : Raft C → ℕ → ℕ → Type 0
  IsLastReplicated rf n c =
      ((c ≡ rf.commit_index) ⊎ ((rf.commit_index < c) × (c ≤ n) × IsReplicated rf c))
      × ((m : ℕ) → c < m → m ≤ n → ¬ IsReplicated rf m)

  extend_down :
      (rf : Raft C) (n c : ℕ)
      → ¬ IsReplicated rf (suc n)
      → IsLastReplicated rf n c
      → IsLastReplicated rf (suc n) c
  extend_down rf n c skip (found, above) = (widen found, rest)
    where
      widen :
          (c ≡ rf.commit_index) ⊎ ((rf.commit_index < c) × (c ≤ n) × IsReplicated rf c)
          → (c ≡ rf.commit_index) ⊎ ((rf.commit_index < c) × (c ≤ suc n) × IsReplicated rf c)
      widen (inl e) = inl e
      widen (inr (lt, le, r)) = inr (lt, omega arith, r)

      rest : (m : ℕ) → c < m → m ≤ suc n → ¬ IsReplicated rf m
      rest m lt le = elim (dec_le m n) [
        | yes low ↦ above m lt low
        | no high ↦ subst (λ k. ¬ IsReplicated rf k) (omega arith) skip
      ]

  find_commit-IsLastReplicated :
      (rf : Raft C) (n : ℕ)
      → rf.last_included_index ≤ rf.commit_index
      → n < rf.last_included_index + length rf.logs
      → Returns (IsLastReplicated rf n) (find_commit rf n)
  unfolding find_commit
  find_commit-IsLastReplicated rf zero lo hi =
      (rf.commit_index, refl, (inl refl, λ m a b. absurd (omega arith)))
  find_commit-IsLastReplicated rf (suc n) lo hi = elim (Bool-cases (ltb rf.commit_index (suc n))) [
    | inl above ↦
        (let (e, q) = get_log_total rf (suc n) (ground arith) hi in
          elim (Bool-cases (commits_at rf (suc n) e)) [
            | inl commits ↦ (
              suc n,
              rw (above, q, commits),
              (
                inr (ltb→lt _ _ above, omega arith, (commits_at_iff rf (suc n) q).0 commits),
                λ m a b. absurd (omega arith),
              ),
            )
            | inr skips ↦
                (let (c, run, h) = find_commit-IsLastReplicated rf n lo (omega arith) in
                  (
                    c,
                    rw (above, q, skips) run,
                    extend_down rf n c
                        (λ r. false≢true (sym skips ∙ (commits_at_iff rf (suc n) q).1 r)) h,
                  ))
          ])
    | inr stop ↦ (rf.commit_index, rw stop, (inl refl, λ m a b. absurd (ground arith)))
  ]

  -- On a well-formed node updateCommitIndex returns; it changes the commit index alone, which stays
  -- or goes up to an entry of the node's own term that a majority holds, and no later entry is one.
  pub update_commit_index-IsLastReplicated :
      (rf : Raft C)
      → IsWellFormed rf
      → Returns
          (λ rf'.
            IsLastReplicated rf (get_len rf - 1) rf'.commit_index
            × (rf' ≡ record rf { commit_index = rf'.commit_index }))
          (update_commit_index rf)
  unfolding update_commit_index
  update_commit_index-IsLastReplicated rf wf =
      let (c, run, h) =
        find_commit-IsLastReplicated rf (get_len rf - 1) wf.anchored
          (unfold get_len in omega (arith, wf.nonempty)) in
      (record rf { commit_index = c }, rw run, (h, refl))

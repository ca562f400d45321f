-- ===== src/Consensus/Node/Durable.antt =====
-- storage.go: what a restart finds on disk, and a relation between two states of a node.
use mathlib.Core.Option
use mathlib.Core.Bool.{false≢true}
use raft_algorithm_thesis.Base.{
  ℕ, ◌≤◌, ◌≡◌, refl, sym, ◌∙◌, true, false, some, List, arith, ap, if_cases,
}
use raft_algorithm_thesis.Consensus.Types.{Raft}
use raft_algorithm_thesis.Consensus.Storage.{
  Saved, encode_state, decode_state, restore, read_persist, fresh, make, save, persist,
}

module _ {C : Type 0} where
  -- The fields that the program saves.
  abbrev pub saved : Raft C → Saved C
  saved rf = record {
    current_term = rf.current_term;
    voted_for = rf.voted_for;
    logs = rf.logs;
    last_included_index = rf.last_included_index;
    last_included_term = rf.last_included_term;
  }

  -- A restart brings back what the node now holds of them.
  abbrev pub IsDurable : Raft C → Type 0
  IsDurable rf = Option.map saved (make rf.peers rf.me rf.persister) ≡ some (saved rf)

  -- What encodeState writes, readPersist reads back, whatever the node it is read into; the commit
  -- index and the last applied index are raised to the end of the snapshot.
  pub decode_state-encode_state : (rf : Raft C) → decode_state (encode_state rf) ≡ some (saved rf)
  unfolding decode_state encode_state
  decode_state-encode_state rf = refl

  pub save-IsDurable : (bytes : List ℕ) (rf : Raft C) → IsDurable (save bytes rf)
  unfolding make save encode_state read_persist decode_state restore fresh
  save-IsDurable bytes rf = refl

  -- A node that has not been killed and whose state is on its disk.
  pub record IsLive (rf : Raft C) : Type 0 where
    pub alive : rf.dead ≡ false
    pub durable : IsDurable rf

  -- From one state to a later one: the term does not fall, and a vote given in a term stays.
  pub record Keeps (rf rf' : Raft C) : Type 0 where
    pub live : IsLive rf → IsLive rf'
    pub term_le : rf.current_term ≤ rf'.current_term
    pub vote :
        rf.current_term ≡ rf'.current_term
        → (c : ℕ) → rf.voted_for ≡ some c
        → rf'.voted_for ≡ some c

  pub Keeps-refl : (rf : Raft C) → Keeps rf rf
  Keeps-refl rf = record { live = λ l. l; term_le = omega arith; vote = λ e c v. v }

  pub Keeps-trans : {rf rf' rf'' : Raft C} → Keeps rf rf' → Keeps rf' rf'' → Keeps rf rf''
  Keeps-trans k k' = record {
    live = λ l. k'.live (k.live l);
    term_le = omega (arith, k.term_le, k'.term_le);
    vote = λ e c v.
        k'.vote (omega (arith, k.term_le, k'.term_le)) c
          (k.vote (omega (arith, k.term_le, k'.term_le)) c v);
  }

  -- A change of the fields that are not saved.
  pub record IsVolatile (rf rf' : Raft C) : Type 0 where
    pub dead : rf'.dead ≡ rf.dead
    pub peers : rf'.peers ≡ rf.peers
    pub me : rf'.me ≡ rf.me
    pub persister : rf'.persister ≡ rf.persister
    pub state : saved rf' ≡ saved rf

  pub IsVolatile-Keeps : {rf rf' : Raft C} → IsVolatile rf rf' → Keeps rf rf'
  IsVolatile-Keeps v = record {
    live = λ l. record {
      alive = v.dead ∙ l.alive;
      durable = rw (v.peers, v.me, v.persister, v.state) l.durable;
    };
    term_le = omega (arith, ap (λ (s : Saved C). s.current_term) v.state);
    vote = λ e c h. ap (λ (s : Saved C). s.voted_for) v.state ∙ h;
  }

  -- A change of term and vote that is lawful once it is saved.
  pub record IsLawful (rf rf' : Raft C) : Type 0 where
    pub dead : rf'.dead ≡ rf.dead
    pub term_le : rf.current_term ≤ rf'.current_term
    pub vote :
        rf.current_term ≡ rf'.current_term
        → (c : ℕ) → rf.voted_for ≡ some c
        → rf'.voted_for ≡ some c

  pub save-Keeps : (bytes : List ℕ) {rf rf' : Raft C} → IsLawful rf rf' → Keeps rf (save bytes rf')
  save-Keeps bytes {rf' = rf'} h = record {
    live = λ l. record { alive = dead_eq ∙ h.dead ∙ l.alive; durable = save-IsDurable bytes rf' };
    term_le = unfold save in h.term_le;
    vote = unfold save in h.vote;
  }
    where
      dead_eq : (save bytes rf').dead ≡ rf'.dead
      dead_eq = unfold save in refl

  pub persist-Keeps : {rf rf' : Raft C} → IsLawful rf rf' → Keeps rf (persist rf')
  unfolding persist
  persist-Keeps {rf} {rf'} h =
      if_cases (Keeps rf) rf'.dead (λ dead. killed dead)
        (λ alive. save-Keeps rf'.persister.snapshot h)
    where
      contradiction : IsLive rf → rf'.dead ≡ true → ⊥
      contradiction l dead = false≢true (sym l.alive ∙ sym h.dead ∙ dead)

      killed : rf'.dead ≡ true → Keeps rf rf'
      killed dead = record {
        live = λ l. absurd (contradiction l dead);
        term_le = h.term_le;
        vote = h.vote;
      }

  -- Saving changes neither life, term nor vote.
  pub persist-frame :
      (rf : Raft C)
      → ((persist rf).dead ≡ rf.dead)
        × ((persist rf).current_term ≡ rf.current_term)
        × ((persist rf).voted_for ≡ rf.voted_for)
  unfolding persist
  persist-frame rf =
      if_cases
        (λ (rf' : Raft C).
          (rf'.dead ≡ rf.dead)
          × (rf'.current_term ≡ rf.current_term)
          × (rf'.voted_for ≡ rf.voted_for))
        rf.dead (λ _. (refl, refl, refl)) (λ _. (refl, refl, refl))

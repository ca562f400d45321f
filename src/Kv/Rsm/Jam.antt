-- ===== src/Kv/Rsm/Jam.antt =====
-- rsm.go: a reader that sends to a Submit that no longer receives.
use mathlib.Core.Bool.{false≢true}
use raft_algorithm_thesis.Base.{
  ℕ, ◌≡◌, refl, sym, ◌∙◌, ap, subst, true, Option, none, some, List, [], ◌∷◌, put_at, put_at-All,
}
use raft_algorithm_thesis.Kv.Rsm.{StateMachine, Wake, wake_index, wake_id, Ending}
use raft_algorithm_thesis.Kv.Rsm.Process.{
  Reader, idle, sending, Call, waiting, expired, leaving, returned, System, holds_mu, Turn, submits,
  refuses, expires, dumps, hears_close, returns, takes, skips, executes, notifies, restores, sends,
  unlocks, stops, Runs, stays, turns,
}

-- The reader sends on a channel on which nobody receives.
abbrev pub NoReceiver : {Val : Type 0} → Wake Val → (ℕ → Call Val) → Type 0
NoReceiver w calls = (k : ℕ) → calls k ≡ waiting (wake_index w) (wake_id w) → ⊥

-- The message that the reader sends next.
abbrev next_wake : {Req Val : Type 0} → Reader Req Val → Option (Wake Val)
next_wake (sending []) = none
next_wake (sending (w ∷ ws)) = some w
next_wake _ = none

module _ {Req Val : Type 0} where
  pub held :
      (reader : Reader Req Val) (ws : List (Wake Val))
      → reader ≡ sending ws
      → holds_mu reader ≡ true
  held reader ws e = rw e refl

  -- A reader that sends is in no other state.
  not_sending :
      (reader other : Reader Req Val) (w : Wake Val) (ws : List (Wake Val))
      → next_wake other ≡ none
      → reader ≡ other
      → reader ≡ sending (w ∷ ws)
      → ⊥
  not_sending reader other w ws n e q =
      let h : none ≡ some w = sym n ∙ ap next_wake (sym e ∙ q) in cc

  same_wake :
      (reader : Reader Req Val) (w w' : Wake Val) (ws ws' : List (Wake Val))
      → reader ≡ sending (w ∷ ws)
      → reader ≡ sending (w' ∷ ws')
      → w' ≡ w
  same_wake reader w w' ws ws' e q = let h : some w' ≡ some w = ap next_wake (sym q ∙ e) in cc

module _ {Req Val S : Type 0} where
  pub record IsJammed (w : Wake Val) (ws : List (Wake Val)) (s : System Req Val S) : Type 0 where
    pub sending_w : s.reader ≡ sending (w ∷ ws)
    pub alone : NoReceiver w s.calls

  -- Nothing is executed, no entry comes or goes, and no call returns.
  pub record Halted (s s' : System Req Val S) : Type 0 where
    pub reader : s'.reader ≡ s.reader
    pub rsm : s'.rsm ≡ s.rsm
    pub executed : s'.executed ≡ s.executed
    pub returns :
        (k index id : ℕ) (e : Ending Val)
        → s'.calls k ≡ returned index id e
        → s.calls k ≡ returned index id e

  Halted-trans : {s t u : System Req Val S} → Halted s t → Halted t u → Halted s u
  Halted-trans h h' = record {
    reader = h'.reader ∙ h.reader;
    rsm = h'.rsm ∙ h.rsm;
    executed = h'.executed ∙ h.executed;
    returns = λ k index id e r. h.returns k index id e (h'.returns k index id e r);
  }

  -- A call that leaves its select otherwise keeps the jam.
  leaves_jam :
      (w : Wake Val) (ws : List (Wake Val)) (s : System Req Val S) (j : ℕ) (call : Call Val)
      → IsJammed w ws s
      → (call ≡ waiting (wake_index w) (wake_id w) → ⊥)
      → ((index id : ℕ) (e : Ending Val) → call ≡ returned index id e → ⊥)
      → IsJammed w ws (record s { calls = put_at j call s.calls })
        × Halted s (record s { calls = put_at j call s.calls })
  leaves_jam w ws s j call h waits ends = (
    record {
      sending_w = h.sending_w;
      alone =
          put_at-All (λ k (c : Call Val). c ≡ waiting (wake_index w) (wake_id w) → ⊥) j call s.calls
            waits h.alone;
    },
    record {
      reader = refl;
      rsm = refl;
      executed = refl;
      returns =
          put_at-All
            (λ k (c : Call Val).
              (index id : ℕ) (e : Ending Val)
              → c ≡ returned index id e
              → s.calls k ≡ returned index id e)
            j call s.calls (λ index id e r. absurd (ends index id e r)) (λ k index id e r. r);
    },
  )

module _ {Req Val S : Type 0} (machine : StateMachine Req Val S) where
  Turn-Halted :
      (w : Wake Val) (ws : List (Wake Val)) {s s' : System Req Val S}
      → IsJammed w ws s
      → Turn machine s s'
      → IsJammed w ws s' × Halted s s'
  Turn-Halted w ws {s} h (submits j id index term pending c free run eq) =
      absurd (false≢true (sym free ∙ held s.reader _ h.sending_w))
  Turn-Halted w ws {s} h (refuses j id c free run eq) =
      absurd (false≢true (sym free ∙ held s.reader _ h.sending_w))
  Turn-Halted w ws {s} h (expires j index id c eq) =
      subst (λ t. IsJammed w ws t × Halted s t) (sym eq)
        (leaves_jam w ws s j (expired index id) h (λ e. cc) (λ i d e r. cc))
  Turn-Halted w ws {s} h (dumps j index id c free eq) =
      absurd (false≢true (sym free ∙ held s.reader _ h.sending_w))
  Turn-Halted w ws {s} h (hears_close j index id term c shut eq) =
      subst (λ t. IsJammed w ws t × Halted s t) (sym eq)
        (leaves_jam w ws s j (leaving index id _) h (λ e. cc) (λ i d e r. cc))
  Turn-Halted w ws {s} h (returns j index id e c free eq) =
      absurd (false≢true (sym free ∙ held s.reader _ h.sending_w))
  Turn-Halted w ws {s} h (takes index op r eq) =
      absurd (not_sending s.reader idle w ws refl r h.sending_w)
  Turn-Halted w ws {s} h (skips index r eq) =
      absurd (not_sending s.reader idle w ws refl r h.sending_w)
  Turn-Halted w ws {s} h (executes index op r eq) =
      absurd (not_sending s.reader _ w ws refl r h.sending_w)
  Turn-Halted w ws {s} h (notifies index id val leads term is_leader ps r perm eq) =
      absurd (not_sending s.reader _ w ws refl r h.sending_w)
  Turn-Halted w ws {s} h (restores term is_leader bytes msg_term index ps rsm wakes r perm run eq) =
      absurd (not_sending s.reader idle w ws refl r h.sending_w)
  Turn-Halted w ws {s} h (sends j w' ws' r c eq) = absurd (
      subst (λ x. s.calls j ≡ waiting (wake_index x) (wake_id x) → ⊥)
        (sym (same_wake s.reader w w' ws ws' h.sending_w r)) (h.alone j) c)
  Turn-Halted w ws {s} h (unlocks r eq) =
      absurd (not_sending s.reader (sending []) w ws refl r h.sending_w)
  Turn-Halted w ws {s} h (stops r eq) = absurd (not_sending s.reader idle w ws refl r h.sending_w)

  pub Runs-Halted :
      (w : Wake Val) (ws : List (Wake Val)) {s s' : System Req Val S}
      → IsJammed w ws s
      → Runs machine s s'
      → IsJammed w ws s' × Halted s s'
  Runs-Halted w ws {s} h stays =
      (h, record { reader = refl; rsm = refl; executed = refl; returns = λ k i d e r. r })
  Runs-Halted w ws h (turns r t) =
      let (h', halted) = Runs-Halted w ws h r in
      let (h'', halted') = Turn-Halted w ws h' t in (h'', Halted-trans halted halted')

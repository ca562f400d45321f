-- ===== src/Kv/Rsm/Replay.antt =====
-- rsm.go: the state machine's state, by the messages that the reader has received.
use raft_algorithm_thesis.Base.{
  ℕ, ◌≡◌, refl, sym, ◌∙◌, ap, subst, Bool, Option, none, some, List, [], ◌∷◌, leb, if◌then◌else◌,
  Ensures, Ensures-some, Bool-cases, inl, inr,
}
use raft_algorithm_thesis.Consensus.Types.{ApplyMsg, command_msg, snapshot_msg}
use raft_algorithm_thesis.Kv.Rsm.{Op, StateMachine, Pending, Wake, Rsm, cleanup, handle_snapshot}
use raft_algorithm_thesis.Kv.Rsm.Process.{
  Reader, idle, applying, System, take_command, Turn, submits, refuses, expires, dumps, hears_close,
  returns, takes, skips, executes, notifies, restores, sends, unlocks, stops, Runs, stays, turns,
}
use raft_algorithm_thesis.Kv.Rsm.Answers.{started}

module _ {Req Val S : Type 0} (machine : StateMachine Req Val S) where
  -- One message for a replica that does nothing else: its state and its last index.
  unfoldable pub apply_msg : ApplyMsg (Op Req) → S × ℕ → S × ℕ
  apply_msg (command_msg none index) r = r
  apply_msg (command_msg (some op) index) r =
      if leb index r.1 then r else ((machine.do_op op.req r.0).0, index)
  apply_msg (snapshot_msg bytes term index) r = elim (machine.restore bytes r.0) [
    | none ↦ r
    | some s ↦ (s, index)
  ]

  -- The messages of a list, the last one first, each index at most once and never one below.
  unfoldable pub apply_once : List (ApplyMsg (Op Req)) → S × ℕ → S × ℕ
  apply_once [] r = r
  apply_once (m ∷ ms) r = apply_msg m (apply_once ms r)

  -- The state of the state machine, with the command that is about to be executed.
  abbrev pub caught_up : Reader Req Val → S → S
  caught_up (applying index op) s = (machine.do_op op.req s).0
  caught_up _ s = s

  abbrev pub progress : System Req Val S → S × ℕ
  progress s = (caught_up s.reader s.rsm.sm, s.rsm.last_applied)

  abbrev Replays : S × ℕ → System Req Val S → Type 0
  Replays r s = progress s ≡ apply_once s.received r

  take-Replays :
      (r : S × ℕ) (index : ℕ) (op : Op Req) (s : System Req Val S)
      → s.reader ≡ idle
      → Replays r s
      → Replays r (record s {
        rsm = (take_command {Val = Val} index op s.rsm).0;
        reader = (take_command index op s.rsm).1;
        received = command_msg (some op) index ∷ s.received;
      })
  unfolding take_command apply_once apply_msg
  take-Replays r index op s e h =
      let at : (s.rsm.sm, s.rsm.last_applied) ≡ apply_once s.received r =
        sym (ap (λ x. (caught_up x s.rsm.sm, s.rsm.last_applied)) e) ∙ h in
      rw (sym at) (elim (Bool-cases (leb index s.rsm.last_applied)) [
        | inl stale ↦ rw stale refl
        | inr fresh ↦ rw fresh refl
      ])

  restore-msg :
      (bytes : List ℕ) (term index : ℕ) (s : S) (last : ℕ) {s' : S}
      → machine.restore bytes s ≡ some s'
      → apply_msg (snapshot_msg bytes term index) (s, last) ≡ (s', index)
  unfolding apply_msg
  restore-msg bytes term index s last q = rw (apply_msg, q) refl

  restore-Replays :
      (r : S × ℕ) (term : ℕ) (is_leader : Bool) (bytes : List ℕ) (msg_term index : ℕ)
      (ps : List Pending) (s : System Req Val S) {rsm : Rsm S} {wakes : List (Wake Val)}
      → s.reader ≡ idle
      → Replays r s
      → handle_snapshot machine term is_leader bytes index (record s.rsm { pending = ps })
        ≡ some (rsm, wakes)
      → (rsm.sm, rsm.last_applied) ≡ apply_once (snapshot_msg bytes msg_term index ∷ s.received) r
  unfolding apply_once apply_msg
  restore-Replays r term is_leader bytes msg_term index ps s e h run =
      let at : (s.rsm.sm, s.rsm.last_applied) ≡ apply_once s.received r =
        sym (ap (λ x. (caught_up x s.rsm.sm, s.rsm.last_applied)) e) ∙ h in
      rw (sym at) (Ensures-some Restores _ (restored (machine.restore bytes s.rsm.sm) refl) run)
    where
      Restores : Rsm S × List (Wake Val) → Type 0
      Restores x =
          (x.0.sm, x.0.last_applied)
          ≡ apply_msg (snapshot_msg bytes msg_term index) (s.rsm.sm, s.rsm.last_applied)

      restored :
          (o : Option S)
          → machine.restore bytes s.rsm.sm ≡ o
          → Ensures Restores
              (handle_snapshot machine term is_leader bytes index (record s.rsm { pending = ps }))
      restored none q = unfold handle_snapshot in rw (q, Ensures) tt
      restored (some sm) q =
          unfold handle_snapshot in
          rw (q, Ensures) (sym (restore-msg bytes msg_term index s.rsm.sm s.rsm.last_applied q))

  Turn-Replays :
      (r : S × ℕ) {s s' : System Req Val S} → Turn machine s s' → Replays r s → Replays r s'
  unfolding cleanup
  Turn-Replays r {s} (submits j id index term pending c free run eq) h =
      subst (Replays r) (sym eq) h
  Turn-Replays r {s} (refuses j id c free run eq) h = subst (Replays r) (sym eq) h
  Turn-Replays r {s} (expires j index id c eq) h = subst (Replays r) (sym eq) h
  Turn-Replays r {s} (dumps j index id c free eq) h = subst (Replays r) (sym eq) h
  Turn-Replays r {s} (hears_close j index id term c shut eq) h = subst (Replays r) (sym eq) h
  Turn-Replays r {s} (returns j index id e c free eq) h = subst (Replays r) (sym eq) h
  Turn-Replays r {s} (takes index op e eq) h =
      subst (Replays r) (sym eq) (take-Replays r index op s e h)
  Turn-Replays r {s} (skips index e eq) h =
      subst (Replays r) (sym eq) (unfold apply_once apply_msg in h)
  Turn-Replays r {s} (executes index op e eq) h =
      subst (Replays r) (sym eq) (sym (ap (λ x. (caught_up x s.rsm.sm, s.rsm.last_applied)) e) ∙ h)
  Turn-Replays r {s} (notifies index id val leads term is_leader ps e perm eq) h =
      subst (Replays r) (sym eq) (sym (ap (λ x. (caught_up x s.rsm.sm, s.rsm.last_applied)) e) ∙ h)
  Turn-Replays r {s} (restores term is_leader bytes msg_term index ps rsm wakes e perm run eq) h =
      subst (Replays r) (sym eq)
        (restore-Replays r term is_leader bytes msg_term index ps s e h run)
  Turn-Replays r {s} (sends j w wakes e c eq) h =
      subst (Replays r) (sym eq) (sym (ap (λ x. (caught_up x s.rsm.sm, s.rsm.last_applied)) e) ∙ h)
  Turn-Replays r {s} (unlocks e eq) h =
      subst (Replays r) (sym eq) (sym (ap (λ x. (caught_up x s.rsm.sm, s.rsm.last_applied)) e) ∙ h)
  Turn-Replays r {s} (stops e eq) h =
      subst (Replays r) (sym eq) (sym (ap (λ x. (caught_up x s.rsm.sm, s.rsm.last_applied)) e) ∙ h)

  -- At every point of every interleaving of the calls of Submit and the reader, with time-outs, with
  -- a reader that blocks, and whatever Raft answers, the state machine's state, with the command
  -- that is about to be executed, and the last index are those of a replica that does nothing but
  -- apply the messages received so far: each command of an index above the last one executed once,
  -- a command of no higher index passed over, and each snapshot restored.
  pub Runs-apply_once :
      (rsm : Rsm S) {s : System Req Val S}
      → Runs machine (started rsm) s
      → progress s ≡ apply_once s.received (rsm.sm, rsm.last_applied)
  Runs-apply_once rsm stays = unfold apply_once in refl
  Runs-apply_once rsm (turns runs t) =
      Turn-Replays (rsm.sm, rsm.last_applied) t (Runs-apply_once rsm runs)

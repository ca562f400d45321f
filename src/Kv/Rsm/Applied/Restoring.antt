-- ===== src/Kv/Rsm/Applied/Restoring.antt =====
-- rsm.go: the reader on the message of a snapshot.
use raft_algorithm_thesis.Base.{
  ℕ, ◌≤◌, ◌≡◌, true, Option-cases, refl, ap, subst, Bool, Option, none, some, List, [], ◌∷◌, map,
  arith, inl, inr, ◌⊎◌, length, Returns,
}
use raft_algorithm_thesis.Consensus.Types.{ApplyMsg, snapshot_msg}
use raft_algorithm_thesis.Kv.Rsm.{
  Op, StateMachine, Pending, Wake, notify_outdated, Rsm, handle_snapshot,
}
use raft_algorithm_thesis.Kv.Rsm.Applied.{RaftAnswers, AllHear, send_all-heard, read_msg, read_all}

module _ {Req Val S : Type 0} (machine : StateMachine Req Val S) (max_raft_state : Option ℕ) where
  abbrev pub Restored : List ℕ → ℕ → Rsm S → Rsm S → Type 0
  Restored bytes index rsm rsm' =
      (rsm'.last_applied ≤ index) × (machine.restore bytes rsm.sm ≡ some rsm'.sm)

  -- Restore fails, and the process ends, or the snapshot is restored and the reader goes on.
  abbrev pub RestoreEnds : List ℕ → ℕ → Rsm S → Option (Rsm S) → Type 0
  RestoreEnds bytes index rsm result =
      ((machine.restore bytes rsm.sm ≡ none) × (result ≡ none))
      ⊎ Returns (Restored bytes index rsm) result

  restore_fails :
      (term : ℕ) (is_leader : Bool) (bytes : List ℕ) (index : ℕ) (rsm : Rsm S)
      → machine.restore bytes rsm.sm ≡ none
      → handle_snapshot machine term is_leader bytes index rsm ≡ none
  unfolding handle_snapshot
  restore_fails term is_leader bytes index rsm q = rw (handle_snapshot, q) refl

  restore_works :
      (term : ℕ) (is_leader : Bool) (bytes : List ℕ) (index : ℕ) (rsm : Rsm S) {sm : S}
      → machine.restore bytes rsm.sm ≡ some sm
      → (wakes : List (Wake Val)) × (pending : List Pending) × (handle_snapshot machine term
            is_leader bytes index rsm
          ≡ some (record { sm = sm; pending = pending; last_applied = index }, wakes))
  unfolding handle_snapshot
  restore_works term is_leader bytes index rsm q = (
    (notify_outdated index term is_leader rsm.pending).1,
    (notify_outdated {Val = Val} index term is_leader rsm.pending).0,
    rw (handle_snapshot, q) refl,
  )

  pub snapshot_round :
      (raft : RaftAnswers) (bytes : List ℕ) (term index : ℕ) (rsm : Rsm S)
      → ((i d : ℕ) → raft.hears i d ≡ true)
      → RestoreEnds bytes index rsm
          (read_all machine max_raft_state ((raft, snapshot_msg bytes term index) ∷ []) rsm)
  unfolding read_all read_msg
  snapshot_round raft bytes term index rsm heard =
      elim (Option-cases (machine.restore bytes rsm.sm)) [
        | inl fails ↦
            inl (fails, rw (restore_fails raft.term raft.is_leader bytes index rsm fails) refl)
        | inr (sm, works) ↦
            (let (wakes, pending, run) =
                restore_works raft.term raft.is_leader bytes index rsm works in
              let next : Rsm S = record { sm = sm; pending = pending; last_applied = index } in
              inr (
                next,
                rw (run, send_all-heard raft.hears wakes next heard) refl,
                (omega arith, works),
              ))
      ]

  -- The messages of a list with Raft's answers are those of another one.
  pub only_message :
      (hs : List (RaftAnswers × ApplyMsg (Op Req))) (m : ApplyMsg (Op Req))
      → map (λ p. p.1) hs ≡ m ∷ []
      → (raft : RaftAnswers) × (hs ≡ (raft, m) ∷ [])
  only_message [] m e = absurd (omega (arith, ap length e))
  only_message ((raft, m') ∷ []) m e =
      (raft, (let same : m' ≡ m = cc in ap (λ x. (raft, x) ∷ []) same))
  only_message (p ∷ p' ∷ hs) m e = absurd (omega (arith, ap length e))

  pub only_heard :
      (hs : List (RaftAnswers × ApplyMsg (Op Req))) {raft : RaftAnswers} {m : ApplyMsg (Op Req)}
      → hs ≡ (raft, m) ∷ []
      → AllHear hs
      → (i d : ℕ) → raft.hears i d ≡ true
  only_heard hs e h = (subst AllHear e h).0

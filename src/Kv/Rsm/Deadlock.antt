-- ===== src/Kv/Rsm/Deadlock.antt =====
-- rsm.go: a Submit whose timer fires while the reader is about to send to it.
use mathlib.Core.List.Perm
use raft_algorithm_thesis.Base.{
  ℕ, ◌≡◌, refl, ◌∙◌, ap, Bool, true, some, List, ◌∷◌, put_at, if_cases, arith, ◌&&◌, ◌==◌,
}
use raft_algorithm_thesis.Kv.Rsm.{
  StateMachine, Pending, Wake, wake_index, wake_id, find, answer_entry, delete, notify_outdated,
  notify_found, notify_pending,
}
use raft_algorithm_thesis.Kv.Rsm.Entries.{find-index}
use raft_algorithm_thesis.Kv.Rsm.Process.{
  applied, sending, Call, waiting, expired, System, holds_mu, expires, notifies, Runs, stays, turns,
}
use raft_algorithm_thesis.Kv.Rsm.Jam.{held, IsJammed, Halted, Runs-Halted}

module _ {Req Val S : Type 0} (machine : StateMachine Req Val S) where
  -- The state once the timer of call `j` has fired, for the command of its entry, and the reader has
  -- then begun to notify.
  unfoldable pub jammed :
      (j index id : ℕ)
      → Val
      → (leads : Bool) → (term : ℕ) → Bool
      → ℕ
      → System Req Val S
      → System Req Val S
  jammed j index id val leads term is_leader own s = record s {
    rsm = record s.rsm {
      pending = (notify_pending index id val leads term is_leader s.rsm.pending).0;
    };
    reader = sending (notify_pending index id val leads term is_leader s.rsm.pending).1;
    calls = put_at j (expired index own) s.calls;
  }

  -- The entry that a notification finds is the first that it sends to.
  notify-first :
      (index id : ℕ) (val : Val) (leads : Bool) (term : ℕ) (is_leader : Bool) (ps : List Pending)
      (p : Pending)
      → find index ps ≡ some p
      → (w : Wake Val) × (ws : List (Wake Val)) × ((notify_pending index id val leads term is_leader
            ps).1
          ≡ w ∷ ws)
        × (wake_index w ≡ index)
        × (wake_id w ≡ p.id)
  unfolding notify_pending notify_found
  notify-first index id val leads term is_leader ps p q = (
    answer_entry id leads val p,
    (notify_outdated index term is_leader (delete index ps)).1,
    rw q refl,
    (answered).0 ∙ find-index index ps q,
    (answered).1,
  )
    where
      answered :
          (wake_index (answer_entry id leads val p) ≡ p.index)
          × (wake_id (answer_entry id leads val p) ≡ p.id)
      answered =
          unfold answer_entry in
          if_cases (λ (w : Wake Val). (wake_index w ≡ p.index) × (wake_id w ≡ p.id))
            (leads && (p.id == id)) (λ _. (refl, refl)) (λ _. (refl, refl))

  jammed-IsJammed :
      (j index id : ℕ) (val : Val) (leads : Bool) (term : ℕ) (is_leader : Bool) (p : Pending)
      (s : System Req Val S)
      → find index s.rsm.pending ≡ some p
      → ((k : ℕ) → s.calls k ≡ waiting index p.id → k ≡ j)
      → (w : Wake Val) × (ws : List (Wake Val)) × IsJammed w ws
          (jammed j index id val leads term is_leader p.id s)
  unfolding jammed
  jammed-IsJammed j index id val leads term is_leader p s q only =
      let (w, ws, e, at, own) = notify-first index id val leads term is_leader s.rsm.pending p q in
      (
        w,
        ws,
        record {
          sending_w = ap sending e;
          alone =
              rw (at, own)
                (λ k.
                  if_cases (λ (c : Call Val). c ≡ waiting index p.id → ⊥) (j == k) (λ _ e. cc)
                    (λ ne e. let same : k ≡ j = only k e in absurd (ground arith)));
        },
      )

  -- If a Submit waits for the result of a command that the state machine has just executed, no other
  -- waits on its channel, and its timer fires before the reader takes rsm.mu to notify, then the
  -- program can reach a state from which, whatever happens, the reader sends for ever, with rsm.mu
  -- held: no command is executed, no pending entry comes or goes, and no call returns that had not
  -- returned before.
  pub time_out_deadlocks :
      (j index id : ℕ) (val : Val) (leads : Bool) (term : ℕ) (is_leader : Bool) (p : Pending)
      (s s' : System Req Val S)
      → s.reader ≡ applied index id val
      → find index s.rsm.pending ≡ some p
      → s.calls j ≡ waiting index p.id
      → ((k : ℕ) → s.calls k ≡ waiting index p.id → k ≡ j)
      → Runs machine (jammed j index id val leads term is_leader p.id s) s'
      → Runs machine s (jammed j index id val leads term is_leader p.id s)
        × (holds_mu s'.reader ≡ true)
        × Halted (jammed j index id val leads term is_leader p.id s) s'
  time_out_deadlocks j index id val leads term is_leader p s s' r q c only runs = (
    unfold jammed in
        turns (turns stays (expires j index p.id c refl))
          (notifies index id val leads term is_leader s.rsm.pending r Perm.rfl refl),
    held s'.reader _ stuck.0.sending_w,
    stuck.1,
  )
    where
      jam :
          (w : Wake Val) × (ws : List (Wake Val)) × IsJammed w ws
            (jammed j index id val leads term is_leader p.id s)
      jam = jammed-IsJammed j index id val leads term is_leader p s q only

      stuck :
          IsJammed jam.0 jam.1 s' × Halted (jammed j index id val leads term is_leader p.id s) s'
      stuck = Runs-Halted machine jam.0 jam.1 jam.2 runs

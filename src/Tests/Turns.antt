-- ===== src/Tests/Turns.antt =====
-- Submit and the reader, with a state machine that adds.
use mathlib.Core.List.Perm
use raft_algorithm_thesis.Base.{
  some, ℕ, ◌+◌, ◌≡◌, refl, true, none, [], ◌∷◌, put_at, put_at-All, IsAmong,
}
use raft_algorithm_thesis.Kv.Rsm.{
  Op, StateMachine, Pending, Rsm, done, got, find, delete, put, submit_start, submit_end,
  notify_pending, notify_found, notify_outdated, answer_entry,
}
use raft_algorithm_thesis.Kv.Rsm.Process.{
  Call, expired, System, Executed, idle, applying, applied, sending, waiting, leaving, returned,
  holds_mu, take_command, Runs, stays, turns, submits, takes, executes, notifies, sends, unlocks,
  returns, expires,
}
use raft_algorithm_thesis.Kv.Rsm.Deadlock.{time_out_deadlocks, jammed}
use raft_algorithm_thesis.Kv.Rsm.Jam.{Halted}
use raft_algorithm_thesis.Kv.Rsm.Answers.{started, value-IsExecuted}
use raft_algorithm_thesis.Kv.Rsm.Replay.{progress, apply_once, Runs-apply_once}
use raft_algorithm_thesis.Consensus.Types.{command_msg}

abbrev pub adder : StateMachine ℕ ℕ ℕ
adder = record {
  do_op = λ req s. (s + req, s + req);
  snapshot = λ s. s ∷ [];
  restore = λ bytes s. none;
}

abbrev System0 : Type 0
System0 = System ℕ ℕ ℕ

abbrev empty : Rsm ℕ
empty = record { sm = 2; pending = []; last_applied = 0 }

abbrev five : Op ℕ
five = record { id = 9; req = 5 }

abbrev entry : Pending
entry = record { index = 1; id = 9; term = 1 }

abbrev submitted : System0
submitted = record (started empty) {
  rsm = record empty { pending = entry ∷ [] };
  calls = put_at 0 (waiting 1 9) (started {Req = ℕ} {Val = ℕ} empty).calls;
}

abbrev taken : System0
taken = record submitted {
  rsm = record { sm = 2; pending = entry ∷ []; last_applied = 1 };
  reader = applying 1 five;
  received = command_msg (some five) 1 ∷ [];
}

abbrev executed : System0
executed = record taken {
  rsm = record { sm = 7; pending = entry ∷ []; last_applied = 1 };
  reader = applied 1 9 7;
  executed = record { index = 1; id = 9; val = 7 } ∷ [];
}

abbrev notified : System0
notified = record executed {
  rsm = record { sm = 7; pending = []; last_applied = 1 };
  reader = sending (done 1 9 9 7 ∷ []);
}

abbrev sent : System0
sent = record notified {
  reader = sending [];
  calls = put_at 0 (leaving 1 9 (got 7)) submitted.calls;
}

abbrev answered : System0
answered = record sent { reader = idle; calls = put_at 0 (returned 1 9 (got 7)) sent.calls }

Runs-submitted : Runs adder (started empty) submitted
unfolding submit_start put delete
Runs-submitted = turns stays (submits 0 9 1 1 (entry ∷ []) refl refl refl refl)

Runs-executed : Runs adder (started empty) executed
unfolding take_command
Runs-executed = turns (turns Runs-submitted (takes 1 five refl refl)) (executes 1 five refl refl)

Runs-answered : Runs adder (started empty) answered
unfolding notify_pending notify_found notify_outdated answer_entry find delete submit_end
Runs-answered =
    turns
      (turns
        (turns {u = sent}
          (turns {t = executed} {u = notified} Runs-executed
            (notifies 1 9 7 true 1 true (entry ∷ []) refl Perm.rfl refl))
          (sends 0 (done 1 9 9 7) [] refl refl refl))
        (unlocks refl refl))
      (returns 0 1 9 (got 7) refl refl refl)

value-IsExecuted_example :
    IsAmong {A = Executed ℕ} (record { index = 1; id = 9; val = 7 }) answered.executed
value-IsExecuted_example = value-IsExecuted adder empty {s = answered} 0 1 9 7 Runs-answered refl

-- A second Submit waits, and its timer fires too.
abbrev two_wait : System0
two_wait = record executed { calls = put_at 1 (waiting 2 8) executed.calls }

abbrev jam : System0
jam = jammed adder 0 1 9 7 true 1 true 9 two_wait

abbrev jam_later : System0
jam_later = record jam { calls = put_at 1 (expired 2 8) jam.calls }

waits_alone : (k : ℕ) → two_wait.calls k ≡ waiting 1 9 → k ≡ 0
waits_alone =
    put_at-All (λ k (c : Call ℕ). c ≡ waiting 1 9 → k ≡ 0) 1 (waiting 2 8) executed.calls (λ e. cc)
      (put_at-All (λ k (c : Call ℕ). c ≡ waiting 1 9 → k ≡ 0) 0 (waiting 1 9)
        (started {Req = ℕ} {Val = ℕ} empty).calls (λ _. refl) (λ k e. cc))

time_out_deadlocks_example :
    Runs adder two_wait jam × (holds_mu jam_later.reader ≡ true) × Halted jam jam_later
unfolding jammed find
time_out_deadlocks_example =
    time_out_deadlocks adder 0 1 9 7 true 1 true entry two_wait jam_later refl refl refl waits_alone
      (turns stays (expires 1 2 8 refl refl))

Runs-apply_once_example :
    progress adder answered ≡ apply_once adder answered.received (empty.sm, empty.last_applied)
Runs-apply_once_example = Runs-apply_once adder empty {s = answered} Runs-answered

-- ===== src/Kv/Rsm/Answers.antt =====
-- rsm.go: what Submit answers, in any interleaving of the calls and the reader.
use raft_algorithm_thesis.Base.{
  ℕ, ◌≡◌, refl, sym, subst, inl, inr, Bool, ◌&&◌, ◌==◌, ==_iff, Option, none, some, List, [], ◌∷◌,
  if_cases, Ensures, Ensures-some, All, put_at, put_at-All, IsAmong, leb, arith,
}
use raft_algorithm_thesis.Kv.Rsm.{
  Op, StateMachine, Pending, Wake, wake_index, wake_id, Rsm, Ending, got, got_other, closed,
  timed_out, find, answer_entry, delete, is_outdated, notify_outdated, notify_found, notify_pending,
  handle_snapshot,
}
use raft_algorithm_thesis.Kv.Rsm.Entries.{find-index}
use raft_algorithm_thesis.Kv.Rsm.Process.{
  Reader, idle, applied, sending, Call, calling, waiting, expired, leaving, returned, refused,
  System, Executed, ending_of, take_command, Turn, submits, refuses, expires, dumps, hears_close,
  returns, takes, skips, executes, notifies, restores, sends, unlocks, stops, Runs, stays, turns,
}

module _ {Val : Type 0} where
  -- A result that was told is one of a command executed at the index and with the id.
  abbrev EndingTold : List (Executed Val) → ℕ → ℕ → Ending Val → Type 0
  EndingTold ex index id (got val) = IsAmong (record { index = index; id = id; val = val }) ex
  EndingTold ex index id _ = Unit

  abbrev CallTold : List (Executed Val) → Call Val → Type 0
  CallTold ex (leaving index id e) = EndingTold ex index id e
  CallTold ex (returned index id e) = EndingTold ex index id e
  CallTold ex _ = Unit

  abbrev WakeTold : List (Executed Val) → Wake Val → Type 0
  WakeTold ex w = EndingTold ex (wake_index w) (wake_id w) (ending_of (wake_id w) w)

  abbrev ReaderTold : {Req : Type 0} → List (Executed Val) → Reader Req Val → Type 0
  ReaderTold ex (applied index id val) = EndingTold ex index id (got val)
  ReaderTold ex (sending wakes) = All (WakeTold ex) wakes
  ReaderTold ex _ = Unit

  EndingTold-more :
      (x : Executed Val) (ex : List (Executed Val)) (index id : ℕ) (e : Ending Val)
      → EndingTold ex index id e
      → EndingTold (x ∷ ex) index id e
  EndingTold-more x ex index id (got val) h = inr h
  EndingTold-more x ex index id got_other h = tt
  EndingTold-more x ex index id closed h = tt
  EndingTold-more x ex index id timed_out h = tt

  CallTold-more :
      (x : Executed Val) (ex : List (Executed Val)) (c : Call Val)
      → CallTold ex c
      → CallTold (x ∷ ex) c
  CallTold-more x ex calling h = tt
  CallTold-more x ex (waiting index id) h = tt
  CallTold-more x ex (expired index id) h = tt
  CallTold-more x ex (leaving index id e) h = EndingTold-more x ex index id e h
  CallTold-more x ex (returned index id e) h = EndingTold-more x ex index id e h
  CallTold-more x ex refused h = tt

  outdated-told :
      (ex : List (Executed Val)) (index term : ℕ) (is_leader : Bool) (ps : List Pending)
      → All (WakeTold ex) (notify_outdated index term is_leader ps).1
  unfolding notify_outdated
  outdated-told ex index term is_leader [] = tt
  outdated-told ex index term is_leader (p ∷ ps) =
      if_cases (λ (r : List Pending × List (Wake Val)). All (WakeTold ex) r.1)
        (is_outdated index term is_leader p) (λ _. (tt, outdated-told ex index term is_leader ps))
        (λ _. outdated-told ex index term is_leader ps)

  answer-told :
      (ex : List (Executed Val)) (index id : ℕ) (val : Val) (is_leader : Bool) (p : Pending)
      → p.index ≡ index
      → IsAmong (record { index = index; id = id; val = val }) ex
      → WakeTold ex (answer_entry id is_leader val p)
  unfolding answer_entry
  answer-told ex index id val is_leader p e h =
      if_cases (WakeTold ex) (is_leader && (p.id == id))
        (λ mine. let same : p.id ≡ id = ground arith in rw (e, same, (==_iff id id).1 refl) h)
        (λ _. tt)

  notify-told :
      (ex : List (Executed Val)) (index id : ℕ) (val : Val) (leads : Bool) (term : ℕ)
      (is_leader : Bool) (ps : List Pending) (found : Option Pending)
      → IsAmong (record { index = index; id = id; val = val }) ex
      → find index ps ≡ found
      → All (WakeTold ex) (notify_found index id val leads term is_leader ps found).1
  unfolding notify_found
  notify-told ex index id val leads term is_leader ps none h q =
      outdated-told ex index term is_leader ps
  notify-told ex index id val leads term is_leader ps (some p) h q = (
    answer-told ex index id val leads p (find-index index ps q) h,
    outdated-told ex index term is_leader (delete index ps),
  )

module _ {Req Val S : Type 0} where
  pub record IsHonest (s : System Req Val S) : Type 0 where
    pub reader : ReaderTold s.executed s.reader
    pub calls : (j : ℕ) → CallTold s.executed (s.calls j)

  -- The program at its start.
  abbrev pub started : Rsm S → System Req Val S
  started rsm = record {
    rsm = rsm;
    reader = idle;
    calls = λ j. calling;
    shut = [];
    executed = [];
    received = [];
  }

  take-told :
      (ex : List (Executed Val)) (index : ℕ) (op : Op Req) (rsm : Rsm S)
      → ReaderTold ex (take_command {Val = Val} index op rsm).1
  unfolding take_command
  take-told ex index op rsm =
      if_cases (λ (r : Rsm S × Reader Req Val). ReaderTold ex r.1) (leb index rsm.last_applied)
        (λ _. tt) (λ _. tt)

  restore-told :
      (machine : StateMachine Req Val S) (ex : List (Executed Val)) (term : ℕ) (is_leader : Bool)
      (bytes : List ℕ) (index : ℕ) (rsm : Rsm S) {rsm' : Rsm S} {wakes : List (Wake Val)}
      → handle_snapshot machine term is_leader bytes index rsm ≡ some (rsm', wakes)
      → All (WakeTold ex) wakes
  restore-told machine ex term is_leader bytes index rsm run =
      Ensures-some Told _ (told (machine.restore bytes rsm.sm) refl) run
    where
      Told : Rsm S × List (Wake Val) → Type 0
      Told r = All (WakeTold ex) r.1

      told :
          (o : Option S)
          → machine.restore bytes rsm.sm ≡ o
          → Ensures Told (handle_snapshot machine term is_leader bytes index rsm)
      told none q = unfold handle_snapshot in rw (q, Ensures) tt
      told (some sm) q =
          unfold handle_snapshot in
          rw (q, Ensures) (outdated-told ex index term is_leader rsm.pending)

  moved_call :
      (s : System Req Val S) (j : ℕ) (c : Call Val)
      → IsHonest s
      → CallTold s.executed c
      → (k : ℕ) → CallTold s.executed (put_at j c s.calls k)
  moved_call s j c h t =
      put_at-All (λ k (c : Call Val). CallTold s.executed c) j c s.calls t h.calls

module _ {Req Val S : Type 0} (machine : StateMachine Req Val S) where
  Turn-IsHonest : {s s' : System Req Val S} → Turn machine s s' → IsHonest s → IsHonest s'
  Turn-IsHonest {s} (submits j id index term pending c free run eq) h =
      subst IsHonest (sym eq) (record { reader = h.reader; calls = moved_call s j _ h tt })
  Turn-IsHonest {s} (refuses j id c free run eq) h =
      subst IsHonest (sym eq) (record { reader = h.reader; calls = moved_call s j _ h tt })
  Turn-IsHonest {s} (expires j index id c eq) h =
      subst IsHonest (sym eq) (record { reader = h.reader; calls = moved_call s j _ h tt })
  Turn-IsHonest {s} (dumps j index id c free eq) h =
      subst IsHonest (sym eq) (record { reader = h.reader; calls = moved_call s j _ h tt })
  Turn-IsHonest {s} (hears_close j index id term c shut eq) h =
      subst IsHonest (sym eq) (record { reader = h.reader; calls = moved_call s j _ h tt })
  Turn-IsHonest {s} (returns j index id e c free eq) h = subst IsHonest (sym eq) (record {
    reader = h.reader;
    calls = moved_call s j _ h (subst (CallTold s.executed) c (h.calls j));
  })
  Turn-IsHonest {s} (takes index op r eq) h =
      subst IsHonest (sym eq)
        (record { reader = take-told s.executed index op s.rsm; calls = h.calls })
  Turn-IsHonest {s} (skips index r eq) h =
      subst IsHonest (sym eq)
        (record { reader = subst (ReaderTold s.executed) (sym r) tt; calls = h.calls })
  Turn-IsHonest {s} (executes index op r eq) h = subst IsHonest (sym eq) (record {
    reader = inl refl;
    calls = λ j. CallTold-more _ s.executed (s.calls j) (h.calls j);
  })
  Turn-IsHonest {s} (notifies index id val leads term is_leader ps r perm eq) h =
      subst IsHonest (sym eq) (record {
        reader =
            unfold notify_pending in
            notify-told s.executed index id val leads term is_leader ps _
              (subst (ReaderTold s.executed) r h.reader) refl;
        calls = h.calls;
      })
  Turn-IsHonest {s} (restores term is_leader bytes msg_term index ps rsm wakes r perm run eq) h =
      subst IsHonest (sym eq) (record {
        reader =
            restore-told machine s.executed term is_leader bytes index
              (record s.rsm { pending = ps }) run;
        calls = h.calls;
      })
  Turn-IsHonest {s} (sends j w wakes r c eq) h =
      let told = subst (ReaderTold s.executed) r h.reader in
      subst IsHonest (sym eq) (record { reader = told.1; calls = moved_call s j _ h told.0 })
  Turn-IsHonest {s} (unlocks r eq) h =
      subst IsHonest (sym eq) (record { reader = tt; calls = h.calls })
  Turn-IsHonest {s} (stops r eq) h =
      subst IsHonest (sym eq) (record { reader = tt; calls = h.calls })

  Runs-IsHonest : {s s' : System Req Val S} → Runs machine s s' → IsHonest s → IsHonest s'
  Runs-IsHonest stays h = h
  Runs-IsHonest (turns r t) h = Turn-IsHonest t (Runs-IsHonest r h)

  -- In any interleaving of the calls of Submit and the reader, with time-outs and whatever Raft
  -- sends and answers, a Submit that returns a value has had its command executed at the index that
  -- Start gave it, with its id, and the value is what the state machine returned for it.
  pub value-IsExecuted :
      (rsm : Rsm S) {s : System Req Val S} (j index id : ℕ) (val : Val)
      → Runs machine (started rsm) s
      → s.calls j ≡ returned index id (got val)
      → IsAmong (record { index = index; id = id; val = val }) s.executed
  value-IsExecuted rsm {s} j index id val runs c =
      subst (CallTold s.executed) c
        ((Runs-IsHonest runs (record { reader = tt; calls = λ j. tt })).calls j)

-- ===== src/Kv/Rsm/Applied.antt =====
-- rsm.go and raft.go: a replica, the applier of a Raft node with the reader behind it.
pub mod Restoring
pub mod Executing
pub mod Rounds
use raft_algorithm_thesis.Base.{
  ℕ, zero, suc, ◌+◌, ◌-◌, ◌≤◌, ◌<◌, ◌≡◌, refl, sym, ◌∙◌, ap, subst, Bool, true, if◌then◌else◌,
  Option, none, some, List, [], ◌∷◌, map, arith, ◌>>=◌, leb, lt→leb-false, inl, inr, ◌⊎◌, get_elem?,
  length, Returns, Returns-some, Ensures, Ensures-some, Ensures->>=,
}
use raft_algorithm_thesis.Consensus.Types.{Entry, Raft, ApplyMsg, command_msg, snapshot_msg}
use raft_algorithm_thesis.Consensus.Log.{get_log}
use raft_algorithm_thesis.Consensus.Applier.{apply_round}
use raft_algorithm_thesis.Consensus.Applier.Order.{Applies, AreCommands, apply_round-Applies}
use raft_algorithm_thesis.Consensus.Invariant.{IsWellFormed}
use raft_algorithm_thesis.Kv.Rsm.{
  Op, StateMachine, Wake, Rsm, wake_index, wake_id, handle_command, handle_snapshot,
}

-- What Raft answers while a message is handled, and which Submits, by the index and the id of their
-- entries, receive what is sent to them then. `leads` is the answer to notifyPending, and the term
-- and `is_leader` the one to notifyOutdated.
pub record RaftAnswers : Type 0 where
  pub leads : Bool
  pub term : ℕ
  pub is_leader : Bool
  pub persist_bytes : ℕ
  pub hears : ℕ → ℕ → Bool

-- The sends, one after another, on unbuffered channels: the reader goes on if all are received.
unfoldable pub send_all {ℓ} :
    {Val : Type 0} {A : Type ℓ} → (ℕ → ℕ → Bool) → List (Wake Val) → A → Option A
send_all hears [] next = some next
send_all hears (w ∷ wakes) next =
    let rest = send_all hears wakes next in if hears (wake_index w) (wake_id w) then rest else none

-- Every Submit receives while the messages are handled.
abbrev pub AllHear : {M : Type 0} → List (RaftAnswers × M) → Type 0
AllHear [] = Unit
AllHear ((raft, m) ∷ hs) = ((index id : ℕ) → raft.hears index id ≡ true) × AllHear hs

pub send_all-heard :
    {Val A : Type 0} (hears : ℕ → ℕ → Bool) (wakes : List (Wake Val)) (next : A)
    → ((index id : ℕ) → hears index id ≡ true)
    → send_all hears wakes next ≡ some next
unfolding send_all
send_all-heard hears [] next h = refl
send_all-heard hears (w ∷ wakes) next h =
    rw (h (wake_index w) (wake_id w)) (send_all-heard hears wakes next h)

module _ {Req Val S : Type 0} (machine : StateMachine Req Val S) (max_raft_state : Option ℕ) where
  -- One round of `reader`; a command that is no Op is passed over. `none` where the reader does not
  -- get to its next message: Restore fails, or nobody receives what it sends, and it blocks.
  unfoldable pub read_msg : RaftAnswers → ApplyMsg (Op Req) → Rsm S → Option (Rsm S)
  read_msg raft (command_msg none index) rsm = some rsm
  read_msg raft (command_msg (some op) index) rsm =
      let after =
        handle_command machine max_raft_state raft.persist_bytes raft.leads raft.term raft.is_leader
          index op rsm in
      send_all raft.hears after.1.wakes after.0
  read_msg raft (snapshot_msg bytes term index) rsm = do
    (rsm', wakes) ← handle_snapshot machine raft.term raft.is_leader bytes index rsm
    send_all raft.hears wakes rsm'

  -- `reader`, on the messages that come.
  unfoldable pub read_all : List (RaftAnswers × ApplyMsg (Op Req)) → Rsm S → Option (Rsm S)
  read_all [] rsm = some rsm
  read_all ((raft, msg) ∷ rest) rsm = do rsm' ← read_msg raft msg rsm; read_all rest rsm'

  -- The state machine on the commands of a log, one index after another.
  abbrev pub execute_entry : Option (Entry (Op Req)) → S → S
  execute_entry none s = s
  execute_entry (some e) s = elim e.command [ none ↦ s | some op ↦ (machine.do_op op.req s).0 ]

  unfoldable pub execute_log : Raft (Op Req) → (count index : ℕ) → S → S
  execute_log rf zero index s = s
  execute_log rf (suc n) index s = execute_log rf n (suc index) (execute_entry (get_log rf index) s)

  -- The messages are the commands of `n` indices from `lo` on.
  abbrev pub Commands : Raft (Op Req) → ℕ → ℕ → List (ApplyMsg (Op Req)) → Type 0
  Commands rf n lo ms =
      (length ms ≡ n)
      × ((k : ℕ)
          → k < n
          → (e : Entry (Op Req)) × (get_log rf (lo + k) ≡ some e)
            × (get_elem? ms k ≡ some (command_msg e.command (lo + k))))

  abbrev pub Executes : Raft (Op Req) → ℕ → ℕ → Rsm S → Rsm S → Type 0
  Executes rf n lo rsm rsm' = (rsm'.last_applied < lo + n) × (rsm'.sm ≡ execute_log rf n lo rsm.sm)

  read_command :
      (raft : RaftAnswers) (command : Option (Op Req)) (index term : ℕ) (entry_index : ℕ)
      (rsm : Rsm S)
      → ((index id : ℕ) → raft.hears index id ≡ true)
      → rsm.last_applied < index
      → Returns
          (λ (rsm' : Rsm S).
            (rsm'.last_applied < suc index)
            × (rsm'.sm
                ≡ execute_entry
                    (some (record { index = entry_index; term = term; command = command }))
                    rsm.sm))
          (read_msg raft (command_msg command index) rsm)
  unfolding read_msg handle_command
  read_command raft none index term entry_index rsm heard lt = (rsm, refl, (omega arith, refl))
  read_command raft (some op) index term entry_index rsm heard lt = (
    _,
    send_all-heard raft.hears _ _ heard,
    rw (lt→leb-false index rsm.last_applied lt) (omega arith, refl),
  )

  tail-Commands :
      (rf : Raft (Op Req)) (n lo : ℕ) (m : ApplyMsg (Op Req)) (ms : List (ApplyMsg (Op Req)))
      → Commands rf (suc n) lo (m ∷ ms)
      → Commands rf n (suc lo) ms
  tail-Commands rf n lo m ms (len, at) = (
    omega (arith, len),
    λ k lt.
        subst
          (λ i.
            (e : Entry (Op Req)) × (get_log rf i ≡ some e)
            × (get_elem? ms k ≡ some (command_msg e.command i)))
          (omega arith) (at (suc k) (omega arith)),
  )

  head-Commands :
      (rf : Raft (Op Req)) (n lo : ℕ) (m : ApplyMsg (Op Req)) (ms : List (ApplyMsg (Op Req)))
      → Commands rf (suc n) lo (m ∷ ms)
      → (e : Entry (Op Req)) × (get_log rf lo ≡ some e) × (m ≡ command_msg e.command lo)
  head-Commands rf n lo m ms (len, at) =
      subst (λ i. (e : Entry (Op Req)) × (get_log rf i ≡ some e) × (m ≡ command_msg e.command i))
        (omega arith)
        (let (e, q, h) = at 0 (omega arith) in
          let same : some m ≡ some (command_msg e.command (lo + 0)) = h in (e, q, cc))

  -- The reader on a run of commands.
  pub read_all-Executes :
      (hs : List (RaftAnswers × ApplyMsg (Op Req))) (rf : Raft (Op Req)) (n lo : ℕ) (rsm : Rsm S)
      → AllHear hs
      → rsm.last_applied < lo
      → Commands rf n lo (map (λ p. p.1) hs)
      → Returns (Executes rf n lo rsm) (read_all hs rsm)
  unfolding read_all execute_log
  read_all-Executes [] rf zero lo rsm heard lt h = (rsm, refl, (omega arith, refl))
  read_all-Executes [] rf (suc n) lo rsm heard lt h = absurd (omega (arith, h.0))
  read_all-Executes (p ∷ hs) rf zero lo rsm heard lt h = absurd (omega (arith, h.0))
  read_all-Executes ((raft, m) ∷ hs) rf (suc n) lo rsm heard lt h =
      let (e, q, same) = head-Commands rf n lo m (map (λ p. p.1) hs) h in
      let (mid, run, (below, sm)) = read_command raft e.command lo e.term e.index rsm heard.0 lt in
      let (end, run', (below', sm')) =
        read_all-Executes hs rf n (suc lo) mid heard.1 below
          (tail-Commands rf n lo m (map (λ p. p.1) hs) h) in
      (
        end,
        rw (same, run) run',
        (
          omega (arith, below'),
          sm' ∙ ap (execute_log rf n (suc lo)) (sm ∙ ap (λ o. execute_entry o rsm.sm) (sym q)),
        ),
      )

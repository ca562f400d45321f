-- ===== src/Consensus/Storage.antt =====
-- kvraft/internal/raft/storage.go and `Make` of raft.go: what a node saves, and how it starts.
--
-- A gob stream is the list of the values encoded into it, read back in the same order. A Save or a
-- decoding that fails ends the process (`logger.Fatal`): here Save succeeds, and a stream that
-- cannot be decoded is `none`, as is one with a negative number where a term or an index belongs.
pub mod Frames
pub mod Compact
pub mod Install
pub mod Receive
use raft_algorithm_thesis.Base.{
  ℕ, Bool, false, Option, none, some, List, [], ◌∷◌, ltb, leb, ◌==◌, ◌||◌, if◌then◌else◌, ◌>>=◌,
  replicate,
}
use raft_algorithm_thesis.Consensus.Types.{
  Entry, GobValue, Disk, Raft, NodeState, InstallSnapshotArgs, InstallSnapshotReply,
}
use raft_algorithm_thesis.Consensus.Log.{
  zero_entry, slice_from, get_physical_index, get_first_log, get_len, get_log,
}

-- The five fields that encodeState writes.
pub record Saved (C : Type 0) : Type 0 where
  pub current_term : ℕ
  pub voted_for : Option ℕ
  pub logs : List (Entry C)
  pub last_included_index : ℕ
  pub last_included_term : ℕ

module _ {C : Type 0} where
  unfoldable pub encode_state : Raft C → List (GobValue C)
  encode_state rf =
      GobValue.int (some rf.current_term)
      ∷ GobValue.int rf.voted_for
      ∷ GobValue.entries rf.logs
      ∷ GobValue.int (some rf.last_included_index)
      ∷ GobValue.int (some rf.last_included_term)
      ∷ []

  -- `Decode(&x)` for an int that may be -1, one that may not, and a slice of entries.
  unfoldable pub decode_int : List (GobValue C) → Option (Option ℕ × List (GobValue C))
  decode_int [] = none
  decode_int (GobValue.int n ∷ rest) = some (n, rest)
  decode_int (GobValue.entries es ∷ rest) = none

  unfoldable pub decode_nat : List (GobValue C) → Option (ℕ × List (GobValue C))
  decode_nat [] = none
  decode_nat (GobValue.int none ∷ rest) = none
  decode_nat (GobValue.int (some n) ∷ rest) = some (n, rest)
  decode_nat (GobValue.entries es ∷ rest) = none

  unfoldable pub decode_entries : List (GobValue C) → Option (List (Entry C) × List (GobValue C))
  decode_entries [] = none
  decode_entries (GobValue.int n ∷ rest) = none
  decode_entries (GobValue.entries es ∷ rest) = some (es, rest)

  unfoldable pub decode_state : List (GobValue C) → Option (Saved C)
  unfolding decode_int decode_nat decode_entries
  decode_state stream = do
    (current_term, s₁) ← decode_nat stream
    (voted_for, s₂) ← decode_int s₁
    (logs, s₃) ← decode_entries s₂
    (last_included_index, s₄) ← decode_nat s₃
    (last_included_term, s₅) ← decode_nat s₄
    some (record {
      current_term = current_term;
      voted_for = voted_for;
      logs = logs;
      last_included_index = last_included_index;
      last_included_term = last_included_term;
    })

  -- readPersist once the stream is decoded.
  unfoldable pub restore : Saved C → Raft C → Raft C
  restore s rf = record rf {
    current_term = s.current_term;
    voted_for = s.voted_for;
    logs = s.logs;
    last_included_index = s.last_included_index;
    last_included_term = s.last_included_term;
    commit_index =
        if ltb rf.commit_index s.last_included_index
        then s.last_included_index
        else rf.commit_index;
    last_applied =
        if ltb rf.last_applied s.last_included_index
        then s.last_included_index
        else rf.last_applied;
  }

  unfoldable pub read_persist : List (GobValue C) → Raft C → Option (Raft C)
  read_persist [] rf = some rf
  read_persist (v ∷ stream) rf = do s ← decode_state (v ∷ stream); some (restore s rf)

  unfoldable pub fresh : ℕ → ℕ → Disk C → Raft C
  fresh peers me persister = record {
    peers = peers;
    persister = persister;
    me = me;
    dead = false;
    state = NodeState.follower;
    current_term = 0;
    voted_for = none;
    current_leader = none;
    logs = zero_entry ∷ [];
    commit_index = 0;
    last_applied = 0;
    next_index = replicate peers 0;
    match_index = replicate peers 0;
    last_included_index = 0;
    last_included_term = 0;
  }

  -- `Make`
  unfoldable pub make : ℕ → ℕ → Disk C → Option (Raft C)
  make peers me persister = read_persist persister.raft_state (fresh peers me persister)

  -- `persister.Save(rf.encodeState(), snapshot)`
  unfoldable pub save : List ℕ → Raft C → Raft C
  save snapshot rf = record rf {
    persister = record { raft_state = encode_state rf; snapshot = snapshot };
  }

  unfoldable pub persist : Raft C → Raft C
  unfolding save
  persist rf = if rf.dead then rf else save rf.persister.snapshot rf

  -- `Snapshot`
  unfoldable pub snapshot : ℕ → List ℕ → Raft C → Option (Raft C)
  snapshot index bytes rf =
      if leb index rf.last_included_index || ltb rf.commit_index index then some rf else do
        p ← get_physical_index rf index
        rest ← slice_from rf.logs p
        let cut = record rf { logs = rest; last_included_index = index }
        first ← get_first_log cut
        some (save bytes (record cut { last_included_term = first.term }))

  -- The first test of truncateLogWithSnapshot; `&&` reads the log only below its length.
  unfoldable pub keeps_suffix : ℕ → ℕ → Raft C → Option Bool
  keeps_suffix index term rf =
      if ltb index (get_len rf)
      then (do e ← get_log rf index; some (e.term == term))
      else some false

  unfoldable pub truncate_log_with_snapshot : ℕ → ℕ → Raft C → Option (Raft C)
  truncate_log_with_snapshot index term rf = do
    keep ← keeps_suffix index term rf
    if keep
        then (do
          p ← get_physical_index rf index
          rest ← slice_from rf.logs p
          some (record rf { logs = rest }))
        else some (record rf { logs = record { index = index; term = term; command = none } ∷ [] })

  unfoldable pub adopt_snapshot_term : InstallSnapshotArgs → Raft C → Raft C
  adopt_snapshot_term args rf =
      if ltb rf.current_term args.term
      then persist (record rf { current_term = args.term; voted_for = none })
      else rf

  -- The rest of `InstallSnapshot` for a snapshot that is newer than the node's own.
  unfoldable pub install_newer : InstallSnapshotArgs → Raft C → Option (Raft C)
  install_newer args rf = do
    cut ← truncate_log_with_snapshot args.last_included_index args.last_included_term rf
    some (
        save args.bytes (record cut {
          last_included_index = args.last_included_index;
          last_included_term = args.last_included_term;
          commit_index =
              if ltb cut.commit_index args.last_included_index
              then args.last_included_index
              else cut.commit_index;
        }))

  -- `InstallSnapshot`
  unfoldable pub install_snapshot :
      InstallSnapshotArgs → Raft C → Option (Raft C × InstallSnapshotReply)
  install_snapshot args rf =
      let reply : InstallSnapshotReply = record { term = rf.current_term } in
      if ltb args.term rf.current_term then some (rf, reply) else do
        let followed = record (adopt_snapshot_term args rf) {
          current_leader = some args.leader_id;
          state = NodeState.follower;
        }
        if leb args.last_included_index followed.last_included_index
            then some (followed, reply)
            else (do installed ← install_newer args followed; some (installed, reply))

-- ===== src/Consensus/Node/Booting.antt =====
-- storage.go and raft.go: a start from the disk beside the invariant.
use raft_algorithm_thesis.Base.{
  ℕ, ◌<◌, ◌≡◌, refl, sym, ◌∙◌, ap, subst, some, List, [], ◌∷◌, arith, Ensures, Ensures-some,
  Ensures->>=, length, length-replicate,
}
use raft_algorithm_thesis.Consensus.Types.{Disk, GobValue, Raft}
use raft_algorithm_thesis.Consensus.Matching.{IsContiguous}
use raft_algorithm_thesis.Consensus.Invariant.{IsWellFormed}
use raft_algorithm_thesis.Consensus.Storage.{
  Saved, make, read_persist, decode_state, restore, fresh,
}
use raft_algorithm_thesis.Consensus.Node.Durable.{saved, IsLive}
use raft_algorithm_thesis.Consensus.Node.Snapshots.{restart-Keeps}

module _ {C : Type 0} where
  -- What a start sets beside the saved fields.
  record IsBooted (peers me : ℕ) (rf : Raft C) : Type 0 where
    peers_eq : rf.peers ≡ peers
    me_eq : rf.me ≡ me
    commit : rf.commit_index ≡ rf.last_included_index
    applied : rf.last_applied ≡ rf.last_included_index
    nexts : length rf.next_index ≡ peers
    matches : length rf.match_index ≡ peers

  read-IsBooted :
      (peers me : ℕ) (disk : Disk C) (stream : List (GobValue C))
      → Ensures (IsBooted peers me) (read_persist stream (fresh peers me disk))
  unfolding read_persist fresh restore
  read-IsBooted peers me disk [] = record {
    peers_eq = refl;
    me_eq = refl;
    commit = refl;
    applied = refl;
    nexts = length-replicate peers 0;
    matches = length-replicate peers 0;
  }
  read-IsBooted peers me disk (v ∷ stream) =
      Ensures->>= (IsBooted peers me) (decode_state (v ∷ stream)) _ (λ s _. record {
        peers_eq = refl;
        me_eq = refl;
        commit = ground arith;
        applied = ground arith;
        nexts = length-replicate peers 0;
        matches = length-replicate peers 0;
      })

  booted-IsWellFormed :
      (rf rf' : Raft C)
      → IsWellFormed rf
      → IsBooted rf.peers rf.me rf'
      → saved rf' ≡ saved rf
      → IsWellFormed rf'
  booted-IsWellFormed rf rf' wf b e = record {
    contiguous =
        subst (λ (s : Saved C). IsContiguous s.last_included_index s.logs) (sym e) wf.contiguous;
    nonempty = some_entry;
    anchored = omega (arith, b.commit);
    committed = omega (arith, b.commit, some_entry);
    applied = omega (arith, b.commit, b.applied);
    member = omega (arith, b.peers_eq, b.me_eq, wf.member);
    nexts = b.nexts ∙ sym b.peers_eq;
    matches = b.matches ∙ sym b.peers_eq;
  }
    where
      some_entry : 0 < length rf'.logs
      some_entry = omega (arith, wf.nonempty, ap (λ (s : Saved C). length s.logs) e)

  pub restart-IsWellFormed :
      (rf : Raft C)
      → IsLive rf
      → IsWellFormed rf
      → Ensures IsWellFormed (make rf.peers rf.me rf.persister)
  unfolding make
  restart-IsWellFormed rf l wf =
      let (rf', run, e, k) = restart-Keeps rf l in
      subst (Ensures IsWellFormed) (sym run) (booted-IsWellFormed rf rf' wf (booted rf' run) e)
    where
      booted :
          (rf' : Raft C) → make rf.peers rf.me rf.persister ≡ some rf' → IsBooted rf.peers rf.me rf'
      booted rf' run =
          Ensures-some (IsBooted rf.peers rf.me) _
            (read-IsBooted rf.peers rf.me rf.persister rf.persister.raft_state) run

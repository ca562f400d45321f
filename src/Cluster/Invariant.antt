-- ===== src/Cluster/Invariant.antt =====
-- ticker.go and log_replication.go: what holds of a cluster at all times.
use raft_algorithm_thesis.Base.{
  ℕ, ◌≤◌, ◌≡◌, refl, sym, ap, true, Bool, ◌&&◌, Option, none, some, List, arith, is_id, ==_iff,
  put_at-All, IsAmong,
}
use raft_algorithm_thesis.Consensus.Types.{Raft, NodeState}
use raft_algorithm_thesis.Consensus.Node.Durable.{IsLive}
use raft_algorithm_thesis.Cluster.{Poll, Answer, Cluster, cast, set_poll}
use raft_algorithm_thesis.Cluster.Count.{count, IsMajority, Implies, count_mono}

abbrev pub Votes : Type 0
Votes = ℕ → ℕ → Option ℕ

-- The voters of a candidate in a term, and those of them that its poll has counted.
abbrev pub voters : Votes → ℕ → ℕ → ℕ → Bool
voters votes term candidate j = is_id (votes j term) candidate

abbrev pub counted_voters : Votes → ℕ → ℕ → Poll → ℕ → Bool
counted_voters votes term candidate poll j = poll.counted j && is_id (votes j term) candidate

-- Later votes: none is taken back or changed.
abbrev pub Extends : Votes → Votes → Type 0
Extends votes votes' =
    (j term candidate : ℕ) → votes j term ≡ some candidate → votes' j term ≡ some candidate

abbrev pub PollsCounted : ℕ → Votes → (ℕ → ℕ → Poll) → Type 0
PollsCounted n votes polls =
    (i term : ℕ) → (polls i term).granted ≤ count n (counted_voters votes term i (polls i term))

abbrev pub AnswersRecorded : Votes → List Answer → Type 0
AnswersRecorded votes answers =
    (a : Answer)
    → IsAmong a answers
    → a.reply.vote_granted ≡ true
    → votes a.voter a.args.term ≡ some a.args.candidate_id

module _ {C : Type 0} where
  -- A node in its place, with its votes.
  pub record IsPlaced (n i : ℕ) (votes : ℕ → Option ℕ) (rf : Raft C) : Type 0 where
    pub live : IsLive rf
    pub peers : rf.peers ≡ n
    pub me : rf.me ≡ i
    pub past :
        (term candidate : ℕ)
        → votes term ≡ some candidate
        → (term ≤ rf.current_term) × (term ≡ rf.current_term → rf.voted_for ≡ some candidate)

  abbrev pub LeaderElected : ℕ → Votes → ℕ → Raft C → Type 0
  LeaderElected n votes i rf =
      rf.state ≡ NodeState.leader → IsMajority n (voters votes rf.current_term i)

  pub record IsSound (n : ℕ) (c : Cluster C) : Type 0 where
    pub placed : (i : ℕ) → IsPlaced n i (c.votes i) (c.nodes i)
    pub recorded : AnswersRecorded c.votes c.answers
    pub counted : PollsCounted n c.votes c.polls
    pub elected : (i : ℕ) → LeaderElected n c.votes i (c.nodes i)

pub is_id-some : (o : Option ℕ) (k : ℕ) → is_id o k ≡ true → o ≡ some k
is_id-some none k h = cc
is_id-some (some j) k h = ap some ((==_iff j k).0 h)

pub some-is_id : (o : Option ℕ) (k : ℕ) → o ≡ some k → is_id o k ≡ true
some-is_id o k h = rw h ((==_iff k k).1 refl)

pub Extends-refl : (votes : Votes) → Extends votes votes
Extends-refl votes j term candidate h = h

-- A vote that the voter had not given to another candidate.
pub cast-Extends :
    (i term candidate : ℕ) (votes : Votes)
    → ((other : ℕ) → votes i term ≡ some other → other ≡ candidate)
    → Extends votes (cast i term candidate votes)
cast-Extends i term candidate votes h =
    put_at-All (λ j row. (t c : ℕ) → votes j t ≡ some c → row t ≡ some c) i _ votes
      (put_at-All (λ t v. (c : ℕ) → votes i t ≡ some c → v ≡ some c) term (some candidate) (votes i)
        (λ c e. ap some (sym (h c e))) (λ t c e. e))
      (λ j t c e. e)

voters-Implies :
    {votes votes' : Votes} (term candidate : ℕ)
    → Extends votes votes'
    → Implies (voters votes term candidate) (voters votes' term candidate)
voters-Implies {votes} {votes'} term candidate ext j h =
    some-is_id (votes' j term) candidate (ext j term candidate (is_id-some _ candidate h))

pub later-IsMajority :
    {votes votes' : Votes} (n term candidate : ℕ)
    → Extends votes votes'
    → IsMajority n (voters votes term candidate)
    → IsMajority n (voters votes' term candidate)
later-IsMajority n term candidate ext m =
    omega (arith, m, count_mono n _ _ (voters-Implies term candidate ext))

both-Implies : (p q q' : ℕ → Bool) → Implies q q' → Implies (λ j. p j && q j) (λ j. p j && q' j)
both-Implies p q q' h j e = ground (arith, h j)

pub later_count :
    {votes votes' : Votes} (n term candidate : ℕ) (poll : Poll)
    → Extends votes votes'
    → poll.granted ≤ count n (counted_voters votes term candidate poll)
    → poll.granted ≤ count n (counted_voters votes' term candidate poll)
later_count n term candidate poll ext le = omega (
  arith,
  le,
  count_mono n _ _ (both-Implies poll.counted _ _ (voters-Implies term candidate ext)),
)

pub later_polls :
    {votes votes' : Votes} (n : ℕ) (polls : ℕ → ℕ → Poll)
    → Extends votes votes'
    → PollsCounted n votes polls
    → PollsCounted n votes' polls
later_polls n polls ext h i term = later_count n term i (polls i term) ext (h i term)

pub set_poll-PollsCounted :
    (n : ℕ) (votes : Votes) (candidate term : ℕ) (poll : Poll) (polls : ℕ → ℕ → Poll)
    → poll.granted ≤ count n (counted_voters votes term candidate poll)
    → PollsCounted n votes polls
    → PollsCounted n votes (set_poll candidate term poll polls)
set_poll-PollsCounted n votes candidate term poll polls h k =
    put_at-All (λ i row. (t : ℕ) → (row t).granted ≤ count n (counted_voters votes t i (row t)))
      candidate _ polls
      (put_at-All (λ t p. p.granted ≤ count n (counted_voters votes t candidate p)) term poll
        (polls candidate) h (k candidate))
      k

pub cast-here :
    (i term candidate : ℕ) (votes : Votes) → cast i term candidate votes i term ≡ some candidate
cast-here i term candidate votes = rw ((==_iff i i).1 refl, (==_iff term term).1 refl) refl

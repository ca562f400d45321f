-- ===== src/Cluster.antt =====
-- A cluster: the nodes of kvraft/internal/raft with the requests and replies between them, and the
-- elections that ticker.go counts. The network delivers any request to any node, at any time and
-- any number of times, or never; nodes restart whenever they like.
pub mod Count
pub mod Promotion
pub mod Standing
pub mod Local
pub mod Steady
pub mod Stopping
pub mod Entries
pub mod AppendOnly
pub mod Polls
pub mod Granting
pub mod Invariant
pub mod Steps
pub mod Replies
pub mod Counting
pub mod Safety
use raft_algorithm_thesis.Base.{
  ℕ, ◌<◌, ◌≡◌, Bool, true, false, Option, none, some, List, [], ◌∷◌, ◌==◌, ◌&&◌, ◌⊎◌, if◌then◌else◌,
  put_at, IsAmong,
}
use raft_algorithm_thesis.Consensus.Types.{Raft, RequestVoteArgs, RequestVoteReply}
use raft_algorithm_thesis.Consensus.Storage.{fresh}
use raft_algorithm_thesis.Consensus.Vote.{request_vote}
use raft_algorithm_thesis.Consensus.Election.{election_timeout, request_vote_from_peer}
use raft_algorithm_thesis.Consensus.Node.{Event, vote_request, election_timer, vote_reply, step}

-- What the goroutines of one call of startElection share: `grantedVotes`, and which of them have
-- had their reply.
pub record Poll : Type 0 where
  pub granted : ℕ
  pub counted : ℕ → Bool

-- A node's answer to a request for its vote.
pub record Answer : Type 0 where
  pub voter : ℕ
  pub args : RequestVoteArgs
  pub reply : RequestVoteReply

-- The nodes, the votes given so far, by voter and term, the polls, by candidate and term, and the
-- answers on their way.
pub record Cluster (C : Type 0) : Type 0 where
  pub nodes : ℕ → Raft C
  pub votes : ℕ → ℕ → Option ℕ
  pub polls : ℕ → ℕ → Poll
  pub answers : List Answer

abbrev pub cast : ℕ → ℕ → ℕ → (ℕ → ℕ → Option ℕ) → ℕ → ℕ → Option ℕ
cast voter term candidate votes = put_at voter (put_at term (some candidate) (votes voter)) votes

abbrev pub cast_if : Bool → ℕ → ℕ → ℕ → (ℕ → ℕ → Option ℕ) → ℕ → ℕ → Option ℕ
cast_if granted voter term candidate votes =
    if granted then cast voter term candidate votes else votes

abbrev pub set_poll : ℕ → ℕ → Poll → (ℕ → ℕ → Poll) → ℕ → ℕ → Poll
set_poll candidate term poll polls = put_at candidate (put_at term poll (polls candidate)) polls

-- startElection counts the candidate's own vote, and starts a goroutine for each of the others.
abbrev pub new_poll : ℕ → Poll
new_poll candidate = record { granted = 1; counted = λ j. candidate == j }

-- `*grantedVotes` after a goroutine's reply.
abbrev pub counted_poll : ℕ → ℕ → Poll → Poll
counted_poll voter granted poll = record {
  granted = granted;
  counted = put_at voter true poll.counted;
}

-- Every event but those of an election.
abbrev pub IsLocal : {C : Type 0} → Event C → Type 0
IsLocal (vote_request args) = ⊥
IsLocal election_timer = ⊥
IsLocal (vote_reply args reply granted) = ⊥
IsLocal _ = Unit

module _ {C : Type 0} where
  -- A cluster whose nodes all start on empty disks.
  abbrev pub initial : ℕ → Cluster C
  initial n = record {
    nodes = λ i. fresh n i (record { raft_state = []; snapshot = [] });
    votes = λ voter term. none;
    polls = λ candidate term. record { granted = 0; counted = λ j. false };
    answers = [];
  }

  -- One event at one node of `n`.
  pub data Step (n : ℕ) (c c' : Cluster C) : Type 0 where
    moves :
        (i : ℕ) (e : Event C) (rf : Raft C)
        → IsLocal e
        → step e (c.nodes i) ≡ some rf
        → c' ≡ record c { nodes = put_at i rf c.nodes }
        → Step n c c'
    stands :
        (i : ℕ) (rf : Raft C) (args : RequestVoteArgs)
        → i < n
        → election_timeout (c.nodes i) ≡ some (rf, some args)
        → c' ≡ record c {
          nodes = put_at i rf c.nodes;
          votes = cast i args.term i c.votes;
          polls = set_poll i args.term (new_poll i) c.polls;
        }
        → Step n c c'
    answers :
        (i : ℕ) (args : RequestVoteArgs) (rf : Raft C) (reply : RequestVoteReply)
        → request_vote args (c.nodes i) ≡ some (rf, reply)
        → c' ≡ record c {
          nodes = put_at i rf c.nodes;
          votes = cast_if reply.vote_granted i args.term args.candidate_id c.votes;
          answers = record { voter = i; args = args; reply = reply } ∷ c.answers;
        }
        → Step n c c'
    counts :
        (a : Answer) (rf : Raft C) (granted : ℕ)
        → a.voter < n
        → IsAmong a c.answers
        → (c.polls a.args.candidate_id a.args.term).counted a.voter ≡ false
        → request_vote_from_peer a.args a.reply
            (c.polls a.args.candidate_id a.args.term).granted
            (c.nodes a.args.candidate_id)
          ≡ some (rf, granted)
        → c' ≡ record c {
          nodes = put_at a.args.candidate_id rf c.nodes;
          polls =
              set_poll a.args.candidate_id a.args.term
                (counted_poll a.voter granted (c.polls a.args.candidate_id a.args.term))
                c.polls;
        }
        → Step n c c'

  pub data Reach (n : ℕ) : Cluster C → Type 0 where
    begins : Reach n (initial n)
    next : {c c' : Cluster C} → Reach n c → Step n c c' → Reach n c'

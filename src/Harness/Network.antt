-- ===== src/Harness/Network.antt =====
-- kvraft/internal/testutils/network.go: which calls reach a server. The maps of the source are
-- functions, `none` where a key is missing; encoding/gob and the methods that reflect finds are
-- parameters, and so is what rand decides.
pub mod Mesh
pub mod Meshed
pub mod Reach
use raft_algorithm_thesis.Base.{
  ℕ, zero, suc, ◌+◌, Bool, true, false, not, ◌&&◌, ◌||◌, Option, none, some, List, [], ◌∷◌, ◌==◌,
  if◌then◌else◌, ◌>>=◌, put_at,
}

-- `Network`; `ids` are the keys of `servers`.
pub record Network (S : Type 0) : Type 0 where
  pub ids : List ℕ
  pub servers : ℕ → Option S
  pub connections : ℕ → Option (ℕ → Bool)
  pub is_reliable : Bool
  pub rpc_counts : ℕ → Option ℕ

-- `n.connections[from][to]`, false where a key is missing.
abbrev pub is_up : Option (ℕ → Bool) → ℕ → Bool
is_up none to = false
is_up (some row) to = row to

abbrev pub is_linked : (ℕ → Option (ℕ → Bool)) → ℕ → ℕ → Bool
is_linked connections from to = is_up (connections from) to

-- `n.connections[from][to] = up`, which panics where `from` has no map.
unfoldable pub set_link : ℕ → ℕ → Bool → (ℕ → Option (ℕ → Bool)) → Option (ℕ → Option (ℕ → Bool))
set_link from to up connections = do
  row ← connections from
  some (put_at from (some (put_at to up row)) connections)

-- The loop of AddServer over the servers.
unfoldable pub link_all : ℕ → List ℕ → (ℕ → Option (ℕ → Bool)) → Option (ℕ → Option (ℕ → Bool))
link_all id [] connections = some connections
link_all id (other ∷ others) connections =
    if id == other then link_all id others connections else (do
      out ← set_link id other true connections
      both ← set_link other id true out
      link_all id others both)

abbrev pub is_among : ℕ → List ℕ → Bool
is_among id [] = false
is_among id (x ∷ xs) = (id == x) || is_among id xs

module _ {S : Type 0} where
  -- `NewNetwork`
  abbrev pub new_network : Network S
  new_network = record {
    ids = [];
    servers = λ id. none;
    connections = λ id. none;
    is_reliable = true;
    rpc_counts = λ id. none;
  }

  -- `SetReliability`; the rates decide what rand says later.
  unfoldable pub set_reliability : Bool → Network S → Network S
  set_reliability reliable n = record n { is_reliable = reliable }

  -- `GetRPCCount`
  unfoldable pub get_rpc_count : ℕ → Network S → ℕ
  get_rpc_count id n = elim (n.rpc_counts id) [ none ↦ 0 | some count ↦ count ]

  -- `ResetRPCCounts`
  unfoldable pub reset_rpc_counts : Network S → Network S
  reset_rpc_counts n = record n {
    rpc_counts = λ id. elim (n.rpc_counts id) [ none ↦ none | some count ↦ some 0 ];
  }

  -- `AddServer`
  unfoldable pub add_server : ℕ → S → Network S → Option (Network S)
  add_server id server n = do
    let ids = if is_among id n.ids then n.ids else id ∷ n.ids
    connections ← link_all id ids (put_at id (some (λ to. false)) n.connections)
    some (record n {
      ids = ids;
      servers = put_at id (some server) n.servers;
      connections = connections;
      rpc_counts = put_at id (some 0) n.rpc_counts;
    })

  -- `Connect` and `Disconnect`
  unfoldable pub connect : ℕ → ℕ → Network S → Option (Network S)
  connect from to n = do
    connections ← set_link from to true n.connections
    some (record n { connections = connections })

  unfoldable pub disconnect : ℕ → ℕ → Network S → Option (Network S)
  disconnect from to n = do
    connections ← set_link from to false n.connections
    some (record n { connections = connections })

  -- `connected` of Call: both directions are up.
  abbrev pub is_connected : ℕ → ℕ → Network S → Bool
  is_connected from to n = is_linked n.connections from to && is_linked n.connections to from

  unfoldable pub count_call : ℕ → Network S → Network S
  count_call to n = elim (n.rpc_counts to) [
    | none ↦ n
    | some count ↦ record n { rpc_counts = put_at to (some (count + 1)) n.rpc_counts }
  ]

-- `MockTransport`; its `net` is the network that its Call is given.
pub record MockTransport : Type 0 where
  pub me : ℕ
  pub peer : ℕ

-- The loop of MakeMockTransports from a peer on, for so many more.
unfoldable pub transports_from : (me peer left : ℕ) → List MockTransport
transports_from me peer zero = []
transports_from me peer (suc left) =
    record { me = me; peer = peer } ∷ transports_from me (peer + 1) left

unfoldable pub make_mock_transports : (me num_servers : ℕ) → List MockTransport
make_mock_transports me num_servers = transports_from me 0 num_servers

-- `Call`: the network afterwards, and the reply, or `none` for false. `gob` is what the arguments are
-- after encoding and decoding, and `invoke` the method of the server, `none` where it has no such.
module _ {S Args Reply : Type 0} (gob : Args → Option Args)
    (invoke : S → Args → Option (S × Reply)) where
  -- The call once it is on its way to a server.
  unfoldable pub deliver_call : ℕ → S → Args → Network S → Network S × Option Reply
  deliver_call to server args n = elim (gob args) [
    | none ↦ (n, none)
    | some decoded ↦ elim (invoke server decoded) [
      | none ↦ (n, none)
      | some (server', reply) ↦
          (record n { servers = put_at to (some server') n.servers }, some reply)
    ]
  ]

  unfoldable pub call_server :
      Option S → (from to : ℕ) → (loses : Bool) → Args → Network S → Network S × Option Reply
  call_server none from to loses args n = (n, none)
  call_server (some server) from to loses args n =
      if not (is_connected from to n) || (not n.is_reliable && loses)
      then (n, none)
      else deliver_call to server args (count_call to n)

  unfoldable pub call : (from to : ℕ) → (loses : Bool) → Args → Network S → Network S × Option Reply
  call from to loses args n = call_server (n.servers to) from to loses args n

  -- Call of a `MockTransport`
  unfoldable pub transport_call :
      MockTransport → (loses : Bool) → Args → Network S → Network S × Option Reply
  transport_call t loses args n = call t.me t.peer loses args n

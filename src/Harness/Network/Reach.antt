-- ===== src/Harness/Network/Reach.antt =====
-- network.go: which calls reach their server.
use raft_algorithm_thesis.Base.{
  zero, suc, ◌+◌, ◌<◌, get_elem?, ℕ, ◌≡◌, ◌≢◌, refl, sym, ◌∙◌, ap, subst, Bool, false, Option, none,
  some, List, put_at, put_at-here, IsAmong, Returns, Returns-some, Ensures, Ensures-some,
  Ensures->>=, arith,
}
use raft_algorithm_thesis.Harness.Network.{
  MockTransport, transport_call, transports_from, make_mock_transports, Network, is_up, is_linked,
  set_link, new_network, disconnect, call, call_server, deliver_call, count_call, get_rpc_count,
  is_connected,
}
use raft_algorithm_thesis.Harness.Network.Mesh.{Links}
use raft_algorithm_thesis.Harness.Network.Meshed.{
  IsMesh, new_network-IsMesh, add_all, add_all-IsMesh,
}

transports_from-at :
    (me peer left i : ℕ)
    → i < left
    → get_elem? (transports_from me peer left) i ≡ some (record { me = me; peer = peer + i })
unfolding transports_from
transports_from-at me peer zero i lt = absurd (omega (arith, lt))
transports_from-at me peer (suc left) zero lt =
    ap (λ p. some (record { me = me; peer = p })) (omega arith)
transports_from-at me peer (suc left) (suc i) lt =
    transports_from-at me (peer + 1) left i (omega arith)
    ∙ ap (λ p. some (record { me = me; peer = p })) (omega arith)

module _ {S : Type 0} where
  count_call_lem :
      (to : ℕ) (n : Network S) {count : ℕ}
      → n.rpc_counts to ≡ some count
      → count_call to n ≡ record n { rpc_counts = put_at to (some (count + 1)) n.rpc_counts }
  unfolding count_call
  count_call_lem to n c = rw (count_call, c) refl

  get_count :
      (to count : ℕ) (n : Network S) → n.rpc_counts to ≡ some count → get_rpc_count to n ≡ count
  unfolding get_rpc_count
  get_count to count n c = rw (get_rpc_count, c) refl

module _ {S Args Reply : Type 0} (gob : Args → Option Args)
    (invoke : S → Args → Option (S × Reply)) where
  mesh_call :
      (n : Network S) (from to : ℕ) (loses : Bool) (args : Args)
      → IsMesh n
      → IsAmong from n.ids
      → IsAmong to n.ids
      → from ≢ to
      → (server : S) × (n.servers to ≡ some server)
        × (call gob invoke from to loses args n
            ≡ deliver_call gob invoke to server args (count_call to n))
  unfolding call call_server
  mesh_call n from to loses args h mf mt ne =
      let (server, q) = h.present to mt in
      (
        server,
        q,
        rw (q, h.linked from to mf mt ne, h.linked to from mt mf (λ e. ne (sym e)), h.reliable)
            refl,
      )

  deliver_call_lem :
      (to : ℕ) (server server' : S) (args decoded : Args) (reply : Reply) (n : Network S)
      → gob args ≡ some decoded
      → invoke server decoded ≡ some (server', reply)
      → deliver_call gob invoke to server args n
        ≡ (record n { servers = put_at to (some server') n.servers }, some reply)
  unfolding deliver_call
  deliver_call_lem to server server' args decoded reply n g i = rw (deliver_call, g, i) refl

  -- A call that is on its way to a server: it gets there, and is counted.
  delivered :
      (n : Network S) (to : ℕ) (args decoded : Args) (server server' : S) (reply : Reply)
      {count : ℕ}
      → n.rpc_counts to ≡ some count
      → gob args ≡ some decoded
      → invoke server decoded ≡ some (server', reply)
      → ((deliver_call gob invoke to server args (count_call to n)).1 ≡ some reply)
        × ((deliver_call gob invoke to server args (count_call to n)).0.servers to ≡ some server')
        × (get_rpc_count to (deliver_call gob invoke to server args (count_call to n)).0
            ≡ get_rpc_count to n + 1)
  delivered n to args decoded server server' reply {count} c g i =
      let counting : get_rpc_count to n ≡ count = get_count to count n c in
      subst
        (λ r.
          (r.1 ≡ some reply)
          × (r.0.servers to ≡ some server')
          × (get_rpc_count to r.0 ≡ get_rpc_count to n + 1))
        (sym (deliver_call_lem to server server' args decoded reply (count_call to n) g i))
        (
          refl,
          put_at-here to (some server') (count_call to n).servers,
          rw (count_call_lem to n c, counting)
              (get_count to (count + 1) _ (put_at-here to (some (count + 1)) n.rpc_counts)),
        )

  -- However servers are added to a new network, the calls return; and then the transports that a
  -- server is given have one to any other server among so many, and a Call of it whose arguments can
  -- be encoded and whose method the server has, as long as nothing else happens to the network,
  -- returns what the method replies and leaves the server as the method does, and the count of the
  -- server's calls goes up by one, whatever rand says.
  pub add_all-call :
      (servers : List (ℕ × S)) {n : Network S} (from to num_servers : ℕ) (loses : Bool)
      (args decoded : Args) (server server' : S) (reply : Reply)
      → add_all servers new_network ≡ some n
      → IsAmong from n.ids
      → IsAmong to n.ids
      → from ≢ to
      → to < num_servers
      → n.servers to ≡ some server
      → gob args ≡ some decoded
      → invoke server decoded ≡ some (server', reply)
      → Returns IsMesh (add_all servers (new_network {S = S}))
        × ((t : MockTransport) × (get_elem? (make_mock_transports from num_servers) to ≡ some t)
            × ((transport_call gob invoke t loses args n).1 ≡ some reply)
            × ((transport_call gob invoke t loses args n).0.servers to ≡ some server')
            × (get_rpc_count to (transport_call gob invoke t loses args n).0
                ≡ get_rpc_count to n + 1))
  unfolding make_mock_transports transport_call
  add_all-call servers {n} from to num_servers loses args decoded server server' reply run mf mt ne
        lt at g i =
      let built = add_all-IsMesh servers new_network new_network-IsMesh in
      let mesh : IsMesh n = Returns-some IsMesh (add_all servers new_network) built run in
      let (server₁, q, reached) = mesh_call n from to loses args mesh mf mt ne in
      let (count, c) = mesh.counted to mt in
      let chosen : some server₁ ≡ some server = sym q ∙ at in
      let same : server₁ ≡ server = cc in
      let outcome =
        subst
          (λ r.
            (r.1 ≡ some reply)
            × (r.0.servers to ≡ some server')
            × (get_rpc_count to r.0 ≡ get_rpc_count to n + 1))
          (sym (reached ∙ ap (λ s. deliver_call gob invoke to s args (count_call to n)) same))
          (delivered n to args decoded server server' reply c g i) in
      (
        built,
        (
          record { me = from; peer = to },
          transports_from-at from 0 num_servers to lt
              ∙ ap (λ p. some (record { me = from; peer = p })) (omega arith),
          outcome.0,
          outcome.1,
          outcome.2,
        ),
      )

  down_server :
      (o : Option S) (n : Network S) (from to : ℕ) (loses : Bool) (args : Args)
      → is_connected from to n ≡ false
      → call_server gob invoke o from to loses args n ≡ (n, none)
  unfolding call_server
  down_server none n from to loses args down = refl
  down_server (some server) n from to loses args down = rw down refl

  set_link-down :
      (from to : ℕ) (c : Links)
      → Ensures (λ c'. is_linked c' from to ≡ false) (set_link from to false c)
  unfolding set_link
  set_link-down from to c =
      Ensures->>= (λ c'. is_linked c' from to ≡ false) (c from) _
        (λ row _.
          ap (λ o. is_up o to) (put_at-here from (some (put_at to false row)) c)
          ∙ put_at-here to false row)

  disconnect-down :
      (n : Network S) (a b : ℕ)
      → Ensures (λ (n' : Network S). is_linked n'.connections a b ≡ false) (disconnect a b n)
  unfolding disconnect
  disconnect-down n a b =
      Ensures->>= (λ (n' : Network S). is_linked n'.connections a b ≡ false)
        (set_link a b false n.connections) _
        (λ c run.
          Ensures-some (λ c'. is_linked c' a b ≡ false) _ (set_link-down a b n.connections) run)

  -- Once a link is down, in one direction only, no call gets through in either direction: it returns
  -- false, and neither a server nor a count changes.
  pub disconnect-call :
      (n : Network S) (a b : ℕ) {n' : Network S} (loses : Bool) (args : Args)
      → disconnect a b n ≡ some n'
      → (call gob invoke a b loses args n' ≡ (n', none))
        × (call gob invoke b a loses args n' ≡ (n', none))
  unfolding call
  disconnect-call n a b {n'} loses args run = (
    down_server (n'.servers b) n' a b loses args (ground (arith, down)),
    down_server (n'.servers a) n' b a loses args (ground (arith, down)),
  )
    where
      down : is_linked n'.connections a b ≡ false
      down =
          Ensures-some (λ (n' : Network S). is_linked n'.connections a b ≡ false) _
            (disconnect-down n a b) run

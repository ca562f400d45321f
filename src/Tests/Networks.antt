-- ===== src/Tests/Networks.antt =====
-- A network of two servers that count their calls.
use raft_algorithm_thesis.Base.{
  get_elem?, ℕ, ◌+◌, ◌≡◌, ◌≢◌, refl, Bool, true, false, Option, none, some, List, [], ◌∷◌, inl, inr,
  put_at, Returns, arith,
}
use raft_algorithm_thesis.Harness.Network.{
  MockTransport, transport_call, make_mock_transports, Network, new_network, add_server, set_link,
  link_all, disconnect, call, get_rpc_count,
}
use raft_algorithm_thesis.Harness.Network.Meshed.{IsMesh, add_all}
use raft_algorithm_thesis.Harness.Network.Reach.{add_all-call, disconnect-call}

abbrev same_args : ℕ → Option ℕ
same_args args = some args

abbrev counter : ℕ → ℕ → Option (ℕ × ℕ)
counter server args = some (server + args, server)

abbrev two : List (ℕ × ℕ)
two = (0, 10) ∷ (1, 20) ∷ []

abbrev links : ℕ → Option (ℕ → Bool)
links = put_at 0 (some (put_at 1 true (λ to. false))) (
    put_at 1 (some (put_at 0 true (λ to. false)))
      (put_at 1 (some (λ to. false)) (put_at 0 (some (λ to. false)) (λ id. none))))

abbrev pair : Network ℕ
pair = record {
  ids = 1 ∷ 0 ∷ [];
  servers = put_at 1 (some 20) (put_at 0 (some 10) (λ id. none));
  connections = links;
  is_reliable = true;
  rpc_counts = put_at 1 (some 0) (put_at 0 (some 0) (λ id. none));
}

built : add_all two new_network ≡ some pair
unfolding add_all add_server link_all set_link
built = refl

zero≢one : ◌≢◌ {A = ℕ} 0 1
zero≢one e = absurd (omega (arith, e))

add_all-call_example :
    Returns IsMesh (add_all two (new_network {S = ℕ}))
    × ((t : MockTransport) × (get_elem? (make_mock_transports 0 2) 1 ≡ some t)
        × ((transport_call same_args counter t true 5 pair).1 ≡ some 20)
        × ((transport_call same_args counter t true 5 pair).0.servers 1 ≡ some 25)
        × (get_rpc_count 1 (transport_call same_args counter t true 5 pair).0
            ≡ get_rpc_count 1 pair + 1))
add_all-call_example =
    add_all-call same_args counter two 0 1 2 true 5 5 20 25 20 built (inr (inl refl)) (inl refl)
      zero≢one (omega arith) refl refl refl

abbrev apart : Network ℕ
apart = record pair {
  connections = put_at 0 (some (put_at 1 false (put_at 1 true (λ to. false)))) links;
}

parts : disconnect 0 1 pair ≡ some apart
unfolding disconnect set_link
parts = refl

disconnect-call_example :
    (call same_args counter 0 1 false 5 apart ≡ (apart, none))
    × (call same_args counter 1 0 false 5 apart ≡ (apart, none))
disconnect-call_example = disconnect-call same_args counter pair 0 1 false 5 parts

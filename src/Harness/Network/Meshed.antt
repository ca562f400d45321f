-- ===== src/Harness/Network/Meshed.antt =====
-- network.go: AddServer links all servers with each other.
use native.Mathlib.Decide.{ℕ_discrete}
use raft_algorithm_thesis.Base.{
  ℕ, ◌≡◌, ◌≢◌, refl, sym, ◌∙◌, subst, inl, inr, ◌⊎◌, Bool, true, false, Option, some, List, [], ◌∷◌,
  ◌==◌, ==_iff, if◌then◌else◌, if_cases, ◌>>=◌, put_at, put_at-here, put_at-cases, IsAmong, Returns,
  Bool-cases,
}
use raft_algorithm_thesis.Harness.Network.{
  Network, is_up, is_linked, is_among, new_network, add_server,
}
use raft_algorithm_thesis.Harness.Network.Mesh.{Links, Grows, Linked, link_all-Linked}

is_among-IsAmong : (id : ℕ) (ids : List ℕ) → is_among id ids ≡ true → IsAmong id ids
is_among-IsAmong id [] h = cc
is_among-IsAmong id (x ∷ xs) h = elim (Bool-cases (id == x)) [
  | inl e ↦ inl ((==_iff id x).0 e)
  | inr ne ↦ inr (is_among-IsAmong id xs (rw ne at h))
]

-- The keys once a server is added.
abbrev added_ids : ℕ → List ℕ → List ℕ
added_ids id ids = if is_among id ids then ids else id ∷ ids

added_here : (id : ℕ) (ids : List ℕ) → IsAmong id (added_ids id ids)
added_here id ids =
    if_cases (IsAmong id) (is_among id ids) (is_among-IsAmong id ids) (λ _. inl refl)

added_before :
    (id : ℕ) (ids : List ℕ) (x : ℕ) → IsAmong x (added_ids id ids) → (x ≡ id) ⊎ IsAmong x ids
added_before id ids x =
    if_cases (λ l. IsAmong x l → (x ≡ id) ⊎ IsAmong x ids) (is_among id ids) (λ _ m. inr m)
      (λ _ m. m)

old_one : (id : ℕ) (ids : List ℕ) (x : ℕ) → IsAmong x (added_ids id ids) → id ≢ x → IsAmong x ids
old_one id ids x m ne = elim (added_before id ids x m) [ inl e ↦ absurd (ne (sym e)) | inr m' ↦ m' ]

module _ {S : Type 0} where
  -- A network whose servers are all linked with each other.
  pub record IsMesh (n : Network S) : Type 0 where
    pub linked :
        (a b : ℕ) → IsAmong a n.ids → IsAmong b n.ids → a ≢ b → is_linked n.connections a b ≡ true
    pub rows : (a : ℕ) → IsAmong a n.ids → (row : ℕ → Bool) × (n.connections a ≡ some row)
    pub present : (a : ℕ) → IsAmong a n.ids → (server : S) × (n.servers a ≡ some server)
    pub counted : (a : ℕ) → IsAmong a n.ids → (count : ℕ) × (n.rpc_counts a ≡ some count)
    pub reliable : n.is_reliable ≡ true

  pub new_network-IsMesh : IsMesh (new_network {S = S})
  new_network-IsMesh = record {
    linked = λ a b m. absurd m;
    rows = λ a m. absurd m;
    present = λ a m. absurd m;
    counted = λ a m. absurd m;
    reliable = refl;
  }

  abbrev reset : ℕ → Network S → Links
  reset id n = put_at id (some (λ to. false)) n.connections

  reset-rows :
      (id : ℕ) (n : Network S)
      → IsMesh n
      → (x : ℕ) → IsAmong x (added_ids id n.ids)
      → (row : ℕ → Bool) × (reset id n x ≡ some row)
  reset-rows id n h x m =
      put_at-cases (λ r. (row : ℕ → Bool) × (r ≡ some row)) id x (some (λ to. false)) n.connections
        (λ _. (λ to. false, refl)) (λ ne. h.rows x (old_one id n.ids x m ne))

  -- The links between the servers that were there.
  reset-linked :
      (id : ℕ) (n : Network S)
      → IsMesh n
      → (a b : ℕ) → IsAmong a n.ids
      → IsAmong b n.ids
      → a ≢ b
      → id ≢ a
      → is_linked (reset id n) a b ≡ true
  reset-linked id n h a b ma mb ne other =
      put_at-cases (λ r. is_up r b ≡ true) id a (some (λ to. false)) n.connections
        (λ e. absurd (other e)) (λ _. h.linked a b ma mb ne)

  -- AddServer returns, and links the new server with all the others.
  add_server-IsMesh :
      (id : ℕ) (server : S) (n : Network S)
      → IsMesh n
      → Returns
          (λ (n' : Network S). IsMesh n' × (n'.ids ≡ added_ids id n.ids))
          (add_server id server n)
  unfolding add_server
  add_server-IsMesh id server n h =
      let (c, run, (g, l)) =
        link_all-Linked id (added_ids id n.ids) (reset id n) (λ to. false)
          (put_at-here id (some (λ to. false)) n.connections) (reset-rows id n h) in
      (
        record n {
          ids = added_ids id n.ids;
          servers = put_at id (some server) n.servers;
          connections = c;
          rpc_counts = put_at id (some 0) n.rpc_counts;
        },
        rw run refl,
        (
          record {
            linked = λ a b ma mb ne. meshed c g l a b ma mb ne;
            rows = λ a m. let (row, q) = reset-rows id n h a m in g.rows a row q;
            present = λ a m.
                put_at-cases (λ o. (s : S) × (o ≡ some s)) id a (some server) n.servers
                  (λ _. (server, refl)) (λ ne. h.present a (old_one id n.ids a m ne));
            counted = λ a m.
                put_at-cases (λ o. (count : ℕ) × (o ≡ some count)) id a (some 0) n.rpc_counts
                  (λ _. (0, refl)) (λ ne. h.counted a (old_one id n.ids a m ne));
            reliable = h.reliable;
          },
          refl,
        ),
      )
    where
      meshed :
          (c : Links)
          → Grows (reset id n) c
          → Linked id (added_ids id n.ids) c
          → (a b : ℕ) → IsAmong a (added_ids id n.ids)
          → IsAmong b (added_ids id n.ids)
          → a ≢ b
          → is_linked c a b ≡ true
      meshed c g l a b ma mb ne = elim (ℕ_discrete id a) [
        | yes e ↦ subst (λ x. is_linked c x b ≡ true) e (l b mb (λ e'. ne (sym e ∙ e'))).0
        | no na ↦ elim (ℕ_discrete id b) [
          | yes e ↦ subst (λ x. is_linked c a x ≡ true) e (l a ma na).1
          | no nb ↦
              g.links a b (
                reset-linked id n h a b (old_one id n.ids a ma na) (old_one id n.ids b mb nb) ne na)
        ]
      ]

  -- AddServer for each of a list.
  unfoldable pub add_all : List (ℕ × S) → Network S → Option (Network S)
  add_all [] n = some n
  add_all ((id, server) ∷ rest) n = do n' ← add_server id server n; add_all rest n'

  pub add_all-IsMesh :
      (servers : List (ℕ × S)) (n : Network S) → IsMesh n → Returns IsMesh (add_all servers n)
  unfolding add_all
  add_all-IsMesh [] n h = (n, refl, h)
  add_all-IsMesh ((id, server) ∷ rest) n h =
      let (n₁, run, (h₁, e)) = add_server-IsMesh id server n h in
      let (n₂, run', h₂) = add_all-IsMesh rest n₁ h₁ in (n₂, rw run run', h₂)

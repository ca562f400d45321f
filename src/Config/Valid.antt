-- ===== src/Config/Valid.antt =====
-- config.go: what a configuration that Load accepts promises to the cluster.
use Prim.Native.String.{String}
use raft_algorithm_thesis.Base.{
  ℕ, ◌+◌, ◌*◌, ◌/◌, ◌%◌, ◌≤◌, ◌<◌, ◌≡◌, refl, sym, subst, false, Option, none, some, List, ltb,
  ◌==◌, length, arith, Bool-cases, Option-cases, inl, inr, ◌⊎◌, ltb→lt, ltb-false,
}
use raft_algorithm_thesis.Transport.Codec.{ℤ, pos}
use raft_algorithm_thesis.Config.{
  Node, Config, Env, get_env_parsed, populate_defaults, override, validate, load,
}

-- At least three nodes, and an odd number of them.
abbrev pub IsCluster : ℕ → Type 0
IsCluster n = (3 ≤ n) × (n ≡ 2 * (n / 2) + 1)

odd-IsCluster : (n : ℕ) → 3 ≤ n → (n % 2 == 0) ≡ false → IsCluster n
odd-IsCluster n le odd = (le, ground arith)

module _ (atoi : String → Option ℤ) (sort_by_id : List Node → List Node) where
  -- A setting is what the environment has under its name, if that is a number, or the default.
  abbrev pub Settles : Env → String → ℕ → ℤ → Type 0
  Settles env key default x =
      ((value : String) × (env key ≡ some value) × (atoi value ≡ some x))
      ⊎ ((env key ≡ none) × (x ≡ pos default))
      ⊎ ((value : String) × (env key ≡ some value) × (atoi value ≡ none) × (x ≡ pos default))

  unset_value :
      (env : Env) (key : String) (x : ℤ) → env key ≡ none → get_env_parsed atoi env key x ≡ x
  unfolding get_env_parsed
  unset_value env key x unset = rw (get_env_parsed, unset) refl

  set_value :
      (env : Env) (key : String) (x : ℤ) {value : String}
      → env key ≡ some value
      → get_env_parsed atoi env key x ≡ elim (atoi value) [ none ↦ x | some parsed ↦ parsed ]
  unfolding get_env_parsed
  set_value env key x set = rw (get_env_parsed, set) refl

  get_env_parsed-Settles :
      (env : Env) (key : String) (default : ℕ)
      → Settles env key default (get_env_parsed atoi env key (pos default))
  get_env_parsed-Settles env key default = elim (Option-cases (env key)) [
    | inl unset ↦ inr (inl (unset, unset_value env key (pos default) unset))
    | inr (value, set) ↦
        subst (Settles env key default) (sym (set_value env key (pos default) set))
          (number (atoi value) refl set)
  ]
    where
      number :
          {value : String} (o : Option ℤ)
          → atoi value ≡ o
          → env key ≡ some value
          → Settles env key default (elim o [ none ↦ pos default | some parsed ↦ parsed ])
      number {value} none bad set = inr (inr (value, set, bad, refl))
      number {value} (some n) good set = inl (value, set, good)

  -- The settings of a configuration, by the names and the defaults.
  pub record IsConfigured (env : Env) (cfg : Config) : Type 0 where
    pub election_timeout_min : Settles env "RAFT_ELECTION_TIMEOUT_MIN" 600 cfg.election_timeout_min
    pub election_timeout_rand :
        Settles env "RAFT_ELECTION_TIMEOUT_RAND" 400 cfg.election_timeout_rand
    pub heartbeat_timeout : Settles env "RAFT_HEARTBEAT_TIMEOUT" 100 cfg.heartbeat_timeout
    pub submit_timeout : Settles env "RSM_SUBMIT_TIMEOUT" 10 cfg.submit_timeout
    pub base_delay : Settles env "GRPC_BASE_DELAY" 100 cfg.base_delay
    pub max_delay : Settles env "GRPC_MAX_DELAY" 3 cfg.max_delay
    pub min_connect_timeout : Settles env "GRPC_MIN_CONNECT_TIMEOUT" 2 cfg.min_connect_timeout
    pub metrics_port_base : Settles env "METRICS_PORT_BASE" 8080 cfg.metrics_port_base

  -- What Load accepts, and what it rejects.
  abbrev pub Loaded : Env → Config → Option Config → Type 0
  Loaded env file none = (length file.nodes < 3) ⊎ (length file.nodes ≡ 2 * (length file.nodes / 2))
  Loaded env file (some cfg) =
      IsCluster (length cfg.nodes) × (cfg.nodes ≡ sort_by_id file.nodes) × IsConfigured env cfg

  override-IsConfigured :
      (env : Env) (file : Config) (nodes : List Node)
      → IsConfigured env (record (override atoi env (populate_defaults file)) { nodes = nodes })
  unfolding override populate_defaults
  override-IsConfigured env file nodes = record {
    election_timeout_min = get_env_parsed-Settles env "RAFT_ELECTION_TIMEOUT_MIN" 600;
    election_timeout_rand = get_env_parsed-Settles env "RAFT_ELECTION_TIMEOUT_RAND" 400;
    heartbeat_timeout = get_env_parsed-Settles env "RAFT_HEARTBEAT_TIMEOUT" 100;
    submit_timeout = get_env_parsed-Settles env "RSM_SUBMIT_TIMEOUT" 10;
    base_delay = get_env_parsed-Settles env "GRPC_BASE_DELAY" 100;
    max_delay = get_env_parsed-Settles env "GRPC_MAX_DELAY" 3;
    min_connect_timeout = get_env_parsed-Settles env "GRPC_MIN_CONNECT_TIMEOUT" 2;
    metrics_port_base = get_env_parsed-Settles env "METRICS_PORT_BASE" 8080;
  }

  -- If the sort keeps the number of the nodes, Load rejects a readable file only for fewer than
  -- three nodes or an even number, and accepts only an odd number of at least three, with the nodes
  -- of the file in the sort's order; and each of the eight settings is then the number that the
  -- environment has under its name, or its default where there is none or no number.
  pub load-Loaded :
      ((xs : List Node) → length (sort_by_id xs) ≡ length xs)
      → (env : Env) (file : Config) → Loaded env file (load atoi sort_by_id env (some file))
  unfolding load validate override populate_defaults
  load-Loaded keeps env file = elim (Bool-cases (ltb (length file.nodes) 3)) [
    | inl few ↦ rw few (inl (ltb→lt _ _ few))
    | inr enough ↦ elim (Bool-cases (length file.nodes % 2 == 0)) [
      | inl even ↦ rw (enough, even) (inr (ground arith))
      | inr odd ↦
          rw (enough, odd)
            (
              subst IsCluster (sym (keeps file.nodes))
                  (odd-IsCluster (length file.nodes) (ltb-false _ _ enough) odd),
              refl,
              override-IsConfigured env file (sort_by_id file.nodes),
            )
    ]
  ]

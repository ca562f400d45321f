-- ===== src/Config.antt =====
-- kvraft/config/config.go: the configuration of a cluster. The environment is a function of the
-- names; strconv.Atoi, strconv.ParseBool and sort.Slice are parameters.
pub mod Valid
use Prim.Native.String.{String}
use raft_algorithm_thesis.Base.{
  ℕ, ◌%◌, Bool, Option, none, some, List, ltb, ◌==◌, if◌then◌else◌, length,
}
use raft_algorithm_thesis.Transport.Codec.{ℤ, pos}

pub record Node : Type 0 where
  pub id : ℤ
  pub addr : String

pub record Config : Type 0 where
  pub nodes : List Node
  pub election_timeout_min : ℤ
  pub election_timeout_rand : ℤ
  pub heartbeat_timeout : ℤ
  pub submit_timeout : ℤ
  pub base_delay : ℤ
  pub max_delay : ℤ
  pub min_connect_timeout : ℤ
  pub metrics_port_base : ℤ

-- `os.LookupEnv`
abbrev pub Env : Type 0
Env = String → Option String

-- `GetEnvInt` and `GetEnvBool`: a value that is set and that parses, or the fallback.
unfoldable pub get_env_parsed {ℓ} : {A : Type ℓ} → (String → Option A) → Env → String → A → A
get_env_parsed parse env key fallback = elim (env key) [
  | none ↦ fallback
  | some value ↦ elim (parse value) [ none ↦ fallback | some parsed ↦ parsed ]
]

-- `GetEnv`
unfoldable pub get_env : Env → String → String → String
get_env env key fallback = elim (env key) [ none ↦ fallback | some value ↦ value ]

-- `PopulateDefaults`
unfoldable pub populate_defaults : Config → Config
populate_defaults cfg = record cfg {
  election_timeout_min = pos 600;
  election_timeout_rand = pos 400;
  heartbeat_timeout = pos 100;
  submit_timeout = pos 10;
  base_delay = pos 100;
  max_delay = pos 3;
  min_connect_timeout = pos 2;
  metrics_port_base = pos 8080;
}

module _ (atoi : String → Option ℤ) where
  -- The settings that the environment overrides.
  unfoldable pub override : Env → Config → Config
  override env cfg = record cfg {
    election_timeout_min =
        get_env_parsed atoi env "RAFT_ELECTION_TIMEOUT_MIN" cfg.election_timeout_min;
    election_timeout_rand =
        get_env_parsed atoi env "RAFT_ELECTION_TIMEOUT_RAND" cfg.election_timeout_rand;
    heartbeat_timeout = get_env_parsed atoi env "RAFT_HEARTBEAT_TIMEOUT" cfg.heartbeat_timeout;
    submit_timeout = get_env_parsed atoi env "RSM_SUBMIT_TIMEOUT" cfg.submit_timeout;
    base_delay = get_env_parsed atoi env "GRPC_BASE_DELAY" cfg.base_delay;
    max_delay = get_env_parsed atoi env "GRPC_MAX_DELAY" cfg.max_delay;
    min_connect_timeout =
        get_env_parsed atoi env "GRPC_MIN_CONNECT_TIMEOUT" cfg.min_connect_timeout;
    metrics_port_base = get_env_parsed atoi env "METRICS_PORT_BASE" cfg.metrics_port_base;
  }

module _ (atoi : String → Option ℤ) (sort_by_id : List Node → List Node) where
  -- The tests on the nodes, and their order.
  unfoldable pub validate : Config → Option Config
  validate cfg =
      if ltb (length cfg.nodes) 3
      then none
      else if length cfg.nodes % 2 == 0
      then none
      else some (record cfg { nodes = sort_by_id cfg.nodes })

  -- `Load`, of what the file holds: `none` where it cannot be read or is not the JSON of a Config.
  unfoldable pub load : Env → Option Config → Option Config
  load env none = none
  load env (some cfg) = validate (override atoi env (populate_defaults cfg))

-- ===== src/Tests/Settings.antt =====
-- The configuration of a cluster of three.
use Prim.Native.String.{String}
use text.Mathlib.Text.{◌==◌}
use raft_algorithm_thesis.Base.{ℕ, refl, Option, some, none, if◌then◌else◌, List, [], ◌∷◌}
use raft_algorithm_thesis.Transport.Codec.{ℤ, pos}
use raft_algorithm_thesis.Config.{Node, Config, Env, load}
use raft_algorithm_thesis.Config.Valid.{Loaded, load-Loaded}

abbrev node : ℕ → Node
node i = record { id = pos i; addr = "" }

abbrev three : Config
three = record {
  nodes = node 1 ∷ node 2 ∷ node 3 ∷ [];
  election_timeout_min = pos 0;
  election_timeout_rand = pos 0;
  heartbeat_timeout = pos 0;
  submit_timeout = pos 0;
  base_delay = pos 0;
  max_delay = pos 0;
  min_connect_timeout = pos 0;
  metrics_port_base = pos 0;
}

abbrev atoi : String → Option ℤ
atoi value = if value == "7" then some (pos 7) else none

-- One setting is there, and one is no number.
abbrev env : Env
env key =
    if key == "RSM_SUBMIT_TIMEOUT"
    then some "7"
    else if key == "GRPC_MAX_DELAY"
    then some "x"
    else none

-- The nodes of the file are in order.
abbrev in_order : List Node → List Node
in_order xs = xs

load-Loaded_example : Loaded atoi in_order env three (load atoi in_order env (some three))
load-Loaded_example = load-Loaded atoi in_order (λ xs. refl) env three

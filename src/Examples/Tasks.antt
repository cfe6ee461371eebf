-- ===== src/Examples/Tasks.antt =====
-- A cluster of an orchestrator and two shards, of which one does not run.
use maestro_orchestrator.Prelude.{
  ℕ, String, ◌≡◌, refl, true, false, Option, none, some, [], ◌∷◌, ◌==◌, text_keys, inl,
  if◌then◌else◌,
}
use maestro_orchestrator.Prelude.Dict.{get, set}
use maestro_orchestrator.Dispatch.{
  ClusterConfig, NodeEnv, ShardInfo, Redis, Node, DispatchRequest, dispatched, orchestrator_node,
  shard_node, standalone, detect_cluster_config, start_node, get_task, get_result, shard_urls,
  assign_shard, task_result_of, dispatch_task,
}
use maestro_orchestrator.Dispatch.Routing.{owner_completes}

abbrev hash : String → ℕ
hash id = if id == "task-a" then 7 else 10

abbrev said : String → String → String → String
said node id prompt = prompt

abbrev slot : ℕ → String
slot i = "shard"

abbrev shard_env : NodeEnv
shard_env = record {
  node_role = "shard";
  node_id = some "shard-2";
  shard_count = some 2;
  shard_index = some 1;
  orchestrator_url = "http://primary:8000";
  redis_url = "redis";
}

abbrev shard_config : ClusterConfig
shard_config = record {
  role = shard_node;
  node_id = "shard-2";
  shard_index = some 1;
  shard_count = 2;
  orchestrator_url = "http://primary:8000";
  redis_url = "redis";
}

detected : detect_cluster_config shard_env ≡ shard_config
unfolding detect_cluster_config
detected = refl

-- With one shard in all a shard runs alone, and keeps the index.
alone :
    detect_cluster_config (record shard_env { shard_count = some 1 })
    ≡ record shard_config { role = standalone; shard_count = 1 }
unfolding detect_cluster_config
alone = refl

abbrev primary : ClusterConfig
primary = record shard_config { role = orchestrator_node; node_id = "primary"; shard_index = none }

abbrev second : Node
second = record { node_id = "shard-2"; config = shard_config; loaded_shards = []; connected = true }

abbrev first : Node
first = record {
  node_id = "shard-1";
  config = record shard_config { node_id = "shard-1"; shard_index = some 0 };
  loaded_shards = [];
  connected = true;
}

abbrev network : String → Option Node
network url = if url == "shard-2" then some second else none

abbrev info : ℕ → ShardInfo
info i = record { role = shard_node; shard_index = some i; shard_count = 2; shards = [] }

abbrev bus : Redis
bus = record {
  tasks = [];
  results = [];
  shards = ("shard-1", info 0) ∷ ("shard-2", info 1) ∷ [];
  proofs = [];
  ledger_queue = [];
}

started : (start_node second (start_node first (record bus { shards = [] }))).shards ≡ bus.shards
unfolding start_node set
started = refl

abbrev asked : String → DispatchRequest
asked id = record { prompt = "Why?"; task_id = id }

owner_completes_example :
    let out = dispatch_task hash said slot network primary true "x" "now" (asked "task-a") bus in
    let result = task_result_of hash said second "task-a" "Why?" "now" in
    (out.1 ≡ dispatched "task-a" 1 "shard-2" result)
    × (get_result true "task-a" out.0 ≡ some result)
    × (get_task true "task-a" out.0 ≡ none)
    × ((other : String)
        → ("task-a" == other) ≡ false
        → (get_result true other out.0 ≡ get_result true other bus)
          × (get_task true other out.0 ≡ get_task true other bus))
unfolding shard_urls assign_shard get set
owner_completes_example =
    owner_completes hash said slot network primary true "x" "now" (asked "task-a") bus "shard-2"
      second (inl refl) refl refl refl refl refl

-- ===== src/Examples/Clusters.antt =====
-- A cluster with an orchestrator and a shard.
use maestro_orchestrator.Prelude.{
  ◌≤◌, ◌≡◌, ◌≢◌, true, false, none, some, List, [], ◌∷◌, number_keys, arith,
}
use maestro_orchestrator.Prelude.Lists.{All}
use maestro_orchestrator.Prelude.Dict.{get}
use maestro_orchestrator.Instances.{
  InstanceInfo, orchestrator, shard, Entry, Cluster, load_registry, shared_redis_port,
}
use maestro_orchestrator.Instances.Spawn.{Environment, instance_env}
use maestro_orchestrator.Instances.Indices.{IsIndexed}
use maestro_orchestrator.Instances.Numbers.{
  Command, spawns, stops, run, run-IsIndexed, ports_of, ports_apart,
}

abbrev docker : Environment
docker = record {
  compose = true;
  redis_port_free = true;
  redis_starts = true;
  port_free = λ n. true;
  up = λ e. true;
  health = false ∷ true ∷ [];
  address = "172.18.0.4";
}

abbrev first : Entry
first = record {
  role = orchestrator;
  shard_index = none;
  human_name = "calm-otter";
  port = 8000;
  container_ip = "172.18.0.2";
}

abbrev second : Entry
second = record {
  role = shard;
  shard_index = some 0;
  human_name = "bold-lynx";
  port = 8010;
  container_ip = "172.18.0.3";
}

abbrev cluster : Cluster
cluster = record { registry_file = some ((1, first) ∷ (2, second) ∷ []); redis = none }

-- The third instance, a shard with the index 1.
abbrev third : InstanceInfo
third = record {
  number = 3;
  port = 8020;
  healthy = true;
  role = shard;
  shard_index = some 1;
  human_name = "wise-owl";
  container_ip = "172.18.0.4";
}

alone-IsIndexed : IsIndexed (load_registry (record { registry_file = none; redis = none }))
unfolding load_registry get
alone-IsIndexed = record {
  apart = λ i j a b x p q h k. absurd (let bad : none ≡ some a = p in cc);
  of_shards = λ i a x p h. absurd (let bad : none ≡ some a = p in cc);
}

abbrev commands : List Command
commands =
    spawns [] none "calm-otter" docker
    ∷ spawns (1 ∷ []) none "bold-lynx" docker
    ∷ stops true 2 (1 ∷ [])
    ∷ spawns (1 ∷ []) (some 7) "wise-owl" docker
    ∷ []

run-IsIndexed_example :
    IsIndexed (load_registry (run commands (record { registry_file = none; redis = none })))
run-IsIndexed_example =
    run-IsIndexed commands (record { registry_file = none; redis = none }) alone-IsIndexed

ports_apart_example :
    All
      (λ a.
        (a ≤ 65535)
        × (a ≢ shared_redis_port)
        × All (λ b. a ≢ b) (ports_of (instance_env 99 shard (some 3) "wise-owl" 5)))
      (ports_of (instance_env 1 orchestrator none "calm-otter" 5))
ports_apart_example =
    ports_apart 1 99 orchestrator shard none (some 3) "calm-otter" "wise-owl" 5 5 (omega arith)
      (omega arith) (omega arith) (omega arith) (λ e. omega arith)

-- ===== src/Instances/Spawn.antt =====
-- `spawn`, `stop`, `stop_all` and `get_all_status` of maestro/instances.py. Docker is outside: what its
-- commands answer comes in as arguments, such as the numbers of the instances that run, and an
-- `Environment` for one call of `spawn`.
use maestro_orchestrator.Prelude.{
  ℕ, ◌+◌, ◌-◌, String, Bool, not, ◌&&◌, ◌||◌, Option, none, some, List, [], map, number_keys,
  text_keys, if◌then◌else◌, nat_beq,
}
use maestro_orchestrator.Prelude.Lists.{length, take, any, nonempty}
use maestro_orchestrator.Prelude.Sorted.{sorted_union}
use maestro_orchestrator.Prelude.Dict.{get, values, keys}
use maestro_orchestrator.Instances.{
  Role, InstanceInfo, Cluster, is_shard, load_registry, save_registry, register_instance,
  unregister_instance, instance_port, next_instance_number, shard_entries, at_least_one,
  broadcast_shard_count, used_indices, free_index, orchestrator, shard,
}

-- The variables of `_instance_env` that differ from one instance to another.
pub record InstanceEnv : Type 0 where
  pub maestro_port : ℕ
  pub node_role : Role
  pub instance_name : String
  pub shard_count : ℕ
  pub shard_index : Option ℕ
  pub shard1_port : ℕ
  pub shard2_port : ℕ
  pub shard3_port : ℕ
  pub postgres_port : ℕ

unfoldable pub instance_env : ℕ → Role → Option ℕ → String → ℕ → InstanceEnv
unfolding instance_port is_shard
instance_env n role index name total = record {
  maestro_port = instance_port n;
  node_role = role;
  instance_name = name;
  shard_count = total;
  shard_index = if is_shard role then index else none;
  shard1_port = instance_port n + 1;
  shard2_port = instance_port n + 2;
  shard3_port = instance_port n + 3;
  postgres_port = 5432 + (n - 1);
}

-- What the commands of one spawn answer: whether Docker Compose is there, the port of the Redis is free
-- and the Redis starts, the port of the instance is free, `up` succeeds for an environment, the five
-- health checks, and the address.
pub record Environment : Type 0 where
  pub compose : Bool
  pub redis_port_free : Bool
  pub redis_starts : Bool
  pub port_free : ℕ → Bool
  pub up : InstanceEnv → Bool
  pub health : List Bool
  pub address : String

pub data SpawnError : Type 0 where
  no_compose redis_port_in_use redis_failed port_in_use start_failed no_index : SpawnError

pub data Spawned : Type 0 where
  spawned : InstanceInfo → Spawned
  not_spawned : SpawnError → Spawned

-- `_ensure_shared_redis`
unfoldable pub ensure_shared_redis : Environment → Cluster → Cluster × Option SpawnError
ensure_shared_redis env w = elim w.redis [
  | some p ↦ (w, none)
  | none ↦
      if not env.redis_port_free
      then (w, some redis_port_in_use)
      else if not env.redis_starts
      then (w, some redis_failed)
      else (record w { redis = some (record { shard_count = none; members = [] }) }, none)
]

-- The role, and the shard index of a shard.
unfoldable pub role_for : List ℕ → ℕ → Cluster → Role
unfolding load_registry
role_for running n w =
    if (not (nonempty running) && not (nonempty (load_registry w))) || nat_beq n 1
    then orchestrator
    else shard

unfoldable pub index_for : Role → Cluster → Option (Option ℕ)
unfolding used_indices load_registry free_index
index_for orchestrator w = some none
index_for shard w =
    let used = used_indices (values (load_registry w)) in
    elim (free_index (length used + 1) used 0) [ none ↦ none | some i ↦ some (some i) ]

unfoldable pub total_shards : Role → Cluster → ℕ
unfolding shard_entries is_shard at_least_one load_registry
total_shards role w =
    let current = shard_entries (load_registry w) in
    current + (if is_shard role then 1 else at_least_one current)

-- From the containers on: the instance is started, waited for, registered and announced.
unfoldable pub start_instance :
    ℕ → Role → Option ℕ → String → ℕ → Environment → Cluster → Cluster × Spawned
unfolding instance_env instance_port register_instance broadcast_shard_count
start_instance n role index name total env w =
    if not (env.port_free (instance_port n))
    then (w, not_spawned port_in_use)
    else if not (env.up (instance_env n role index name total))
    then (w, not_spawned start_failed)
    else (
      broadcast_shard_count (
          register_instance n
            (record {
              role = role;
              shard_index = index;
              human_name = name;
              port = instance_port n;
              container_ip = env.address;
            })
            w),
      spawned (record {
        number = n;
        port = instance_port n;
        healthy = any (λ h. h) (take 5 env.health);
        role = role;
        shard_index = index;
        human_name = name;
        container_ip = env.address;
      }),
    )

unfoldable pub with_redis :
    ℕ → Role → Option ℕ → String → ℕ → Environment → Cluster × Option SpawnError → Cluster × Spawned
unfolding start_instance
with_redis n role index name total env (w, some e) = (w, not_spawned e)
with_redis n role index name total env (w, none) = start_instance n role index name total env w

unfoldable pub spawn_numbered : List ℕ → ℕ → String → Environment → Cluster → Cluster × Spawned
unfolding role_for index_for total_shards with_redis ensure_shared_redis
spawn_numbered running n name env w =
    let role = role_for running n w in
    elim (index_for role w) [
      | none ↦ (w, not_spawned no_index)
      | some index ↦
          with_redis n role index name (total_shards role w) env (ensure_shared_redis env w)
    ]

-- `none` as the number asks for the next one.
unfoldable pub spawn : List ℕ → Option ℕ → String → Environment → Cluster → Cluster × Spawned
unfolding next_instance_number spawn_numbered
spawn running number name env w =
    let n : ℕ = elim number [ none ↦ next_instance_number running w | some k ↦ k ] in
    if not env.compose then (w, not_spawned no_compose) else spawn_numbered running n name env w

-- `left` is what runs after the instance has been taken down. Without Docker Compose it raises: `none`.
unfoldable pub stop : Bool → ℕ → List ℕ → Cluster → Option Cluster
unfolding unregister_instance broadcast_shard_count load_registry
stop compose n left w =
    let w' = broadcast_shard_count (unregister_instance n w) in
    if not compose
    then none
    else some (
        if not (nonempty left) && not (nonempty (load_registry w'))
        then record w' { redis = none }
        else w')

unfoldable pub stop_all : Bool → List ℕ → Cluster → Cluster × ℕ
unfolding save_registry
stop_all compose running w =
    if not compose then (w, 0) else (save_registry [] (record w { redis = none }), length running)

unfoldable pub status_of : (ℕ → Bool) → Cluster → ℕ → InstanceInfo
unfolding instance_port load_registry
status_of healthy w n =
    let entry = get n (load_registry w) in
    record {
      number = n;
      port = instance_port n;
      healthy = healthy n;
      role = elim entry [ none ↦ if nat_beq n 1 then orchestrator else shard | some e ↦ e.role ];
      shard_index = elim entry [ none ↦ none | some e ↦ e.shard_index ];
      human_name = elim entry [ none ↦ "" | some e ↦ e.human_name ];
      container_ip = elim entry [ none ↦ "" | some e ↦ e.container_ip ];
    }

unfoldable pub get_all_status : (ℕ → Bool) → List ℕ → Cluster → List InstanceInfo
unfolding status_of sorted_union load_registry
get_all_status healthy running w =
    map (status_of healthy w) (sorted_union running (sorted_union (keys (load_registry w)) []))

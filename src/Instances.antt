-- ===== src/Instances.antt =====
-- maestro/instances.py: the instances of a cluster, their registry file, ports, numbers and shard indices,
-- and what is published in the shared Redis.
use maestro_orchestrator.Prelude.{
  ℕ, zero, suc, ◌+◌, ◌-◌, ◌*◌, String, Bool, true, false, not, ◌&&◌, ◌||◌, Option, none, some, List,
  [], ◌∷◌, ◌++◌, map, number_keys, text_keys, ◌==◌, if◌then◌else◌, ltb, leb, nat_beq,
}
use maestro_orchestrator.Prelude.Lists.{length, take, any, contains, count_if, keep, nonempty}
use maestro_orchestrator.Prelude.Sorted.{insert_number, sorted_union}
use maestro_orchestrator.Prelude.Dict.{Dict, get, set, delete, values, keys}
pub mod Spawn
pub mod Indices
pub mod Runs
pub mod Numbers
pub mod Counts

pub data Role : Type 0 where
  orchestrator shard : Role

-- What the registry file holds of an instance.
pub record Entry : Type 0 where
  pub role : Role
  pub shard_index : Option ℕ
  pub human_name : String
  pub port : ℕ
  pub container_ip : String

pub record InstanceInfo : Type 0 where
  pub number : ℕ
  pub port : ℕ
  pub healthy : Bool
  pub role : Role
  pub shard_index : Option ℕ
  pub human_name : String
  pub container_ip : String

abbrev pub Instances : Type 0
Instances = Dict ℕ Entry

-- What the shared Redis holds of the cluster.
pub record Published : Type 0 where
  pub shard_count : Option ℕ
  pub members : Instances

-- The registry file, if it can be read, and the shared Redis, if it runs.
pub record Cluster : Type 0 where
  pub registry_file : Option Instances
  pub redis : Option Published

unfoldable pub is_shard : Role → Bool
is_shard shard = true
is_shard orchestrator = false

unfoldable pub load_registry : Cluster → Instances
load_registry w = elim w.registry_file [ none ↦ [] | some d ↦ d ]

unfoldable pub save_registry : Instances → Cluster → Cluster
save_registry d w = record w { registry_file = some d }

unfoldable pub register_instance : ℕ → Entry → Cluster → Cluster
unfolding load_registry save_registry
register_instance n e w = save_registry (set n e (load_registry w)) w

unfoldable pub unregister_instance : ℕ → Cluster → Cluster
unfolding load_registry save_registry
unregister_instance n w = save_registry (delete n (load_registry w)) w

abbrev pub base_port : ℕ
base_port = 8000

abbrev pub port_stride : ℕ
port_stride = 10

abbrev pub shared_redis_port : ℕ
shared_redis_port = 6399

unfoldable pub instance_port : ℕ → ℕ
instance_port n = base_port + (n - 1) * port_stride

-- The first number of a range to which the name of a container belongs: `belongs name i` is
-- `name.startswith(f"maestro-{i}-")`.
unfoldable pub owner_of : (String → ℕ → Bool) → String → ℕ → ℕ → Option ℕ
owner_of belongs name i zero = none
owner_of belongs name i (suc count) =
    let later = owner_of belongs name (i + 1) count in if belongs name i then some i else later

unfoldable pub detect_running : (String → ℕ → Bool) → List String → List ℕ
unfolding owner_of insert_number
detect_running belongs [] = []
detect_running belongs (name ∷ names) =
    let rest = detect_running belongs names in
    elim (owner_of belongs name 1 99) [ none ↦ rest | some i ↦ insert_number i rest ]

unfoldable pub maximum : List ℕ → ℕ
maximum [] = 0
maximum (n ∷ ns) = let m = maximum ns in if leb m n then n else m

unfoldable pub next_instance_number : List ℕ → Cluster → ℕ
unfolding maximum load_registry
next_instance_number running w =
    let known = running ++ keys (load_registry w) in if nonempty known then maximum known + 1 else 1

unfoldable pub shard_entries : Instances → ℕ
unfolding is_shard
shard_entries d = count_if (λ e. is_shard e.role) (values d)

-- max(1, n)
unfoldable pub at_least_one : ℕ → ℕ
at_least_one n = if leb 1 n then n else 1

unfoldable pub cluster_shard_count : Cluster → ℕ
unfolding shard_entries at_least_one load_registry
cluster_shard_count w = at_least_one (shard_entries (load_registry w))

-- `_broadcast_shard_count`: without a Redis nothing happens.
unfoldable pub broadcast_shard_count : Cluster → Cluster
unfolding cluster_shard_count load_registry
broadcast_shard_count w = elim w.redis [
  | none ↦ w
  | some p ↦ record w {
    redis = some (record { shard_count = some (cluster_shard_count w); members = load_registry w });
  }
]

unfoldable pub used_index : Entry → List ℕ
unfolding is_shard
used_index e = if is_shard e.role then (elim e.shard_index [ none ↦ [] | some i ↦ i ∷ [] ]) else []

unfoldable pub used_indices : List Entry → List ℕ
unfolding used_index
used_indices [] = []
used_indices (e ∷ es) = used_index e ++ used_indices es

-- `while shard_index in used_indices: shard_index += 1`, with fuel; `none` means that it ran out.
unfoldable pub free_index : ℕ → List ℕ → ℕ → Option ℕ
free_index zero used i = none
free_index (suc fuel) used i =
    let later = free_index fuel used (i + 1) in if contains used i then later else some i

-- ===== src/Instances/Runs.antt =====
-- Runs of commands of maestro/instances.py, and what one spawn does.
use maestro_orchestrator.Prelude.{
  ℕ, String, ◌≡◌, refl, ap, sym, ◌∙◌, false, Option, none, some, some-inj, List, [], number_keys,
  arith, inl, inr, Bool-cases, Option-cases, subst,
}
use maestro_orchestrator.Prelude.Lists.{contains}
use maestro_orchestrator.Prelude.Dict.{set, values}
use maestro_orchestrator.Instances.{
  InstanceInfo, Role, orchestrator, shard, Entry, Instances, Published, Cluster, load_registry,
  save_registry, register_instance, instance_port, next_instance_number, cluster_shard_count,
  broadcast_shard_count, used_indices,
}
use maestro_orchestrator.Instances.Spawn.{
  Environment, SpawnError, Spawned, spawned, not_spawned, instance_env, ensure_shared_redis,
  role_for, index_for, total_shards, start_instance, with_redis, spawn_numbered, spawn,
}
use maestro_orchestrator.Instances.Indices.{free_index_least}

abbrev pub registry_in : Option Instances → Instances
registry_in o = elim o [ none ↦ [] | some d ↦ d ]

pub registry_of_broadcast :
    (w : Cluster) → load_registry (broadcast_shard_count w) ≡ load_registry w
unfolding broadcast_shard_count load_registry
registry_of_broadcast w = elim (Option-cases w.redis) [
  | inl e ↦ rw (e, broadcast_shard_count) refl
  | inr (p, e) ↦ rw (e, broadcast_shard_count) refl
]

-- The registry is not touched before the instance is registered.
registry_of_redis :
    (env : Environment) (w : Cluster)
    → (ensure_shared_redis env w).0.registry_file ≡ w.registry_file
unfolding ensure_shared_redis
registry_of_redis env w = ground arith

-- What a spawn registers: a role and an index that go together.
abbrev Given : Cluster → Role → Option ℕ → Type 0
Given w role index =
    (x : ℕ)
    → index ≡ some x
    → (role ≡ shard) × (contains (used_indices (values (load_registry w))) x ≡ false)

index_for-Given :
    (role : Role) (w : Cluster) (index : Option ℕ)
    → index_for role w ≡ some index
    → Given w role index
unfolding index_for
index_for-Given orchestrator w index h x e = absurd (cc)
index_for-Given shard w index h x e =
    let used = used_indices (values (load_registry w)) in
    let (r, found, free, _) = free_index_least used in
    let given : some r ≡ index = some-inj (rw (found, index_for) at h) in
    let same : r ≡ x = some-inj (given ∙ e) in
    (refl, subst (λ i. contains used i ≡ false) same free)

-- The index is found: the search has fuel enough.
index_for_found : (role : Role) (w : Cluster) → (i : Option ℕ) × (index_for role w ≡ some i)
unfolding index_for
index_for_found orchestrator w = (none, refl)
index_for_found shard w =
    let (r, found, _, _) = free_index_least (used_indices (values (load_registry w))) in
    (some r, rw (found, index_for) refl)

-- What the registry is to hold of an instance that was spawned.
abbrev pub entry_of : InstanceInfo → Entry
entry_of i = record {
  role = i.role;
  shard_index = i.shard_index;
  human_name = i.human_name;
  port = i.port;
  container_ip = i.container_ip;
}

abbrev pub announced : Cluster → Published
announced w = record { shard_count = some (cluster_shard_count w); members = load_registry w }

-- What a spawn leaves of a registry: the same, or the same with the new instance, which is announced.
abbrev pub Effect : Instances → Cluster → ℕ → Role → Option ℕ → Spawned → Type 0
Effect d w' n role index (not_spawned e) = load_registry w' ≡ d
Effect d w' n role index (spawned i) =
    (i.number ≡ n)
    × (load_registry w' ≡ set i.number (entry_of i) d)
    × (w'.redis ≡ some (announced w'))
    × (i.role ≡ role)
    × (i.shard_index ≡ index)
    × (i.port ≡ instance_port i.number)

broadcast_lem :
    (w : Cluster) (p : Published)
    → w.redis ≡ some p
    → broadcast_shard_count w ≡ record w { redis = some (announced w) }
unfolding broadcast_shard_count
broadcast_lem w p e = rw (e, broadcast_shard_count) refl

start_instance_lem :
    (n : ℕ) (role : Role) (index : Option ℕ) (name : String) (total : ℕ) (env : Environment)
    (w : Cluster) (p : Published)
    → w.redis ≡ some p
    → let t = start_instance n role index name total env w in
      Effect (load_registry w) t.0 n role index t.1
unfolding start_instance register_instance save_registry load_registry cluster_shard_count
start_instance_lem n role index name total env w p e =
    elim (Bool-cases (env.port_free (instance_port n))) [
      | inr q ↦ rw (q, start_instance) refl
      | inl q ↦ elim (Bool-cases (env.up (instance_env n role index name total))) [
        | inr r ↦ rw (q, r, start_instance) refl
        | inl r ↦
            let w1 =
              register_instance n
                (record {
                  role = role;
                  shard_index = index;
                  human_name = name;
                  port = instance_port n;
                  container_ip = env.address;
                })
                w in
            rw (q, r, broadcast_lem w1 p e, start_instance) (refl, refl, refl, refl, refl, refl)
      ]
    ]

redis_of_ensure :
    (env : Environment) (w : Cluster)
    → (ensure_shared_redis env w).1 ≡ none
    → (p : Published) × ((ensure_shared_redis env w).0.redis ≡ some p)
unfolding ensure_shared_redis
redis_of_ensure env w ok = elim (Option-cases w.redis) [
  | inr (p, e) ↦ rw (e, ensure_shared_redis) (p, e)
  | inl e ↦
      let ok' = rw (e, ensure_shared_redis) at ok in
      elim (Bool-cases env.redis_port_free) [
        | inr q ↦ absurd (let bad = rw q at ok' in cc)
        | inl q ↦ elim (Bool-cases env.redis_starts) [
          | inr r ↦ absurd (let bad = rw (q, r) at ok' in cc)
          | inl r ↦ rw (e, q, r, ensure_shared_redis) (_, refl)
        ]
      ]
]

with_redis_lem :
    (n : ℕ) (role : Role) (index : Option ℕ) (name : String) (total : ℕ) (env : Environment)
    (d : Instances) (t : Cluster × Option SpawnError)
    → load_registry t.0 ≡ d
    → (t.1 ≡ none → (p : Published) × (t.0.redis ≡ some p))
    → let r = with_redis n role index name total env t in Effect d r.0 n role index r.1
unfolding with_redis
with_redis_lem n role index name total env d (w, some e) same up = same
with_redis_lem n role index name total env d (w, none) same up =
    let (p, found) = up refl in
    let r = with_redis n role index name total env (w, none) in
    subst (λ (x : Instances). Effect x r.0 n role index r.1) same
      (start_instance_lem n role index name total env w p found)

spawn_numbered_lem :
    (running : List ℕ) (n : ℕ) (name : String) (env : Environment) (w : Cluster)
    → let r = spawn_numbered running n name env w in
      (index : Option ℕ) × Given w (role_for running n w) index
      × Effect (load_registry w) r.0 n (role_for running n w) index r.1
unfolding spawn_numbered load_registry
spawn_numbered_lem running n name env w =
    let role = role_for running n w in
    let (index, found) = index_for_found role w in
    let ensured = ensure_shared_redis env w in
    let same : load_registry ensured.0 ≡ load_registry w =
      ap registry_in (registry_of_redis env w) in
    rw (found, spawn_numbered)
      (
        index,
        index_for-Given role w index found,
        with_redis_lem n role index name (total_shards role w) env (load_registry w) ensured same
            (redis_of_ensure env w),
      )

abbrev pub number_or : ℕ → Option ℕ → ℕ
number_or next number = elim number [ none ↦ next | some k ↦ k ]

abbrev Failed : Instances → Cluster → Spawned → Type 0
Failed d w (not_spawned e) = load_registry w ≡ d
Failed d w (spawned i) = Unit {0}

Effect-Failed :
    (d : Instances) (w : Cluster) (n : ℕ) (role : Role) (index : Option ℕ) (o : Spawned)
    → Effect d w n role index o
    → Failed d w o
Effect-Failed d w n role index (not_spawned e) h = h
Effect-Failed d w n role index (spawned i) h = tt

pub spawn_lem :
    (running : List ℕ) (number : Option ℕ) (name : String) (env : Environment) (w : Cluster)
    → let r = spawn running number name env w in
      ((e : SpawnError) → r.1 ≡ not_spawned e → load_registry r.0 ≡ load_registry w)
      × ((i : InstanceInfo)
          → r.1 ≡ spawned i
          → (i.number ≡ number_or (next_instance_number running w) number)
            × (load_registry r.0 ≡ set i.number (entry_of i) (load_registry w))
            × (r.0.redis ≡ some (announced r.0))
            × (i.port ≡ instance_port i.number)
            × ((x : ℕ)
                → i.shard_index ≡ some x
                → (i.role ≡ shard)
                  × (contains (used_indices (values (load_registry w))) x ≡ false)))
unfolding spawn
spawn_lem running number name env w =
    let n = number_or (next_instance_number running w) number in
    elim (Bool-cases env.compose) [
      | inr q ↦ rw (q, spawn) (λ e h. refl, λ i h. absurd (cc))
      | inl q ↦
          let (index, given, effect) = spawn_numbered_lem running n name env w in
          let r = spawn_numbered running n name env w in
          rw (q, spawn)
            (
              λ e h.
                  subst (λ (o : Spawned). Failed (load_registry w) r.0 o) h
                    (Effect-Failed (load_registry w) r.0 n (role_for running n w) index r.1 effect),
              λ i h.
                  let done =
                    subst
                      (λ (o : Spawned).
                        Effect (load_registry w) r.0 n (role_for running n w) index o)
                      h effect in
                  (
                    done.0,
                    done.1,
                    done.2,
                    done.5,
                    λ x e.
                        let (of_shard, free) = given x (sym done.4 ∙ e) in
                        (done.3 ∙ of_shard, free),
                  ),
            )
    ]

-- ===== src/Instances/Numbers.antt =====
-- The number of the next instance, and runs of commands of maestro/instances.py.
use maestro_orchestrator.Prelude.{
  ℕ, ◌≤◌, String, ◌≡◌, ◌≢◌, refl, sym, ◌∙◌, Bool, true, false, not, ◌&&◌, Option, none, some, List,
  [], ◌∷◌, number_keys, if◌then◌else◌, arith, subst,
}
use maestro_orchestrator.Prelude.Lists.{All, nonempty}
use maestro_orchestrator.Prelude.Dict.{get, delete}
use maestro_orchestrator.Instances.{
  Role, Instances, Cluster, load_registry, save_registry, unregister_instance, instance_port,
  shared_redis_port, broadcast_shard_count,
}
use maestro_orchestrator.Instances.Spawn.{
  Environment, Spawned, spawned, not_spawned, InstanceEnv, instance_env, spawn, stop, stop_all,
}
use maestro_orchestrator.Instances.Indices.{IsIndexed, set-IsIndexed, delete-IsIndexed}
use maestro_orchestrator.Instances.Runs.{spawn_lem, entry_of, registry_of_broadcast}

-- A command of a cluster, with what Docker answers to it.
pub data Command : Type 0 where
  spawns : List ℕ → Option ℕ → String → Environment → Command
  stops : Bool → ℕ → List ℕ → Command
  stops_all : Bool → List ℕ → Command

-- What a command leaves behind, also where it raises.
abbrev pub step : Command → Cluster → Cluster
step (spawns running number name env) w = (spawn running number name env w).0
step (stops compose n left) w = elim (stop compose n left w) [ none ↦ w | some w' ↦ w' ]
step (stops_all compose running) w = (stop_all compose running w).0

abbrev pub run : List Command → Cluster → Cluster
run [] w = w
run (c ∷ cs) w = run cs (step c w)

abbrev IsApart : Cluster → Type 0
IsApart w = IsIndexed (load_registry w)

spawn-IsApart :
    (running : List ℕ) (number : Option ℕ) (name : String) (env : Environment) (w : Cluster)
    (o : Spawned)
    → (spawn running number name env w).1 ≡ o
    → IsApart w
    → IsApart (spawn running number name env w).0
spawn-IsApart running number name env w (not_spawned e) h v =
    subst IsIndexed (sym ((spawn_lem running number name env w).0 e h)) v
spawn-IsApart running number name env w (spawned i) h v =
    let (_, stored, _, _, given) = (spawn_lem running number name env w).1 i h in
    subst IsIndexed (sym stored) (set-IsIndexed i.number (entry_of i) (load_registry w) v given)

without_redis :
    (b : Bool) (w : Cluster)
    → load_registry (if b then record w { redis = none } else w) ≡ load_registry w
unfolding load_registry
without_redis true w = refl
without_redis false w = refl

registry_of_unregister :
    (n : ℕ) (w : Cluster) → load_registry (unregister_instance n w) ≡ delete n (load_registry w)
unfolding unregister_instance save_registry load_registry
registry_of_unregister n w = refl

stop-registry :
    (n : ℕ) (left : List ℕ) (w : Cluster)
    → load_registry (step (stops true n left) w) ≡ delete n (load_registry w)
unfolding stop
stop-registry n left w =
    let w' = broadcast_shard_count (unregister_instance n w) in
    without_redis (not (nonempty left) && not (nonempty (load_registry w'))) w'
    ∙ registry_of_broadcast (unregister_instance n w)
    ∙ registry_of_unregister n w

nil-IsIndexed : IsIndexed []
unfolding get
nil-IsIndexed = record {
  apart = λ i j a b x p q h k. absurd (let bad : none ≡ some a = p in cc);
  of_shards = λ i a x p h. absurd (let bad : none ≡ some a = p in cc);
}

step-IsApart : (c : Command) (w : Cluster) → IsApart w → IsApart (step c w)
unfolding stop_all save_registry load_registry stop
step-IsApart (spawns running number name env) w v =
    spawn-IsApart running number name env w (spawn running number name env w).1 refl v
step-IsApart (stops true n left) w v =
    subst IsIndexed (sym (stop-registry n left w)) (delete-IsIndexed n (load_registry w) v)
step-IsApart (stops false n left) w v = v
step-IsApart (stops_all true running) w v = nil-IsIndexed
step-IsApart (stops_all false running) w v = v

-- If no two instances of the registry have one shard index, and only shards have one, then so it is after
-- any commands, whatever Docker answers.
pub run-IsIndexed :
    (cs : List Command) (w : Cluster)
    → IsIndexed (load_registry w)
    → IsIndexed (load_registry (run cs w))
run-IsIndexed [] w v = v
run-IsIndexed (c ∷ cs) w v = run-IsIndexed cs (step c w) (step-IsApart c w v)

-- The ports that an instance publishes, with the one of the database.
abbrev pub ports_of : InstanceEnv → List ℕ
ports_of e = e.maestro_port ∷ e.shard1_port ∷ e.shard2_port ∷ e.shard3_port ∷ e.postgres_port ∷ []

-- Two instances with different numbers from 1 to 967 publish no port twice, and none of their ports
-- is above 65535 or that of the shared Redis.
pub ports_apart :
    (n m : ℕ) (role role' : Role) (index index' : Option ℕ) (name name' : String) (total total' : ℕ)
    → 1 ≤ n
    → n ≤ 967
    → 1 ≤ m
    → m ≤ 967
    → n ≢ m
    → All
        (λ a.
          (a ≤ 65535)
          × (a ≢ shared_redis_port)
          × All (λ b. a ≢ b) (ports_of (instance_env m role' index' name' total')))
        (ports_of (instance_env n role index name total))
unfolding instance_env instance_port
ports_apart n m role role' index index' name name' total total' low high low' high' other =
    ground arith

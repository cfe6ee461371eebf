-- ===== src/Examples/Hosts.antt =====
-- A registry of two hosts, of which one holds the layers 0 to 1 of a model and the other 1 to 3.
use maestro_orchestrator.Prelude.{
  text_keys, leb, Bool-cases, ℕ, ◌≤◌, String, ◌≡◌, refl, inl, inr, true, some, List, [], ◌∷◌, arith,
}
use maestro_orchestrator.Prelude.Lists.{All, Any}
use maestro_orchestrator.Prelude.Dict.{get, values}
use maestro_orchestrator.Prelude.Int.{pos, ◌≤ℤ◌, ◌+ℤ◌}
use maestro_orchestrator.Prelude.Float.{Fixed, fixed_float}
use maestro_orchestrator.Registry.{
  WeightHost, Registry, available, is_down, shard_model, shard_range, weight_locality_score,
  has_affinity, update_reputation,
}
use maestro_orchestrator.Registry.Pipeline.{shard_nodes, hops, reach, build_inference_pipeline}
use maestro_orchestrator.Registry.Pipeline.Coverage.{Holds, hops_cover, hops_complete}
use maestro_orchestrator.Registry.Pipeline.Members.{Serves, build_inference_pipeline-Serves}
use maestro_orchestrator.Registry.Persistence.{
  IsPersisted, Op, register_op, unregister_op, mark_active_op,
}
use maestro_orchestrator.Registry.Reputation.{evicted_not_routed}

abbrev pub host_of : String → ℕ → ℕ → WeightHost Fixed
host_of id first last = record {
  node_id = id;
  host = "localhost";
  port = 8000;
  status = available;
  shards =
      record {
        shard_id = some id;
        model_id = some "llama";
        layer_range = some (pos first ∷ pos last ∷ []);
      }
      ∷ [];
  capabilities = "inference" ∷ [];
  total_memory_mb = 8000;
  used_memory_mb = 1000;
  mean_latency_ms = 120000;
  reputation_score = 10000;
  metadata = [];
  registered_at = "";
  last_heartbeat = "";
  domain_affinity = "code" ∷ [];
  warm = true;
  hardware_class = "local_gpu";
  last_active = "";
}

abbrev pub two_hosts : Registry Fixed
two_hosts = record {
  nodes = ("a", host_of "a" 0 1) ∷ ("b", host_of "b" 1 3) ∷ [];
  files = ("a", host_of "a" 0 1) ∷ ("b", host_of "b" 1 3) ∷ [];
}

two_hosts-IsPersisted : IsPersisted two_hosts
unfolding get
two_hosts-IsPersisted = record {
  same = λ k. refl;
  nodes_keyed = (refl, (refl, tt));
  files_keyed = (refl, (refl, tt));
  unique = (refl, (refl, tt));
}

hops_cover_example : Any (Holds (pos 3)) (hops "llama" [] two_hosts)
unfolding hops shard_nodes is_down shard_model shard_range weight_locality_score has_affinity ◌+ℤ◌
hops_cover_example = hops_cover "llama" [] two_hosts 3 (omega arith)

held_up_to_3 :
    (l : ℕ) → l ≤ 3 → Any (Holds (pos l)) (shard_nodes "llama" [] (values two_hosts.nodes))
unfolding shard_nodes is_down shard_model shard_range
held_up_to_3 l h = elim (Bool-cases (leb l 1)) [
  | inl low ↦ inl (omega arith, ground arith)
  | inr up ↦ inr (inl (ground arith, ground arith))
]

hops_complete_example : pos 3 +ℤ pos 1 ≤ℤ reach (pos 0) (hops "llama" [] two_hosts)
unfolding shard_nodes is_down shard_model shard_range ◌+ℤ◌
hops_complete_example =
    hops_complete "llama" [] two_hosts (omega arith, (omega arith, tt)) 3 held_up_to_3

build_inference_pipeline-Serves_example :
    All (Serves "llama" (values two_hosts.nodes)) (build_inference_pipeline "llama" [] two_hosts)
build_inference_pipeline-Serves_example = build_inference_pipeline-Serves "llama" [] two_hosts

abbrev session : List (Op Fixed)
session =
    register_op "10:00" (host_of "a" 0 1)
    ∷ register_op "10:01" (host_of "b" 1 3)
    ∷ mark_active_op "10:02" "a"
    ∷ unregister_op "b"
    ∷ []

evicted_not_routed_example :
    All
      (λ n. ¬ (n.node_id ≡ "a"))
      (build_inference_pipeline "llama" [] (update_reputation "a" 2000 two_hosts))
evicted_not_routed_example =
    evicted_not_routed two_hosts "a" 2000 two_hosts-IsPersisted refl "llama" []

-- ===== src/Dispatch/Health.antt =====
-- What `/health` of maestro/api_cluster.py counts.
use maestro_orchestrator.Prelude.{ℕ, String, ◌≡◌, refl, Option, List, [], ◌∷◌, map, ◌==◌, text_keys}
use maestro_orchestrator.Prelude.{Option-cases, inl, inr, arith}
use maestro_orchestrator.Prelude.Lists.{count_if}
use maestro_orchestrator.Prelude.Dict.{Dict, values}
use maestro_orchestrator.Dispatch.{Node, health_status, sort_by_index, cluster_health}

none_healthy :
    (net : String → Option Node) (urls : List (ℕ × String))
    → count_if (λ s. s == "healthy") (values (map (λ e. (e.0, health_status net e.1)) urls)) ≡ 0
unfolding health_status
none_healthy net [] = refl
none_healthy net ((i, url) ∷ urls) = elim (Option-cases (net url)) [
  | inl q ↦ rw (health_status, q) (let rest = none_healthy net urls in omega arith)
  | inr (n, q) ↦ rw (health_status, q) (let rest = none_healthy net urls in omega arith)
]

-- No shard is ever counted as healthy: the status that a node answers takes the place of "healthy".
no_shard_healthy :
    (net : String → Option Node) (urls : Dict ℕ String) → (cluster_health net urls).1 ≡ 0
unfolding cluster_health
no_shard_healthy net urls = none_healthy net (sort_by_index urls)

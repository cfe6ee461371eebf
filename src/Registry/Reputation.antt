-- ===== src/Registry/Reputation.antt =====
-- How status, warmth and locality of a host (maestro/shard_registry.py) steer the routing.
use maestro_orchestrator.Prelude.{
  ◌+◌, String, ◌≡◌, refl, true, some, none, List, arith, if◌then◌else◌, Option-cases, text_keys,
  inl, inr,
}
use maestro_orchestrator.Prelude.Lists.{All, All-map}
use maestro_orchestrator.Prelude.Dict.{get, get-set_self, get_of_value}
use maestro_orchestrator.Prelude.Float.{Float}
use maestro_orchestrator.Registry.{
  WeightHost, Registry, change, status_for, update_reputation, is_down, has_affinity,
  weight_locality_score,
}
use maestro_orchestrator.Registry.Persistence.{IsPersisted, change-IsPersisted}
use maestro_orchestrator.Registry.Pipeline.{build_inference_pipeline}
use maestro_orchestrator.Registry.Pipeline.Members.{build_inference_pipeline-Serves}

module _ {F : Type 0} where
  -- The locality score is 25 hundredths, with 50 more for a warm host and 25 more for a matching
  -- domain: warmth counts before affinity.
  pub weight_locality_score-sum :
      (h : WeightHost F) (domains : List String)
      → weight_locality_score h domains
        ≡ 25 + (if h.warm then 50 else 0) + (if has_affinity h domains then 25 else 0)
  unfolding weight_locality_score
  weight_locality_score-sum h domains = ground arith

  change_hit :
      (k : String) (g : WeightHost F → WeightHost F) (r : Registry F) {n : WeightHost F}
      → get k r.nodes ≡ some n
      → get k (change k g r).0.nodes ≡ some (g n)
  unfolding change
  change_hit k g r {n} q = rw (q, change) (get-set_self k (g n) r.nodes)

  change_miss :
      (k : String) (g : WeightHost F → WeightHost F) (r : Registry F)
      → get k r.nodes ≡ none
      → get k (change k g r).0.nodes ≡ none
  unfolding change
  change_miss k g r q = rw (q, change) q

module _ {F : Type 0} ⦃f : Float F⦄ where
  -- What is under the id after a score below 0.3 is evicted.
  low_score_evicts :
      (r : Registry F) (k : String) (score : F) {n : WeightHost F}
      → f.lt score (f.lit 3 1) ≡ true
      → get k (update_reputation k score r).nodes ≡ some n
      → is_down n.status ≡ true
  unfolding update_reputation is_down
  low_score_evicts r k score {n} low q = elim (Option-cases (get k r.nodes)) [
    | inl e ↦
        let miss =
          change_miss k
            (λ m. record m { reputation_score = score; status = status_for score m.status }) r e in
        absurd (cc)
    | inr (m, e) ↦
        let hit =
          change_hit k
            (λ m. record m { reputation_score = score; status = status_for score m.status }) r e in
        ground arith
  ]

  -- In a registry whose table and files agree, with each host once and under its own id, a host whose
  -- reputation is set below 0.3 is in no inference pipeline.
  pub evicted_not_routed :
      (r : Registry F) (k : String) (score : F)
      → IsPersisted r
      → f.lt score (f.lit 3 1) ≡ true
      → (model : String) (domains : List String)
      → All
          (λ n. ¬ (n.node_id ≡ k))
          (build_inference_pipeline model domains (update_reputation k score r))
  unfolding update_reputation
  evicted_not_routed r k score h low model domains =
      let r' = update_reputation k score r in
      let h' : IsPersisted r' = change-IsPersisted k _ r (λ n. refl) h in
      All-map
        (λ n s id.
          let found =
            get_of_value (λ (m : WeightHost F). m.node_id) r'.nodes n h'.unique h'.nodes_keyed
              s.0 in
          let down = low_score_evicts r k score low (rw id at found) in let up = s.1 in cc)
        (build_inference_pipeline model domains r')
        (build_inference_pipeline-Serves model domains r')

-- ===== src/Registry/Pipeline/Members.antt =====
-- Which hosts `build_inference_pipeline` (maestro/shard_registry.py) returns.
use maestro_orchestrator.Prelude.{
  ℕ, zero, suc, String, ◌≡◌, refl, inl, inr, false, some, List, [], ◌∷◌, map, ◌==◌, Bool-cases,
  Option-cases, text_keys, eq_iff,
}
use maestro_orchestrator.Prelude.Lists.{length, All, Any, All-keep, All-map, All-append, Any-map}
use maestro_orchestrator.Prelude.Dict.{values}
use maestro_orchestrator.Prelude.Int.{ℤ, pos}
use maestro_orchestrator.Prelude.Float.{Float}
use maestro_orchestrator.Registry.{Shard, WeightHost, Registry, shard_model, shard_range, is_down}
use maestro_orchestrator.Registry.Pipeline.{
  Candidate, assemble, hops, host_candidates, shard_nodes, sort_candidates,
  build_inference_pipeline,
}
use maestro_orchestrator.Registry.Pipeline.Rounds.{
  Picked-All, pick_lem, assemble_stop, assemble_step, after, left,
}
use maestro_orchestrator.Registry.Pipeline.Coverage.{sort_candidates-All}

-- A shard of the model, with a layer range of two ends.
abbrev pub IsShardOf : String → Shard → Type 0
IsShardOf model s = (shard_model s ≡ model) × (range : ℤ × ℤ) × (shard_range s ≡ some range)

-- A registered host that is neither offline nor evicted and has a shard of the model.
abbrev pub Serves : {F : Type 0} → String → List (WeightHost F) → WeightHost F → Type 0
Serves model ns n =
    Any (λ m. m ≡ n) ns × (is_down n.status ≡ false) × Any (IsShardOf model) n.shards

found_again :
    (model : String) (ss : List Shard) (s : Shard)
    → IsShardOf model s
    → Any (λ t. t ≡ s) ss
    → Any (IsShardOf model) ss
found_again model ss s h a = Any-map (λ t e. rw e h) ss a

module _ {F : Type 0} (model : String) (domains : List String) where
  HasShard : WeightHost F → Candidate F → Type 0
  HasShard n c = (c.node ≡ n) × Any (IsShardOf model) n.shards

  host_candidates-HasShard :
      (n : WeightHost F) (ss : List Shard)
      → ((s : Shard) → IsShardOf model s → Any (λ t. t ≡ s) ss → Any (IsShardOf model) n.shards)
      → All (HasShard n) (host_candidates model domains n ss)
  unfolding host_candidates HasShard
  host_candidates-HasShard n [] ok = tt
  host_candidates-HasShard n (s ∷ rest) ok =
      let others = host_candidates-HasShard n rest (λ t h a. ok t h (inr a)) in
      elim (Bool-cases (shard_model s == model)) [
        | inl e ↦ elim (Option-cases (shard_range s)) [
          | inl q ↦ rw (e, q) others
          | inr (range, q) ↦
              rw (e, q)
                ((refl, ok s ((eq_iff (shard_model s) model).0 e, range, q) (inl refl)), others)
        ]
        | inr e ↦ rw e others
      ]

  shard_nodes-Serves :
      (ns : List (WeightHost F)) → All (λ c. Serves model ns c.node) (shard_nodes model domains ns)
  unfolding shard_nodes HasShard
  shard_nodes-Serves [] = tt
  shard_nodes-Serves (n ∷ ns) =
      let later =
        All-map {Q = λ c. Serves model (n ∷ ns) c.node} (λ c h. (inr h.0, h.1, h.2))
          (shard_nodes model domains ns) (shard_nodes-Serves ns) in
      elim (Bool-cases (is_down n.status)) [
        | inl e ↦ rw e later
        | inr e ↦ rw e (
            All-append (λ c. Serves model (n ∷ ns) c.node)
              (host_candidates model domains n n.shards) (shard_nodes model domains ns)
              (All-map (λ c h. rw h.0 (inl refl, e, h.1)) (host_candidates model domains n n.shards)
                (host_candidates-HasShard n n.shards (found_again model n.shards)))
              later)
      ]

module _ {F : Type 0} ⦃f : Float F⦄ where
  assemble-All :
      (P : Candidate F → Type 0) (n : ℕ) (cur : ℤ) (xs : List (Candidate F))
      → All P xs
      → All P (assemble n cur xs)
  unfolding assemble
  assemble-All P zero cur xs h = tt
  assemble-All P (suc n) cur xs h = elim (pick_lem cur xs) [
    | inl (q, _) ↦ rw (assemble_stop n cur xs q) tt
    | inr (b, rest, q, p) ↦
        let (hb, hrest) = Picked-All P p h in
        rw (assemble_step n cur xs q)
          (hb, assemble-All P n (after b) (left b rest) (All-keep P _ rest hrest))
  ]

  map-All :
      (P : WeightHost F → Type 0) (cs : List (Candidate F))
      → All (λ c. P c.node) cs
      → All P (map (λ c. c.node) cs)
  map-All P [] h = tt
  map-All P (c ∷ cs) h = (h.0, map-All P cs h.1)

  -- Every host of an inference pipeline is registered, is neither offline nor evicted, and declares
  -- a shard of the model with a layer range.
  pub build_inference_pipeline-Serves :
      (model : String) (domains : List String) (r : Registry F)
      → All (Serves model (values r.nodes)) (build_inference_pipeline model domains r)
  unfolding build_inference_pipeline
  build_inference_pipeline-Serves model domains r =
      let all = shard_nodes model domains (values r.nodes) in
      let sorted = sort_candidates all in
      map-All (Serves model (values r.nodes)) (hops model domains r) (
        assemble-All (λ c. Serves model (values r.nodes) c.node) (length sorted) (pos 0) sorted
          (sort_candidates-All (λ c. Serves model (values r.nodes) c.node) all
            (shard_nodes-Serves model domains (values r.nodes))))

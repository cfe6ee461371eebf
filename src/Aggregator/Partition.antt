-- ===== src/Aggregator/Partition.antt =====
-- `_cluster_by_similarity` of maestro/aggregator.py divides the agents.
use maestro_orchestrator.Prelude.{
  suc, ◌+◌, String, ◌≡◌, refl, List, [], ◌∷◌, arith, ◌==◌, Bool-cases, inl, inr, text_keys, ltb,
  ◌∙◌,
}
use maestro_orchestrator.Prelude.Lists.{length, count_if-append}
use maestro_orchestrator.Prelude.Float.{Float}
use maestro_orchestrator.Dissent.{PairwiseDissent}
use maestro_orchestrator.Aggregator.{
  all_clusters, insert_by_length, sort_by_length, flat, split_clusters, count,
  cluster_by_similarity, dist_map, is_close,
}
use maestro_orchestrator.Aggregator.Clusters.{all_clusters_counts}

insert_by_length_counts :
    (a : String) (c : List String) (cs : List (List String))
    → count a (flat (insert_by_length c cs)) ≡ count a c + count a (flat cs)
unfolding insert_by_length
insert_by_length_counts a c [] = count_if-append (λ y. y == a) c []
insert_by_length_counts a c (d ∷ ds) = elim (Bool-cases (ltb (length c) (length d))) [
  | inl e ↦ rw e (
      omega (
        arith,
        insert_by_length_counts a c ds,
        count_if-append (λ y. y == a) d (flat (insert_by_length c ds)),
        count_if-append (λ y. y == a) d (flat ds),
      ))
  | inr e ↦ rw e (count_if-append (λ y. y == a) c (flat (d ∷ ds)))
]

sort_by_length_counts :
    (a : String) (cs : List (List String)) → count a (flat (sort_by_length cs)) ≡ count a (flat cs)
unfolding sort_by_length
sort_by_length_counts a [] = refl
sort_by_length_counts a (c ∷ cs) = omega (
  arith,
  insert_by_length_counts a c (sort_by_length cs),
  sort_by_length_counts a cs,
  count_if-append (λ y. y == a) c (flat cs),
)

split_clusters_counts :
    (a : String) (cs : List (List String))
    → count a (split_clusters cs).0 + count a (split_clusters cs).1 ≡ count a (flat cs)
unfolding split_clusters
split_clusters_counts a [] = refl
split_clusters_counts a (c ∷ cs) = omega (arith, count_if-append (λ y. y == a) c (flat cs))

module _ {F : Type 0} ⦃f : Float F⦄ where
  -- The largest cluster and the other agents together are the agents that were given, each as often
  -- as it was given.
  pub cluster_by_similarity_partitions :
      (names : List String) (ps : List (PairwiseDissent F)) (a : String)
      → let t = cluster_by_similarity names ps in count a t.0 + count a t.1 ≡ count a names
  unfolding cluster_by_similarity
  cluster_by_similarity_partitions [] ps a = refl
  cluster_by_similarity_partitions (x ∷ names) ps a =
      let cs = all_clusters (is_close (dist_map ps [])) (suc (length names)) (x ∷ names) in
      split_clusters_counts a (sort_by_length cs)
      ∙ sort_by_length_counts a cs
      ∙ all_clusters_counts (is_close (dist_map ps [])) (suc (length names)) (x ∷ names) a
          (omega arith)

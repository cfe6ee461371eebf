-- ===== src/Examples/Sessions.antt =====
-- A session of three agents.
use maestro_orchestrator.Prelude.{
  ℕ, ◌+◌, String, ◌≡◌, refl, Bool, false, none, some, List, [], ◌∷◌, arith, text_keys, ◌==◌,
  if◌then◌else◌,
}
use maestro_orchestrator.Prelude.Lists.{All}
use maestro_orchestrator.Prelude.Dict.{Dict, get, set}
use maestro_orchestrator.Prelude.Float.{Fixed, fixed_float}
use maestro_orchestrator.Dissent.{semantic_distance, DissentReport, analyze, pairwise_of}
use maestro_orchestrator.Drift.{DriftReport, NcgOutput, analyze_drift}
use maestro_orchestrator.Aggregator.{
  medium_confidence, by_name, in_order, agreement_by_clusters, is_close, distance_or_one, dist_map,
  all_clusters, scan, remove, sort_by_length, split_clusters, response_dict, response_of, count,
  grow, cluster_by_similarity, ratio, analyze_agreement, confidence_of,
}
use maestro_orchestrator.Aggregator.Clusters.{grow_closed}
use maestro_orchestrator.Aggregator.Partition.{cluster_by_similarity_partitions}
use maestro_orchestrator.Aggregator.Result.{
  Aggregate, aggregate_responses, ensemble_merge, strives_for_synthesis,
}

abbrev distance : String → String → Fixed
distance a b = if a == b then 0 else 8000

abbrev words : String → ℕ
words t = 3

abbrev outputs : Dict String String
outputs = ("gpt", "yes") ∷ ("claude", "yes") ∷ ("gemini", "no") ∷ []

abbrev report : DissentReport Fixed
report = analyze distance "?" outputs

abbrev headless : NcgOutput Fixed
headless = record { content = "maybe"; model = "ncg"; logprobs_available = false; logprobs = [] }

abbrev drift : DriftReport Fixed
drift = analyze_drift distance words "?" headless outputs (some 9000)

abbrev split_words : String → List String
split_words text = if text == "a b" then "a" ∷ "b" ∷ [] else "b" ∷ "b" ∷ "c" ∷ []

two_thirds : semantic_distance {F = Fixed} none split_words "a b" "b b c" ≡ 6667
unfolding semantic_distance
two_thirds = refl

abbrev same_initial : List String → String → Bool
same_initial cluster a = a == "b"

grow_closed_example :
    All
      (λ a. same_initial (grow same_initial 3 ("a" ∷ []) ("b" ∷ "c" ∷ [])).0 a ≡ false)
      (grow same_initial 3 ("a" ∷ []) ("b" ∷ "c" ∷ [])).1
grow_closed_example = grow_closed same_initial 3 ("a" ∷ []) ("b" ∷ "c" ∷ []) (omega arith)

cluster_by_similarity_partitions_example :
    let t = cluster_by_similarity ("gpt" ∷ "claude" ∷ "gemini" ∷ []) report.pairwise in
    count "gpt" t.0 + count "gpt" t.1 ≡ count "gpt" ("gpt" ∷ "claude" ∷ "gemini" ∷ [])
cluster_by_similarity_partitions_example =
    cluster_by_similarity_partitions ("gpt" ∷ "claude" ∷ "gemini" ∷ []) report.pairwise "gpt"

-- Two of four responses agree.
abbrev split_vote : Aggregate Fixed
split_vote = record {
  consensus = ensemble_merge (in_order ("yes" ∷ "no" ∷ "yes" ∷ "maybe" ∷ []));
  majority_view = some "yes";
  minority_view = some ("no" ∷ "maybe" ∷ []);
  confidence = medium_confidence;
  agreement_ratio = 5000;
  quorum_met = false;
  note = strives_for_synthesis;
  dissent = none;
  ncg_benchmark = none;
}

split_vote_lem :
    aggregate_responses (in_order ("yes" ∷ "no" ∷ "yes" ∷ "maybe" ∷ [])) none none ≡ some split_vote
unfolding aggregate_responses analyze_agreement
split_vote_lem = refl

-- Two of four agents agree, by their distances.
abbrev four_outputs : Dict String String
four_outputs = ("gpt", "yes") ∷ ("claude", "yes") ∷ ("gemini", "no") ∷ ("llama", "maybe") ∷ []

abbrev four_report : DissentReport Fixed
four_report = analyze distance "?" four_outputs

abbrev half : Aggregate Fixed
half = record {
  consensus = ensemble_merge (by_name four_outputs);
  majority_view = some "yes";
  minority_view = some ("no" ∷ "maybe" ∷ []);
  confidence = medium_confidence;
  agreement_ratio = 5000;
  quorum_met = false;
  note = strives_for_synthesis;
  dissent = some four_report;
  ncg_benchmark = none;
}

half_lem : aggregate_responses (by_name four_outputs) none (some four_report) ≡ some half
unfolding aggregate_responses analyze_agreement agreement_by_clusters analyze pairwise_of is_close
    distance_or_one dist_map all_clusters grow scan remove sort_by_length split_clusters
    response_dict response_of get set cluster_by_similarity ratio confidence_of
half_lem = refl

-- All agents agree, on an answer far from the baseline.
abbrev chorus : Dict String String
chorus = ("gpt", "yes") ∷ ("claude", "yes") ∷ ("gemini", "yes") ∷ []

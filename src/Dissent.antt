-- ===== src/Dissent.antt =====
-- maestro/dissent.py: the distance of two texts, and `DissentAnalyzer.analyze` over a distance. The
-- responses are the entries of the dict that `analyze` is given, so no name comes twice.
use maestro_orchestrator.Prelude.{
  ℕ, zero, suc, not, ◌+◌, ◌-◌, String, Bool, true, false, Option, none, some, List, [], ◌∷◌, ◌++◌,
  map, ◌==◌, ◌||◌, ◌&&◌, if◌then◌else◌, leb, text_keys,
}
use maestro_orchestrator.Prelude.Lists.{length, keep, contains, nonempty}
use maestro_orchestrator.Prelude.Dict.{Dict, get, keys}
use maestro_orchestrator.Prelude.Float.{Float, mean, clamped}
pub mod Outliers
pub mod Distance

pub record PairwiseDissent (F : Type 0) : Type 0 where
  pub agent_a : String
  pub agent_b : String
  pub distance : F

pub record AgentDissentProfile (F : Type 0) : Type 0 where
  pub agent_name : String
  pub mean_distance_to_others : F
  pub is_outlier : Bool

pub data DissentLevel : Type 0 where
  no_dissent low moderate high : DissentLevel

pub record DissentReport (F : Type 0) : Type 0 where
  pub prompt : String
  pub internal_agreement : F
  pub pairwise : List (PairwiseDissent F)
  pub agent_profiles : List (AgentDissentProfile F)
  pub outlier_agents : List String
  pub dissent_level : DissentLevel
  pub agent_count : ℕ

-- set(xs): the items, each once.
unfoldable pub word_set : List String → List String
word_set [] = []
word_set (x ∷ xs) = let rest = word_set xs in if contains rest x then rest else x ∷ rest

unfoldable pub common : List String → List String → ℕ
common a b = length (keep (contains b) a)

-- The sizes of the intersection and of the union of two sets.
abbrev pub overlap : List String → List String → ℕ × ℕ
overlap a b = (common a b, length a + length b - common a b)

module _ {F : Type 0} ⦃f : Float F⦄ where
  -- The fallback without an embedding model, on the sets of words.
  unfoldable pub word_distance : List String → List String → F
  unfolding common
  word_distance a b =
      if not (nonempty a) && not (nonempty b)
      then f.lit 0 0
      else (let (both, either) = overlap a b in
          f.round4 (f.sub (f.lit 1 0) (f.div (f.lit both 0) (f.lit either 0))))

  -- `_semantic_distance`, with the cosine similarity of the embeddings where there is a model. `words`
  -- is text.lower().split().
  unfoldable pub semantic_distance :
      Option (String → String → F) → (String → List String) → String → String → F
  unfolding word_distance word_set
  semantic_distance none words a b = word_distance (word_set (words a)) (word_set (words b))
  semantic_distance (some similarity) words a b =
      f.round4 (f.sub (f.lit 1 0) (clamped (similarity a b)))

-- itertools.combinations(xs, 2)
module _ {ℓ} {A : Type ℓ} where
  pub pairs : List A → List (A × A)
  pairs [] = []
  pairs (x ∷ xs) = map (λ y. (x, y)) xs ++ pairs xs

module _ {F : Type 0} ⦃f : Float F⦄ where
  -- agent_distances[name] when the loop over the pairs is through.
  unfoldable pub agent_distances : String → List (PairwiseDissent F) → List F
  agent_distances name [] = []
  agent_distances name (p ∷ ps) =
      (if p.agent_a == name then p.distance ∷ [] else [])
      ++ (if p.agent_b == name then p.distance ∷ [] else [])
      ++ agent_distances name ps

  -- sum(xs) / len(xs) if xs else 0.0
  unfoldable pub mean_or_zero : List F → F
  mean_or_zero [] = f.lit 0 0
  mean_or_zero (x ∷ xs) = mean (x ∷ xs)

  unfoldable pub profile : Bool → F → String → List (PairwiseDissent F) → AgentDissentProfile F
  unfolding mean_or_zero agent_distances
  profile active threshold name ps =
      let d = f.round4 (mean_or_zero (agent_distances name ps)) in
      record {
        agent_name = name;
        mean_distance_to_others = d;
        is_outlier = active && f.lt threshold d;
      }

  unfoldable pub outlier_threshold : List F → F
  unfolding mean_or_zero
  outlier_threshold means =
      let group_mean = mean_or_zero means in
      if f.lt (f.lit 0 0) group_mean then f.mul group_mean (f.lit 15 1) else f.lit 5 1

  unfoldable pub outlier_names : List (AgentDissentProfile F) → List String
  outlier_names [] = []
  outlier_names (p ∷ ps) =
      if p.is_outlier then p.agent_name ∷ outlier_names ps else outlier_names ps

  unfoldable pub level_of : F → DissentLevel
  level_of d =
      if f.lt d (f.lit 1 1)
      then no_dissent
      else if f.lt d (f.lit 3 1)
      then low
      else if f.lt d (f.lit 6 1)
      then moderate
      else high

  module _ (distance : String → String → F) where
    unfoldable pub pairwise_of : Dict String String → List (PairwiseDissent F)
    unfolding pairs
    pairwise_of responses =
        map (λ p. record { agent_a = p.0.0; agent_b = p.1.0; distance = distance p.0.1 p.1.1 })
          (pairs responses)

    unfoldable pub analyze : String → Dict String String → DissentReport F
    unfolding pairwise_of profile outlier_threshold outlier_names level_of
    analyze prompt responses =
        let agents = keys responses in
        let pairwise = pairwise_of responses in
        let means = map (λ a. mean_or_zero (agent_distances a pairwise)) agents in
        let profiles =
          map (λ a. profile (leb 3 (length agents)) (outlier_threshold means) a pairwise) agents in
        let mean_pairwise = mean_or_zero (map (λ p. p.distance) pairwise) in
        record {
          prompt = prompt;
          internal_agreement = f.round4 (f.sub (f.lit 1 0) mean_pairwise);
          pairwise = pairwise;
          agent_profiles = profiles;
          outlier_agents = outlier_names profiles;
          dissent_level = level_of mean_pairwise;
          agent_count = length agents;
        }

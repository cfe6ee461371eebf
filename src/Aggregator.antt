-- ===== src/Aggregator.antt =====
-- maestro/aggregator.py: clusters of agents by distance, the level of agreement, and the quorum.
-- `while changed` and `while remaining` run on fuel: a round of the first takes an agent out or is
-- the last, and a round of the second takes one out.
use Prim.Native.String.{◌++◌ as join_text}
use maestro_orchestrator.Prelude.{
  ℕ, zero, suc, ◌+◌, String, Bool, true, false, not, Option, none, some, List, [], ◌∷◌, ◌++◌, map,
  ◌==◌, ◌||◌, ◌&&◌, if◌then◌else◌, ltb, HasEquality, text_keys, eq_iff, ◌≡◌, ◌↔◌, arith, ap,
}
use maestro_orchestrator.Prelude.Lists.{length, keep, count_if, nonempty}
use maestro_orchestrator.Prelude.Dict.{Dict, get, set, values}
use maestro_orchestrator.Prelude.Float.{Float, mean}
use maestro_orchestrator.Dissent.{PairwiseDissent, AgentDissentProfile, DissentReport}
pub mod Clusters
pub mod Partition
pub mod Quorum
pub mod Result
pub mod Levels

pub data Confidence : Type 0 where
  high_confidence medium_confidence low_confidence : Confidence

-- A pair of names as a key.
abbrev pair_beq : String × String → String × String → Bool
pair_beq a b = (a.0 == b.0) && (a.1 == b.1)

pair_beq_iff : (a b : String × String) → (pair_beq a b ≡ true) ↔ (a ≡ b)
pair_beq_iff a b = (
  λ h. ground (arith, eq_iff a.0 b.0, eq_iff a.1 b.1),
  λ h. ground (
    arith,
    eq_iff a.0 b.0,
    eq_iff a.1 b.1,
    ap (λ (t : String × String). t.0) h,
    ap (λ (t : String × String). t.1) h,
  ),
)

instance abbrev pair_eq : HasEquality (String × String)
pair_eq = record { equals = pair_beq; equals_iff = pair_beq_iff }

-- xs.remove(a): the first item that equals `a` goes.
unfoldable pub remove : String → List String → List String
remove a [] = []
remove a (x ∷ xs) = if x == a then xs else x ∷ remove a xs

module _ {F : Type 0} ⦃f : Float F⦄ where
  abbrev pub quorum_threshold : F
  quorum_threshold = f.lit 66 2

  abbrev pub similarity_threshold : F
  similarity_threshold = f.lit 5 1

  unfoldable pub dist_map :
      List (PairwiseDissent F) → Dict (String × String) F → Dict (String × String) F
  dist_map [] d = d
  dist_map (p ∷ ps) d =
      dist_map ps (set (p.agent_b, p.agent_a) p.distance (set (p.agent_a, p.agent_b) p.distance d))

  unfoldable pub distance_or_one : Dict (String × String) F → String → String → F
  distance_or_one d a m = elim (get (a, m) d) [ none ↦ f.lit 1 0 | some x ↦ x ]

  -- The mean distance to the members is below the threshold.
  unfoldable pub is_close : Dict (String × String) F → List String → String → Bool
  unfolding distance_or_one
  is_close d cluster a = f.lt (mean (map (distance_or_one d a) cluster)) similarity_threshold

module _ (close : List String → String → Bool) where
  -- `for agent in remaining[:]`: the cluster, the remaining agents and `changed` behind the loop.
  unfoldable pub scan :
      List String → List String → List String → Bool → List String × List String × Bool
  scan [] cluster remaining changed = (cluster, remaining, changed)
  scan (a ∷ rest) cluster remaining changed =
      let joins = close cluster a in
      scan rest (if joins then cluster ++ a ∷ [] else cluster)
        (if joins then remove a remaining else remaining) (joins || changed)

  -- `while changed`
  unfoldable pub grow : ℕ → List String → List String → List String × List String
  unfolding scan
  grow zero cluster remaining = (cluster, remaining)
  grow (suc rounds) cluster remaining =
      let (c, r, changed) = scan remaining cluster remaining false in
      let again = grow rounds c r in if changed then again else (c, r)

  -- `while remaining`
  unfoldable pub all_clusters : ℕ → List String → List (List String)
  unfolding grow
  all_clusters zero remaining = []
  all_clusters (suc rounds) [] = []
  all_clusters (suc rounds) (a ∷ rest) =
      let (c, r) = grow (suc (length rest)) (a ∷ []) rest in c ∷ all_clusters rounds r

-- clusters.sort(key=len, reverse=True), which keeps the order of clusters of one length.
unfoldable pub insert_by_length : List String → List (List String) → List (List String)
insert_by_length c [] = c ∷ []
insert_by_length c (d ∷ ds) =
    if ltb (length c) (length d) then d ∷ insert_by_length c ds else c ∷ d ∷ ds

unfoldable pub sort_by_length : List (List String) → List (List String)
unfolding insert_by_length
sort_by_length [] = []
sort_by_length (c ∷ cs) = insert_by_length c (sort_by_length cs)

abbrev pub flat : List (List String) → List String
flat [] = []
flat (c ∷ cs) = c ++ flat cs

-- clusters[0], and the members of the others.
unfoldable pub split_clusters : List (List String) → List String × List String
split_clusters [] = ([], [])
split_clusters (c ∷ cs) = (c, flat cs)

module _ {F : Type 0} ⦃f : Float F⦄ where
  unfoldable pub cluster_by_similarity :
      List String → List (PairwiseDissent F) → List String × List String
  unfolding dist_map is_close all_clusters sort_by_length split_clusters
  cluster_by_similarity [] ps = ([], [])
  cluster_by_similarity (a ∷ names) ps =
      split_clusters
        (sort_by_length (all_clusters (is_close (dist_map ps [])) (suc (length names)) (a ∷ names)))

  -- The level of an agreement ratio.
  unfoldable pub confidence_of : F → Confidence
  confidence_of ratio =
      if f.le quorum_threshold ratio
      then high_confidence
      else if f.le (f.lit 5 1) ratio
      then medium_confidence
      else low_confidence

-- The responses of `analyze_agreement`: a dict or a list.
pub data Responses : Type 0 where
  by_name : Dict String String → Responses
  in_order : List String → Responses

unfoldable pub response_list : Responses → List String
response_list (by_name d) = values d
response_list (in_order l) = l

-- dict(zip(names, responses))
unfoldable pub zip_dict : List String → List String → Dict String String → Dict String String
zip_dict [] rs d = d
zip_dict (n ∷ ns) [] d = d
zip_dict (n ∷ ns) (r ∷ rs) d = zip_dict ns rs (set n r d)

unfoldable pub response_dict : List String → Responses → Dict String String
unfolding zip_dict
response_dict names (by_name d) = d
response_dict names (in_order l) = zip_dict names l []

unfoldable pub response_of : Dict String String → String → String
response_of d a = elim (get a d) [ none ↦ "" | some r ↦ r ]

abbrev pub count : String → List String → ℕ
count a xs = count_if (λ x. x == a) xs

-- Of the items, the first among those that are most frequent in `whole`, and how often it is there.
unfoldable pub first_of_most : List String → String → List String → String × ℕ
first_of_most whole x [] = (x, count x whole)
first_of_most whole x (y ∷ ys) =
    let (best, n) = first_of_most whole y ys in
    if ltb (count x whole) n then (best, n) else (x, count x whole)

-- Counter(xs).most_common(1)
unfoldable pub most_common : List String → Option (String × ℕ)
unfolding first_of_most
most_common [] = none
most_common (x ∷ xs) = some (first_of_most (x ∷ xs) x xs)

pub record Agreement (F : Type 0) : Type 0 where
  pub confidence : Confidence
  pub agreement_ratio : F
  pub majority_view : Option String
  pub minority_views : List String

module _ {F : Type 0} ⦃f : Float F⦄ where
  -- a / b if b > 0 else 0.0
  unfoldable pub ratio : ℕ → ℕ → F
  ratio a zero = f.lit 0 0
  ratio a (suc b) = f.div (f.lit a 0) (f.lit (suc b) 0)

  unfoldable pub agreement_by_clusters : Responses → DissentReport F → Agreement F
  unfolding cluster_by_similarity response_dict response_of confidence_of ratio
  agreement_by_clusters responses report =
      let names = map (λ p. p.agent_name) report.agent_profiles in
      let (majority, minority) = cluster_by_similarity names report.pairwise in
      let d = response_dict names responses in
      let r = ratio (length majority) (length names) in
      record {
        confidence = confidence_of r;
        agreement_ratio = r;
        majority_view = elim majority [ [] ↦ none | a ∷ _ ↦ some (response_of d a) ];
        minority_views = map (response_of d) minority;
      }

  -- Without distances: exact matches. `none` is the IndexError of `most_common(1)[0]` on no responses.
  unfoldable pub agreement_by_matching : List String → Option (Agreement F)
  unfolding most_common confidence_of ratio
  agreement_by_matching rs = elim (most_common rs) [
    | none ↦ none
    | some (m, n) ↦
        let r = ratio n (length rs) in
        some (record {
          confidence = confidence_of r;
          agreement_ratio = r;
          majority_view = some m;
          minority_views = keep (λ x. not (x == m)) rs;
        })
  ]

  unfoldable pub analyze_agreement : Responses → Option (DissentReport F) → Option (Agreement F)
  unfolding agreement_by_clusters agreement_by_matching response_list
  analyze_agreement responses none = agreement_by_matching (response_list responses)
  analyze_agreement responses (some report) =
      if nonempty report.pairwise
      then some (agreement_by_clusters responses report)
      else agreement_by_matching (response_list responses)

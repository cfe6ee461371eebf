-- ===== src/Registry/Pipeline.antt =====
-- `build_inference_pipeline` and `route_query` of maestro/shard_registry.py. Python's sort and `max`
-- are written as a stable insertion and as a choice of the first greatest candidate; they agree where
-- `<` on the keys is a strict weak order.
pub mod Rounds
pub mod Coverage
pub mod Members
use maestro_orchestrator.Prelude.{
  ℕ, zero, suc, ◌+◌, String, Bool, true, false, not, ◌&&◌, ◌||◌, Option, none, some, List, [], ◌∷◌,
  ◌++◌, map, if◌then◌else◌, ◌==◌, ltb, nat_beq, text_keys,
}
use maestro_orchestrator.Prelude.Lists.{keep, length}
use maestro_orchestrator.Prelude.Dict.{values}
use maestro_orchestrator.Prelude.Int.{ℤ, pos, leb_ℤ, ◌+ℤ◌}
use maestro_orchestrator.Prelude.Float.{Float}
use maestro_orchestrator.Registry.{
  Shard, WeightHost, Registry, shard_model, shard_range, is_down, weight_locality_score,
}

-- One entry of `shard_nodes`.
pub record Candidate (F : Type 0) : Type 0 where
  pub node : WeightHost F
  pub start : ℤ
  pub end : ℤ
  pub locality : ℕ

module _ {F : Type 0} where
  -- The entries of one host, in the order of its shards.
  unfoldable pub host_candidates :
      String → List String → WeightHost F → List Shard → List (Candidate F)
  host_candidates model domains n [] = []
  host_candidates model domains n (s ∷ rest) =
      let others = host_candidates model domains n rest in
      if shard_model s == model
      then elim (shard_range s) [
        | none ↦ others
        | some (a, b) ↦
            record { node = n; start = a; end = b; locality = weight_locality_score n domains }
            ∷ others
      ]
      else others

  unfoldable pub shard_nodes : String → List String → List (WeightHost F) → List (Candidate F)
  unfolding host_candidates
  shard_nodes model domains [] = []
  shard_nodes model domains (n ∷ ns) =
      if is_down n.status
      then shard_nodes model domains ns
      else host_candidates model domains n n.shards ++ shard_nodes model domains ns

module _ {F : Type 0} ⦃f : Float F⦄ where
  -- x's key < y's key for (start, -locality, -reputation).
  sorts_before : Candidate F → Candidate F → Bool
  sorts_before x y =
      if not (leb_ℤ x.start y.start && leb_ℤ y.start x.start)
      then leb_ℤ x.start y.start
      else if not (nat_beq x.locality y.locality)
      then ltb y.locality x.locality
      else f.lt y.node.reputation_score x.node.reputation_score

  insert_sorted : Candidate F → List (Candidate F) → List (Candidate F)
  insert_sorted x [] = x ∷ []
  insert_sorted x (y ∷ ys) = if sorts_before y x then y ∷ insert_sorted x ys else x ∷ y ∷ ys

  unfoldable pub sort_candidates : List (Candidate F) → List (Candidate F)
  unfolding insert_sorted sorts_before
  sort_candidates [] = []
  sort_candidates (x ∷ xs) = insert_sorted x (sort_candidates xs)

  -- x's key > y's key for (end, locality, reputation, -latency).
  unfoldable pub better : Candidate F → Candidate F → Bool
  better x y =
      if not (leb_ℤ x.end y.end && leb_ℤ y.end x.end)
      then leb_ℤ y.end x.end
      else if not (nat_beq x.locality y.locality)
      then ltb y.locality x.locality
      else if not (f.eq x.node.reputation_score y.node.reputation_score)
      then f.lt y.node.reputation_score x.node.reputation_score
      else f.lt x.node.mean_latency_ms y.node.mean_latency_ms

  -- Of a candidate and the choice among the later ones.
  prefer :
      Candidate F
      → List (Candidate F)
      → Option (Candidate F × List (Candidate F))
      → Option (Candidate F × List (Candidate F))
  unfolding better
  prefer x xs none = some (x, xs)
  prefer x xs (some (b, rest)) = if better b x then some (b, x ∷ rest) else some (x, xs)

  skip :
      Candidate F
      → Option (Candidate F × List (Candidate F))
      → Option (Candidate F × List (Candidate F))
  skip x none = none
  skip x (some (b, rest)) = some (b, x ∷ rest)

  -- The first greatest entry with `start <= current_layer`, and the list with it removed.
  unfoldable pub pick : ℤ → List (Candidate F) → Option (Candidate F × List (Candidate F))
  unfolding prefer skip
  pick cur [] = none
  pick cur (x ∷ xs) =
      let later = pick cur xs in if leb_ℤ x.start cur then prefer x xs later else skip x later

  -- The `while shard_nodes` loop from `current_layer`. A round takes an entry out, so as many rounds
  -- as there are entries are enough.
  unfoldable pub assemble : ℕ → ℤ → List (Candidate F) → List (Candidate F)
  unfolding pick
  assemble zero cur xs = []
  assemble (suc rounds) cur xs = elim (pick cur xs) [
    | none ↦ []
    | some (best, rest) ↦
        best
        ∷ assemble rounds (best.end +ℤ pos 1) (keep (λ s. leb_ℤ (best.end +ℤ pos 1) s.end) rest)
  ]

  unfoldable pub hops : String → List String → Registry F → List (Candidate F)
  unfolding shard_nodes sort_candidates assemble
  hops model domains r =
      let sorted = sort_candidates (shard_nodes model domains (values r.nodes)) in
      assemble (length sorted) (pos 0) sorted

  unfoldable pub build_inference_pipeline : String → List String → Registry F → List (WeightHost F)
  unfolding hops
  build_inference_pipeline model domains r = map (λ c. c.node) (hops model domains r)

  pub route_query : String → List String → Registry F → List (WeightHost F)
  route_query = build_inference_pipeline

-- `current_layer` when the loop has made these hops.
abbrev pub reach : {F : Type 0} → ℤ → List (Candidate F) → ℤ
reach cur [] = cur
reach cur (h ∷ hs) = reach (h.end +ℤ pos 1) hs
